-- ===== src/Crypto/AesGcm/Laws.antt =====
-- Proofs about backend/crypto_engine/aes_gcm.py.
use qu_mail.Prelude.{
  ℕ, ◌-◌, ◌≡◌, ◌≢◌, ◌⊎◌, ap, ◌∙◌, true, false, ◌++◌, Bytes, length, length-append, length-take,
  length-drop, take-drop-append, take-append_self, drop-append_self, take, drop, arith, le→ltb,
  ◌==◌,
}
use qu_mail.Result.{ok, err, value_error, ◌>>=◌}
use qu_mail.Crypto.Primitives.{Aead}
use qu_mail.Crypto.AesGcm.{
  aes_encrypt, aes_decrypt, aes_encrypt_combined, aes_decrypt_combined, or_invalid_tag,
}

eq→== : (a b : ℕ) → a ≡ b → (a == b) ≡ true
eq→== a b h = ground arith

ne→== : (a b : ℕ) → a ≢ b → (a == b) ≡ false
ne→== a b h = ground arith

module _ (aead : Aead) where
  -- With a 32-byte key and a 12-byte nonce encryption succeeds with a 16-byte tag and a ciphertext as
  -- long as the plaintext, and decryption of the three parts gives the plaintext back.
  pub aes_round_trip :
      (nonce plain key aad : Bytes)
      → length key ≡ 32
      → length nonce ≡ 12
      → (c tag : Bytes) × (aes_encrypt aead nonce plain key aad ≡ ok (c, nonce, tag))
        × (length c ≡ length plain)
        × (length tag ≡ 16)
        × (aes_decrypt aead c key nonce tag aad ≡ ok plain)
  unfolding aes_encrypt aes_decrypt
  aes_round_trip nonce plain key aad hk hn =
      let sealed : Bytes = aead.seal key nonce plain aad in
      let n : ℕ = length sealed - 16 in
      let size = aead.length-seal key nonce plain aad in
      let tag_length : length (drop n sealed) ≡ 16 = omega (arith, length-drop n sealed) in
      (
        take n sealed,
        drop n sealed,
        rw (eq→== (length key) 32 hk) (rw (aead.accepts_256_bits key hk)),
        omega (arith, length-take n sealed),
        tag_length,
        rw (eq→== (length key) 32 hk) (
            rw (eq→== (length nonce) 12 hn) (
              rw (eq→== (length (drop n sealed)) 16 tag_length) (
                rw (aead.accepts_256_bits key hk) (
                  ap or_invalid_tag (
                    ap (λ c. aead.unseal key nonce c aad) (take-drop-append n sealed)
                    ∙ aead.unseal-seal key nonce plain aad))))),
      )

  -- A key that is not 32 bytes long is refused by encryption and by decryption.
  aes_wrong_key :
      (nonce text key tag aad : Bytes)
      → length key ≢ 32
      → (aes_encrypt aead nonce text key aad ≡ err value_error)
        × (aes_decrypt aead text key nonce tag aad ≡ err value_error)
  unfolding aes_encrypt aes_decrypt
  aes_wrong_key nonce text key tag aad h =
      (rw (ne→== (length key) 32 h), rw (ne→== (length key) 32 h))

  -- A nonce that is not 12 bytes long, or a tag that is not 16, is refused by decryption.
  aes_wrong_parts :
      (nonce text key tag aad : Bytes)
      → (length nonce ≢ 12) ⊎ (length tag ≢ 16)
      → aes_decrypt aead text key nonce tag aad ≡ err value_error
  unfolding aes_decrypt
  aes_wrong_parts nonce text key tag aad h = ground arith

  -- The combined form carries its own nonce: what it encrypts under an accepted key with a 12-byte
  -- nonce it decrypts.
  pub aes_combined_round_trip :
      (nonce plain key aad : Bytes)
      → aead.accepts_key key ≡ true
      → length nonce ≡ 12
      → (aes_encrypt_combined aead nonce plain key aad >>= λ c. aes_decrypt_combined aead c key aad)
        ≡ ok plain
  unfolding aes_encrypt_combined aes_decrypt_combined
  aes_combined_round_trip nonce plain key aad hk hn =
      let sealed : Bytes = aead.seal key nonce plain aad in
      let size = aead.length-seal key nonce plain aad in
      rw hk (
        rw (le→ltb (length (nonce ++ sealed)) 28 (omega (arith, length-append nonce sealed))) (
          rw (take-append_self 12 nonce sealed hn) (
            rw (drop-append_self 12 nonce sealed hn)
              (ap or_invalid_tag (aead.unseal-seal key nonce plain aad)))))
