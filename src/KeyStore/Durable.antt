-- ===== src/KeyStore/Durable.antt =====
-- Proofs about key_store/encrypted_store.py, across restarts.
use qu_mail.Result.{ok}
use qu_mail.Prelude.{
  ℕ, String, Bytes, length, ◌≡◌, [], some, ◌∷◌, ◌++◌, arith, Option, ◌∙◌, ap, sym, refl, none,
  eq_refl, if◌then◌else◌,
}
use qu_mail.Dict.{lookup, insert, lookup-insert}
use qu_mail.Crypto.Primitives.{Aead}
use qu_mail.Crypto.AesGcm.{aes_encrypt_combined, aes_decrypt_combined}
use qu_mail.Crypto.AesGcm.Laws.{aes_combined_round_trip}
use qu_mail.KeyStore.Encrypted.{
  CacheCodec, EncryptedKeyStore, open_cache, read_cache, initialize_cache, ensure_initialized,
  persist_cache, store_key, let_go, zeros, read_key, rotate_encryption_key,
}

module _ (aead : Aead) (codec : CacheCodec) where
  sealed_lem :
      (nonce plain key : Bytes)
      → length key ≡ 32
      → length nonce ≡ 12
      → (c : Bytes) × (aes_encrypt_combined aead nonce plain key [] ≡ ok c)
        × (aes_decrypt_combined aead c key [] ≡ ok plain)
  unfolding aes_encrypt_combined
  sealed_lem nonce plain key hk hn =
      let accepted = aead.accepts_256_bits key hk in
      let trip = aes_combined_round_trip aead nonce plain key [] accepted hn in
      (nonce ++ aead.seal key nonce plain [], rw accepted, ground arith)

  -- A write under a 32-byte key succeeds, and the file reads back as the cache.
  persist_cache_lem :
      (nonce : Bytes) (s : EncryptedKeyStore)
      → length s.encryption_key ≡ 32
      → length nonce ≡ 12
      → (bs : Bytes) × (persist_cache aead codec nonce s ≡ (ok tt, record s { file = some bs }))
        × (read_cache aead codec bs s.encryption_key ≡ s.cache)
  unfolding persist_cache read_cache
  persist_cache_lem nonce s hk hn =
      let (c, enc, dec) = sealed_lem nonce (codec.serialize s.cache) s.encryption_key hk hn in
      (c, ground (arith, enc), ground (arith, dec, codec.deserialize-serialize s.cache))

  -- What `get` makes of an entry of the cache.
  abbrev found : Option Bytes → Option Bytes
  found entry = elim entry [
    | none ↦ none
    | some material ↦ elim material [ [] ↦ none | b ∷ bs ↦ some (b ∷ bs) ]
  ]

  read_key_lem :
      (key_id : String) (s : EncryptedKeyStore)
      → (read_key aead codec key_id s).0
        ≡ found (lookup key_id (ensure_initialized aead codec s).cache)
  unfolding read_key
  read_key_lem key_id s = refl

  opened_lem :
      (bs key : Bytes) (key_id : String)
      → (read_key aead codec key_id (open_cache (some bs) key)).0
        ≡ found (lookup key_id (read_cache aead codec bs key))
  unfolding read_key ensure_initialized initialize_cache open_cache
  opened_lem bs key key_id = refl

  -- A restart on what a write under a 32-byte key made finds what the cache had.
  reopened_lem :
      (nonce : Bytes) (key_id : String) (s : EncryptedKeyStore)
      → length s.encryption_key ≡ 32
      → length nonce ≡ 12
      → (q : EncryptedKeyStore) × (persist_cache aead codec nonce s ≡ (ok tt, q))
        × ((read_key aead codec key_id (open_cache q.file s.encryption_key)).0
            ≡ found (lookup key_id s.cache))
  reopened_lem nonce key_id s hk hn =
      let (bs, written, back) = persist_cache_lem nonce s hk hn in
      (
        record s { file = some bs },
        written,
        opened_lem bs s.encryption_key key_id ∙ ap (λ d. found (lookup key_id d)) back,
      )

  same_key :
      (s : EncryptedKeyStore) → (ensure_initialized aead codec s).encryption_key ≡ s.encryption_key
  unfolding ensure_initialized initialize_cache
  same_key s = ground arith

  -- Under a 32-byte key a store succeeds, and a process that opens the file later with the same key
  -- gets the key that was stored, if it is not empty.
  pub read_key-store_key :
      (nonce : Bytes) (key_id : String) (b : ℕ) (material : Bytes) (s : EncryptedKeyStore)
      → length s.encryption_key ≡ 32
      → length nonce ≡ 12
      → (q : EncryptedKeyStore) × (store_key aead codec nonce key_id (b ∷ material) s ≡ (ok tt, q))
        × ((read_key aead codec key_id (open_cache q.file s.encryption_key)).0
            ≡ some (b ∷ material))
  read_key-store_key nonce key_id b material s hk hn =
      let s' = ensure_initialized aead codec s in
      let stored : EncryptedKeyStore = record s' {
        cache = insert key_id (b ∷ material) s'.cache;
        released = let_go aead codec key_id s';
      } in
      let entry : lookup key_id stored.cache ≡ some (b ∷ material) =
        lookup-insert key_id key_id (b ∷ material) s'.cache
        ∙ ap (λ same. if same then some (b ∷ material) else lookup key_id s'.cache)
            (eq_refl key_id) in
      let (q, written, back) = reopened_lem nonce key_id stored (rw (same_key s) hk) hn in
      (
        q,
        (unfold store_key in written),
        ap (λ key. (read_key aead codec key_id (open_cache q.file key)).0) (sym (same_key s))
            ∙ back
            ∙ ap found entry,
      )

  -- A rotation to a 32-byte key succeeds, and a process that opens the file later with the new key
  -- gets every key that is not empty as the store had it.
  pub read_key-rotate_encryption_key :
      (nonce new_key : Bytes) (key_id : String) (s : EncryptedKeyStore)
      → length new_key ≡ 32
      → length nonce ≡ 12
      → (q : EncryptedKeyStore) × (rotate_encryption_key aead codec nonce new_key s ≡ (ok tt, q))
        × ((read_key aead codec key_id (open_cache q.file new_key)).0
            ≡ (read_key aead codec key_id s).0)
  read_key-rotate_encryption_key nonce new_key key_id s hk hn =
      let s' = ensure_initialized aead codec s in
      let rotated : EncryptedKeyStore = record s' {
        encryption_key = new_key;
        released = zeros s'.encryption_key ∷ s'.released;
      } in
      let (q, written, back) = reopened_lem nonce key_id rotated hk hn in
      (q, (unfold rotate_encryption_key in written), back ∙ sym (read_key_lem key_id s))
