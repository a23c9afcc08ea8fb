-- ===== src/Crypto/Otp/Laws.antt =====
-- Proofs about backend/crypto_engine/otp.py: round trips and refusals.
use qu_mail.Prelude.{
  ◌≢◌, true, ℕ, suc, ◌≤◌, ◌<◌, ◌≡◌, refl, ap, ◌∙◌, true, inl, inr, Bool-cases, [], ◌∷◌, Bytes,
  length, take, length-take, arith, ltb, ltb→le, lt→ltb, le→ltb, if◌then◌else◌,
}
use qu_mail.Result.{ok, err, value_error}
use qu_mail.Crypto.Xor.{xor-xor, xor-lt}
use qu_mail.Crypto.Otp.{
  IsBytes, xor_bytes, otp_encrypt, otp_decrypt, same_bytes, otp_encrypt_with_mac,
  otp_decrypt_with_mac,
}

-- The part of the key that is used.
abbrev pad : Bytes → Bytes → Bytes
pad plain key = if ltb (length plain) (length key) then take (length plain) key else key

length-pad : (plain key : Bytes) → length plain ≤ length key → length (pad plain key) ≡ length plain
length-pad plain key h = elim (Bool-cases (ltb (length plain) (length key))) [
  | inl long ↦ rw long (omega (arith, length-take (length plain) key))
  | inr same ↦ rw same (omega (arith, ltb→le (length plain) (length key) same))
]

length-xor_bytes : (ps ks : Bytes) → length ps ≤ length ks → length (xor_bytes ps ks) ≡ length ps
unfolding xor_bytes
length-xor_bytes [] ks h = refl
length-xor_bytes (p ∷ ps) [] h = absurd (omega arith)
length-xor_bytes (p ∷ ps) (k ∷ ks) h = ap suc (length-xor_bytes ps ks (omega arith))

xor_bytes-IsBytes : (ps ks : Bytes) → IsBytes ps → IsBytes ks → IsBytes (xor_bytes ps ks)
unfolding xor_bytes
xor_bytes-IsBytes [] ks h g = tt
xor_bytes-IsBytes (p ∷ ps) [] h g = tt
xor_bytes-IsBytes (p ∷ ps) (k ∷ ks) h g = (xor-lt p k h.0 g.0, xor_bytes-IsBytes ps ks h.1 g.1)

xor_bytes-xor_bytes :
    (ps ks : Bytes)
    → IsBytes ps
    → IsBytes ks
    → length ps ≤ length ks
    → xor_bytes (xor_bytes ps ks) ks ≡ ps
unfolding xor_bytes
xor_bytes-xor_bytes [] ks h g le = refl
xor_bytes-xor_bytes (p ∷ ps) [] h g le = absurd (omega arith)
xor_bytes-xor_bytes (p ∷ ps) (k ∷ ks) h g le =
    cc (xor-xor p k h.0 g.0, xor_bytes-xor_bytes ps ks h.1 g.1 (omega arith))

take-IsBytes : (n : ℕ) (ks : Bytes) → IsBytes ks → IsBytes (take n ks)
take-IsBytes (suc n) (k ∷ ks) h = (h.0, take-IsBytes n ks h.1)
take-IsBytes (suc n) [] h = tt
take-IsBytes _ _ h = tt

pad-IsBytes : (plain key : Bytes) → IsBytes key → IsBytes (pad plain key)
pad-IsBytes plain key h = elim (Bool-cases (ltb (length plain) (length key))) [
  | inl long ↦ rw long (take-IsBytes (length plain) key h)
  | inr same ↦ rw same h
]

-- A key that is long enough encrypts, and the ciphertext has the plaintext's length.
otp_encrypt-eq :
    (plain key : Bytes)
    → length plain ≤ length key
    → otp_encrypt plain key ≡ ok (xor_bytes plain (pad plain key))
unfolding otp_encrypt
otp_encrypt-eq plain key h = rw (le→ltb (length key) (length plain) h)

pad-pad : (plain other key : Bytes) → length other ≡ length plain → pad other key ≡ pad plain key
pad-pad plain other key e = rw e

-- With a key of bytes at least as long as the plaintext, encryption succeeds, the ciphertext is as
-- long as the plaintext, and decryption with the same key gives the plaintext back.
pub otp_round_trip :
    (plain key : Bytes)
    → IsBytes plain
    → IsBytes key
    → length plain ≤ length key
    → (c : Bytes) × (otp_encrypt plain key ≡ ok c)
      × (length c ≡ length plain)
      × (otp_decrypt c key ≡ ok plain)
unfolding otp_decrypt
otp_round_trip plain key hp hk le =
    let c : Bytes = xor_bytes plain (pad plain key) in
    let same : length c ≡ length plain =
      length-xor_bytes plain (pad plain key) (omega (arith, length-pad plain key le)) in
    (
      c,
      otp_encrypt-eq plain key le,
      same,
      otp_encrypt-eq c key (omega arith)
          ∙ ap ok (
              ap (xor_bytes c) (pad-pad plain c key same)
              ∙ xor_bytes-xor_bytes plain (pad plain key) hp (pad-IsBytes plain key hk)
                  (omega (arith, length-pad plain key le))),
    )

-- A key shorter than the plaintext is refused, by encryption and by decryption.
otp_short_key :
    (plain key : Bytes)
    → length key < length plain
    → (otp_encrypt plain key ≡ err value_error) × (otp_decrypt plain key ≡ err value_error)
unfolding otp_decrypt otp_encrypt
otp_short_key plain key h = let e = lt→ltb (length key) (length plain) h in (rw e, rw e)

pub same_bytes_refl : (xs : Bytes) → same_bytes xs xs ≡ true
same_bytes_refl [] = refl
same_bytes_refl (x ∷ xs) = ground (arith, same_bytes_refl xs)

pub same_bytes→eq : (xs ys : Bytes) → same_bytes xs ys ≡ true → xs ≡ ys
same_bytes→eq [] [] h = refl
same_bytes→eq [] (y ∷ ys) h = cc
same_bytes→eq (x ∷ xs) [] h = cc
same_bytes→eq (x ∷ xs) (y ∷ ys) h = ground (arith, same_bytes→eq xs ys)

-- Authenticated encryption with a MAC key of at least 32 bytes and a pad that is long enough succeeds,
-- and the ciphertext and the tag that it gives decrypt to the plaintext.
pub otp_mac_round_trip :
    (mac : Bytes → Bytes → Bytes) (plain key mac_key : Bytes)
    → IsBytes plain
    → IsBytes key
    → length plain ≤ length key
    → 32 ≤ length mac_key
    → (c tag : Bytes) × (otp_encrypt_with_mac mac plain key mac_key ≡ ok (c, tag))
      × (otp_decrypt_with_mac mac c tag key mac_key ≡ ok plain)
unfolding otp_encrypt_with_mac otp_decrypt_with_mac
otp_mac_round_trip mac plain key mac_key hp hk le long =
    let (c, enc, same, dec) = otp_round_trip plain key hp hk le in
    (
      c,
      mac mac_key c,
      rw (le→ltb (length mac_key) 32 long) (rw enc),
      rw (same_bytes_refl (mac mac_key c)) dec,
    )

-- A MAC key below 32 bytes is refused by encryption, and a tag that is not the MAC of the ciphertext
-- by decryption.
pub otp_mac_refusals :
    (mac : Bytes → Bytes → Bytes) (plain c tag key short_key mac_key : Bytes)
    → length short_key < 32
    → tag ≢ mac mac_key c
    → (otp_encrypt_with_mac mac plain key short_key ≡ err value_error)
      × (otp_decrypt_with_mac mac c tag key mac_key ≡ err value_error)
unfolding otp_encrypt_with_mac otp_decrypt_with_mac
otp_mac_refusals mac plain c tag key short_key mac_key short ne = (
  rw (lt→ltb (length short_key) 32 short),
  elim (Bool-cases (same_bytes tag (mac mac_key c))) [
    | inl eq ↦ absurd (ne (same_bytes→eq tag (mac mac_key c) eq))
    | inr differs ↦ rw differs
  ],
)
