-- ===== src/Crypto/KeyDerivation/Laws.antt =====
-- Proofs about backend/crypto_engine/key_derivation.py.
use qu_mail.Prelude.{
  ℕ, ◌≤◌, ◌<◌, ◌≡◌, refl, ◌≢◌, List, [], ◌∷◌, Bytes, length, arith, none, some, ◌++◌,
}
use qu_mail.Result.{ok, err, value_error}
use qu_mail.Crypto.Primitives.{Hkdf}
use qu_mail.Crypto.KeyDerivation.{
  ascii, EmailKeys, derive_key, derive_multiple_keys, derive_email_keys,
}

-- The keys of a list have the lengths asked for, one by one.
abbrev pub HasLengths : List (Bytes × ℕ) → List Bytes → Type 0
HasLengths [] [] = Unit
HasLengths [] (k ∷ ks) = ⊥
HasLengths (c ∷ cs) [] = ⊥
HasLengths (c ∷ cs) (k ∷ ks) = (length k ≡ c.1) × HasLengths cs ks

-- Every requested length is one that HKDF-SHA256 can give.
abbrev pub InRange : List (Bytes × ℕ) → Type 0
InRange [] = Unit
InRange (c ∷ cs) = (0 < c.1) × (c.1 ≤ 8160) × InRange cs

module _ (hkdf : Hkdf) where
  pub derive_key-length :
      (ikm context : Bytes) (n : ℕ) (salt : Bytes)
      → ikm ≢ []
      → 0 < n
      → n ≤ 8160
      → (k : Bytes) × (derive_key hkdf ikm context n salt ≡ ok k) × (length k ≡ n)
  unfolding derive_key
  derive_key-length [] context n salt ne p q = absurd (ne refl)
  derive_key-length (x ∷ xs) context n [] ne p q = (
    hkdf.derive (x ∷ xs) context n none,
    ground arith,
    hkdf.length-derive (x ∷ xs) context n none,
  )
  derive_key-length (x ∷ xs) context n (s ∷ ss) ne p q = (
    hkdf.derive (x ∷ xs) context n (some (s ∷ ss)),
    ground arith,
    hkdf.length-derive (x ∷ xs) context n (some (s ∷ ss)),
  )

  -- From a key that is not empty, every request in HKDF's range yields as many keys as contexts, each
  -- of the length asked for.
  derive_multiple_keys-HasLengths :
      (ikm : Bytes) (contexts : List (Bytes × ℕ)) (salt : Bytes)
      → ikm ≢ []
      → InRange contexts
      → (ks : List Bytes) × (derive_multiple_keys hkdf ikm contexts salt ≡ ok ks)
        × HasLengths contexts ks
  unfolding derive_multiple_keys
  derive_multiple_keys-HasLengths ikm [] salt ne h = ([], refl, tt)
  derive_multiple_keys-HasLengths ikm ((c, n) ∷ cs) salt ne h =
      let (k, e, len) = derive_key-length ikm c n salt ne h.0 h.1 in
      let (ks, es, lens) = derive_multiple_keys-HasLengths ikm cs salt ne h.2 in
      (k ∷ ks, rw e (rw es), (len, lens))

  -- The keys of an e-mail: an empty QKD key is refused, and any other gives an encryption key and a MAC
  -- key of 32 bytes and an IV seed of 16.
  pub derive_email_keys_lem :
      (qkd_key email_id : Bytes)
      → qkd_key ≢ []
      → (ks : EmailKeys) × (derive_email_keys hkdf qkd_key email_id ≡ ok ks)
        × (length ks.encryption_key ≡ 32)
        × (length ks.mac_key ≡ 32)
        × (length ks.iv_seed ≡ 16)
        × (derive_email_keys hkdf [] email_id ≡ err value_error)
  unfolding derive_email_keys
  derive_email_keys_lem qkd_key email_id ne =
      let base = ascii "qumail-email-" ++ email_id in
      let (k₁, e₁, l₁) =
        derive_key-length qkd_key (base ++ ascii "-enc") 32 [] ne (omega arith) (omega arith) in
      let (k₂, e₂, l₂) =
        derive_key-length qkd_key (base ++ ascii "-mac") 32 [] ne (omega arith) (omega arith) in
      let (k₃, e₃, l₃) =
        derive_key-length qkd_key (base ++ ascii "-iv") 16 [] ne (omega arith) (omega arith) in
      (
        record { encryption_key = k₁; mac_key = k₂; iv_seed = k₃ },
        rw e₁ (rw e₂ (rw e₃)),
        l₁,
        l₂,
        l₃,
        unfold derive_key in refl,
      )
