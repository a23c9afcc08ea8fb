-- ===== src/Crypto/Pqc/Laws.antt =====
-- Proofs about backend/crypto_engine/pqc.py: the caches of the simulation.
use qu_mail.Prelude.{
  ℕ, List, Bytes, length, ◌≡◌, ◌≤◌, ◌≢◌, ◌∷◌, take, arith, ap, ◌-◌, ◌+◌, Bool-cases, le→ltb, some,
  ◌∙◌, suc, ltb, refl, [], inl, zero, inr, ltb→le, ◌++◌,
}
use qu_mail.Crypto.Otp.Laws.{same_bytes_refl, same_bytes→eq}
use qu_mail.Crypto.Pqc.{
  ByteDict, cache_get, cache_put, cache_pop, cache_pop_all, keys, trim, Caches, cache_cleanup,
  encap, decap, sign,
}

module _ {V : Type 0} where
  pop-pop :
      (j k : Bytes) (d : ByteDict V) → cache_pop j (cache_pop k d) ≡ cache_pop k (cache_pop j d)
  unfolding cache_pop
  pop-pop j k [] = refl
  pop-pop j k ((i, v) ∷ d) = ground (arith, pop-pop j k d)

  pop_all-pop :
      (ks : List Bytes) (k : Bytes) (d : ByteDict V)
      → cache_pop_all ks (cache_pop k d) ≡ cache_pop k (cache_pop_all ks d)
  unfolding cache_pop_all
  pop_all-pop [] k d = refl
  pop_all-pop (j ∷ ks) k d =
      ap (cache_pop_all ks) (pop-pop j k d) ∙ pop_all-pop ks k (cache_pop j d)

  length-pop : (k : Bytes) (d : ByteDict V) → length (cache_pop k d) ≤ length d
  unfolding cache_pop
  length-pop k [] = omega arith
  length-pop k ((j, v) ∷ d) = ground (arith, length-pop k d)

  pop-head : (k : Bytes) (v : V) (d : ByteDict V) → cache_pop k ((k, v) ∷ d) ≡ cache_pop k d
  unfolding cache_pop
  pop-head k v d = rw (same_bytes_refl k) refl

  -- Removing the first `n` keys removes at least so many entries.
  length-pop_all :
      (n : ℕ) (d : ByteDict V) → length (cache_pop_all (take n (keys d)) d) ≤ length d - n
  unfolding cache_pop_all
  length-pop_all zero d = omega arith
  length-pop_all (suc n) [] = omega arith
  length-pop_all (suc n) ((k, v) ∷ d) =
      let rest = cache_pop_all (take n (keys d)) d in
      rw (pop-head k v d) (
        rw (pop_all-pop (take n (keys d)) k d)
          (omega (arith, length-pop k rest, length-pop_all n d)))

  length-put : (k : Bytes) (v : V) (d : ByteDict V) → length (cache_put k v d) ≤ length d + 1
  unfolding cache_put
  length-put k v [] = omega arith
  length-put k v ((j, w) ∷ d) = ground (arith, length-put k v d)

  -- A trimmed cache has room for one entry more than the limit.
  length-trim : (d : ByteDict V) → length d ≤ 10001 → length (trim 10000 d) ≤ 10000
  unfolding trim
  length-trim d h = elim (Bool-cases (ltb 10000 (length d))) [
    | inl full ↦ rw full (omega (arith, length-pop_all 5000 d))
    | inr room ↦ rw room (omega (arith, ltb→le 10000 (length d) room))
  ]

  trim_idle : (d : ByteDict V) → length d ≤ 10000 → trim 10000 d ≡ d
  unfolding trim
  trim_idle d h = rw (le→ltb 10000 (length d) h) refl

  get-put_self : (k : Bytes) (v : V) (d : ByteDict V) → cache_get k (cache_put k v d) ≡ some v
  unfolding cache_get cache_put
  get-put_self k v [] = rw (same_bytes_refl k) refl
  get-put_self k v ((j, w) ∷ d) = ground (arith, get-put_self k v d)

  get-put_other :
      (k j : Bytes) (v : V) (d : ByteDict V) → j ≢ k → cache_get k (cache_put j v d) ≡ cache_get k d
  unfolding cache_get cache_put
  get-put_other k j v [] ne = ground (arith, same_bytes→eq j k)
  get-put_other k j v ((i, w) ∷ d) ne =
      ground (arith, get-put_other k j v d, same_bytes→eq i j, same_bytes→eq j k, same_bytes→eq i k)

-- What the simulation does to its caches.
pub data Use : Type 0 where
  encapsulates : Bytes → Bytes → Use
  signs : Bytes → Bytes → Bytes → Use

module _ (sha256 : Bytes → Bytes) (hmac_sha512 : Bytes → Bytes → Bytes) where
  abbrev pub use_caches : Use → Caches → Caches
  use_caches (encapsulates ciphertext shared_secret) c =
      (encap sha256 hmac_sha512 ciphertext shared_secret c).1
  use_caches (signs padding message secret_key) c =
      (sign sha256 hmac_sha512 padding message secret_key c).1

  abbrev pub use_all : List Use → Caches → Caches
  use_all [] c = c
  use_all (u ∷ us) c = use_all us (use_caches u c)

  use_bounded :
      (u : Use) (c : Caches)
      → length c.kyber ≤ 10001
      → length c.dilithium ≤ 10001
      → (length (use_caches u c).kyber ≤ 10001) × (length (use_caches u c).dilithium ≤ 10001)
  unfolding encap sign cache_cleanup
  use_bounded (encapsulates ct ss) c k d = (
    omega (arith, length-put ct ss (trim 10000 c.kyber), length-trim c.kyber k),
    omega (arith, length-trim c.dilithium d),
  )
  use_bounded (signs padding message sk) c k d =
      let signature = hmac_sha512 (take 64 sk) message ++ padding in
      (
        omega (arith, length-trim c.kyber k),
        omega (
          arith,
          length-put (take 64 signature) (message, take 64 sk) (trim 10000 c.dilithium),
          length-trim c.dilithium d,
        ),
      )

  -- Bounded memory: however the simulation is used, starting with caches of at most 10,001 entries such as
  -- empty ones, neither cache ever holds more than 10,001 entries.
  pub use_all-bounded :
      (us : List Use) (c : Caches)
      → length c.kyber ≤ 10001
      → length c.dilithium ≤ 10001
      → (length (use_all us c).kyber ≤ 10001) × (length (use_all us c).dilithium ≤ 10001)
  use_all-bounded [] c k d = (k, d)
  use_all-bounded (u ∷ us) c k d =
      let (k', d') = use_bounded u c k d in use_all-bounded us (use_caches u c) k' d'

  -- No use draws this ciphertext again.
  abbrev pub Avoids : Bytes → List Use → Type 0
  Avoids ct [] = Unit
  Avoids ct (encapsulates ct' ss ∷ us) = (ct' ≢ ct) × Avoids ct us
  Avoids ct (signs padding message sk ∷ us) = Avoids ct us

  kept_lem :
      (us : List Use) (ct ss : Bytes) (c : Caches)
      → cache_get ct c.kyber ≡ some ss
      → Avoids ct us
      → length c.kyber + length us ≤ 10001
      → cache_get ct (use_all us c).kyber ≡ some ss
  unfolding encap sign cache_cleanup
  kept_lem [] ct ss c held avoids room = held
  kept_lem (encapsulates ct' ss' ∷ us) ct ss c held (other, avoids) room =
      let idle = trim_idle c.kyber (omega arith) in
      kept_lem us ct ss (use_caches (encapsulates ct' ss') c)
        (rw idle (get-put_other ct ct' ss' c.kyber other ∙ held)) avoids
        (rw idle (omega (arith, length-put ct' ss' c.kyber)))
  kept_lem (signs padding message sk ∷ us) ct ss c held avoids room =
      let idle = trim_idle c.kyber (omega arith) in
      kept_lem us ct ss (use_caches (signs padding message sk) c) (rw idle held) avoids
        (rw idle (omega arith))

  decap_found :
      (ct ss secret_key : Bytes) (c : Caches)
      → cache_get ct c.kyber ≡ some ss
      → decap sha256 hmac_sha512 ct secret_key c ≡ ss
  unfolding decap
  decap_found ct ss secret_key c held = rw held refl

  encap-get :
      (ct ss : Bytes) (c : Caches)
      → cache_get ct (encap sha256 hmac_sha512 ct ss c).1.kyber ≡ some ss
  unfolding encap
  encap-get ct ss c = get-put_self ct ss (cache_cleanup c).kyber

  encap-room :
      (ct ss : Bytes) (us : List Use) (c : Caches)
      → length c.kyber + length us ≤ 10000
      → length (encap sha256 hmac_sha512 ct ss c).1.kyber + length us ≤ 10001
  unfolding encap cache_cleanup
  encap-room ct ss us c room =
      rw (trim_idle c.kyber (omega arith)) (omega (arith, length-put ct ss c.kyber))

  -- The simulated key exchange agrees: after an encapsulation, and after further uses that do not draw
  -- the same ciphertext and are so few that the cache stays within 10,000 entries before each, whoever
  -- decapsulates the ciphertext gets the encapsulated secret.
  pub decap-encap :
      (ct ss secret_key : Bytes) (us : List Use) (c : Caches)
      → length c.kyber + length us ≤ 10000
      → Avoids ct us
      → decap sha256 hmac_sha512 ct secret_key (use_all us (encap sha256 hmac_sha512 ct ss c).1)
        ≡ ss
  decap-encap ct ss secret_key us c room avoids =
      let later = use_all us (encap sha256 hmac_sha512 ct ss c).1 in
      decap_found ct ss secret_key later (
        kept_lem us ct ss (encap sha256 hmac_sha512 ct ss c).1 (encap-get ct ss c) avoids
          (encap-room ct ss us c room))
