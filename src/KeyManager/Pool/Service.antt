-- ===== src/KeyManager/Pool/Service.antt =====
-- What the methods of the pool promise to a caller.
use qu_mail.Result.{ok}
use qu_mail.Prelude.{
  ℕ, String, ◌<◌, length, ◌≡◌, false, if◌then◌else◌, some, [], Bool-cases, arith, none, map, ◌∷◌,
  str_eq, Option-cases, ◌∙◌, inl, refl, length-take, inr, drop, eq_refl, sym, ◌++◌, length-drop, ap,
}
use qu_mail.Dict.{Dict, All, contains, lookup, lookup-erase, lookup-insert}
use qu_mail.KeyManager.KeyEntry.{KeyEntry, Codec}
use qu_mail.KeyManager.Pool.{
  Pool, RandomSource, log, persist, release, zeroize_key, length, ok, some, [], none, map, ap,
}
use qu_mail.KeyManager.Pool.Invariant.{IsValid, draw-pos}
use qu_mail.KeyManager.Pool.Preservation.{allocate_key-IsValid, deleted_lem, nothing_lem}
use qu_mail.KeyManager.Pool.Methods.{allocate_key, delete_key, otp_type}
use qu_mail.KeyManager.Pool.Allocation.{allocated_otp, allocated_aes}
use qu_mail.KeyManager.Pool.Maintenance.{
  get_key, is_expired, expired_keys, release_all, cleanup_expired, shutdown, zeroize_values,
}

-- The entry holds `size` bytes, is fresh, and `get_key` finds it.
abbrev pub Serves : String → ℕ → KeyEntry → Pool → Type 0
Serves uuid size e q =
    (length e.key_material ≡ size) × (e.consumed ≡ false) × (get_key uuid q ≡ (ok (some e), q))

module _ (codec : Codec) where
  -- On a valid pool, an allocation of a positive size succeeds, also where the pads left are fewer, since
  -- the pool is then replenished: the new key has exactly that many bytes, is not consumed, and is what
  -- `get_key` answers for its id, and the pool stays valid.
  pub allocate_key-get_key :
      (src : RandomSource) (uuid : String) (now : ℕ) (peer : String) (size : ℕ) (kind user : String)
      (p : Pool)
      → IsValid p
      → 0 < size
      → (e : KeyEntry) × (q : Pool) × (allocate_key codec src uuid now peer size kind user p
          ≡ (ok e, q))
        × Serves uuid size e q
        × IsValid q
  unfolding get_key
  allocate_key-get_key src uuid now peer size kind user p v positive =
      let valid = allocate_key-IsValid codec src uuid now peer size kind user p v in
      elim (Bool-cases (str_eq kind otp_type)) [
        | inl otp ↦
            (let (more, q, e, pool, moved, fits, keys) =
                allocated_otp codec src uuid now peer size kind user p v otp in
              (
                _,
                q,
                e,
                (
                  omega (
                    arith,
                    length-take size (drop p.otp_offset (p.otp_pool ++ more)),
                    length-drop p.otp_offset (p.otp_pool ++ more),
                    fits,
                  ),
                  refl,
                  rw keys (rw lookup-insert (rw eq_refl refl)),
                ),
                rw e at valid,
              ))
        | inr other ↦
            (let (q, e, (pool, moved, keys)) =
                allocated_aes codec src uuid now peer size kind user p v other
                  (draw-pos src size positive) in
              (
                _,
                q,
                e,
                (src.length-some_bytes size, refl, rw keys (rw lookup-insert (rw eq_refl refl))),
                rw e at valid,
              ))
      ]

  -- After a deletion, whether it found the key or not, `get_key` answers that there is none.
  pub delete_key-get_key :
      (key_id : String) (p : Pool) → (get_key key_id (delete_key codec key_id p).1).0 ≡ ok none
  unfolding get_key
  delete_key-get_key key_id p = elim (Option-cases (lookup key_id p.allocated_keys)) [
    | inl missing ↦ rw (nothing_lem codec key_id p missing) (rw missing)
    | inr (e, held) ↦
        rw (deleted_lem codec key_id e p held)
          (unfold persist release in rw lookup-erase (rw eq_refl refl))
  ]

release_all-lookup :
    (k : String) (es : Dict KeyEntry) (p : Pool)
    → lookup k (release_all es p).allocated_keys
      ≡ (if contains k es then none else lookup k p.allocated_keys)
unfolding release_all lookup
release_all-lookup k [] p = refl
release_all-lookup k ((j, e) ∷ es) p =
    release_all-lookup k es (log "EXPIRE" j (release j e p))
    ∙ (unfold release in rw lookup-erase (ground arith))

not_expired :
    (now : ℕ) (k : String) (e : KeyEntry) (d : Dict KeyEntry)
    → lookup k d ≡ some e
    → contains k (expired_keys now d) ≡ false
    → is_expired now e ≡ false
unfolding lookup expired_keys
not_expired now k e [] h n = absurd (ground arith)
not_expired now k e ((j, x) ∷ d) h n = ground (arith, not_expired now k e d)

module _ (codec : Codec) where
  persist_if-keys :
      (d : Dict KeyEntry) (q : Pool)
      → (elim d as (λ (d' : Dict KeyEntry). Pool) [
        | [] ↦ q
        | e ∷ es ↦ persist codec q
      ]).allocated_keys
        ≡ q.allocated_keys
  unfolding persist
  persist_if-keys [] q = refl
  persist_if-keys (x ∷ xs) q = refl

  cleanup-lookup :
      (now : ℕ) (k : String) (p : Pool)
      → lookup k (cleanup_expired codec now p).1.allocated_keys ≡ (
          if contains k (expired_keys now p.allocated_keys)
          then none
          else lookup k p.allocated_keys)
  unfolding cleanup_expired
  cleanup-lookup now k p =
      let expired = expired_keys now p.allocated_keys in
      ap (lookup k) (persist_if-keys expired (release_all expired p))
      ∙ release_all-lookup k expired p

  -- After a cleanup, a key that is still held is one that was held before and has not expired.
  pub cleanup_expired_lem :
      (now : ℕ) (key_id : String) (e : KeyEntry) (p : Pool)
      → lookup key_id (cleanup_expired codec now p).1.allocated_keys ≡ some e
      → (lookup key_id p.allocated_keys ≡ some e) × (is_expired now e ≡ false)
  cleanup_expired_lem now key_id e p h =
      elim (Bool-cases (contains key_id (expired_keys now p.allocated_keys))) [
        | inl gone ↦ absurd (ground (arith, cleanup-lookup now key_id p))
        | inr kept ↦
            (let held = rw kept at (sym (cleanup-lookup now key_id p) ∙ h) in
              (held, not_expired now key_id e p.allocated_keys held kept))
      ]

zeroize_values-All : (d : Dict KeyEntry) → All (λ e. e.key_material ≡ []) (zeroize_values d)
unfolding zeroize_values
zeroize_values-All [] = tt
zeroize_values-All ((k, e) ∷ d) = (unfold zeroize_key in refl, zeroize_values-All d)

module _ (codec : Codec) where
  -- After a shutdown every byte of the OTP pool is zero and no held key has key material left.
  pub shutdown_lem :
      (p : Pool)
      → (q : Pool) × (shutdown codec p ≡ (ok tt, q))
        × (q.otp_pool ≡ map (λ b. 0) p.otp_pool)
        × All (λ e. e.key_material ≡ []) q.allocated_keys
  unfolding shutdown persist
  shutdown_lem p = (_, refl, refl, zeroize_values-All p.allocated_keys)
