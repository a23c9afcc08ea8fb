-- ===== src/KeyManager/Pool/PadBytes.antt =====
-- The bytes that the pool hands out as one-time pads.
use qu_mail.Dict.{insert}
use qu_mail.Result.{ok}
use qu_mail.Prelude.{
  ℕ, zero, suc, String, Bool-cases, str_eq, ◌<◌, Bytes, ◌≡◌, ◌++◌, take, drop, ltb, arith, subst,
  true, sym, length, [], ◌∙◌, false, ◌+◌, inl, max, length-take, ◌*◌, length-drop, inr, refl,
}
use qu_mail.Crypto.Otp.{IsBytes}
use qu_mail.KeyManager.KeyEntry.{KeyEntry, Codec}
use qu_mail.KeyManager.Pool.{
  Pool, RandomSource, bind_ok, persist, ◌>>◌, bump, Bytes, ◌∷◌, ok, length, insert,
}
use qu_mail.KeyManager.Pool.Invariant.{IsValid, draw-pos, otp_material_lem, replenish_otp_lem}
use qu_mail.KeyManager.Pool.Preservation.{allocate_key-IsValid}
use qu_mail.KeyManager.Pool.Methods.{
  replenish_otp, cut_otp, enter_key, allocate_key, otp_type, new_entry,
}
use qu_mail.KeyManager.Pool.Allocation.{allocated_otp, allocated_aes, enter_key-Enters}

pub append-IsBytes : (xs ys : Bytes) → IsBytes xs → IsBytes ys → IsBytes (xs ++ ys)
append-IsBytes [] ys h g = g
append-IsBytes (x ∷ xs) ys h g = (h.0, append-IsBytes xs ys h.1 g)

take-IsBytes : (n : ℕ) (xs : Bytes) → IsBytes xs → IsBytes (take n xs)
take-IsBytes (suc n) (x ∷ xs) h = (h.0, take-IsBytes n xs h.1)
take-IsBytes (suc n) [] h = tt
take-IsBytes _ _ h = tt

drop-IsBytes : (n : ℕ) (xs : Bytes) → IsBytes xs → IsBytes (drop n xs)
drop-IsBytes (suc n) (x ∷ xs) h = drop-IsBytes n xs h.1
drop-IsBytes (suc n) [] h = tt
drop-IsBytes zero xs h = h

module _ (codec : Codec) (src : RandomSource) (drawn : (n : ℕ) → IsBytes (src.some_bytes n)) where
  replenish-IsBytes :
      (size : ℕ) (p : Pool)
      → IsBytes p.otp_pool
      → IsBytes (replenish_otp codec src size p).1.otp_pool
  unfolding replenish_otp persist
  replenish-IsBytes size p h = elim (Bool-cases (ltb (length p.otp_pool) (p.otp_offset + size))) [
    | inl short ↦
        (let n = max (size * 2) 10240 in
          rw short (
            rw (draw-pos src n (omega arith))
              (append-IsBytes p.otp_pool (src.some_bytes n) h (drawn n))))
    | inr enough ↦ rw enough h
  ]

  cut-pool : (size : ℕ) (p : Pool) → (cut_otp codec size p).1.otp_pool ≡ p.otp_pool
  unfolding cut_otp bump
  cut-pool size p = ground arith

  otp_material-IsBytes :
      (size : ℕ) (p : Pool)
      → IsValid p
      → IsBytes p.otp_pool
      → IsBytes ((replenish_otp codec src size >> cut_otp codec size) p).1.otp_pool
  otp_material-IsBytes size p v h =
      let (more, store, e, fits) = replenish_otp_lem codec src size p v in
      let p' : Pool = record p { otp_pool = p.otp_pool ++ more; persistent_store = store } in
      subst (λ x. IsBytes x.1.otp_pool)
        (sym (bind_ok (replenish_otp codec src size) (λ _. cut_otp codec size) {p = p} e))
        (subst IsBytes (sym (cut-pool size p'))
          (subst (λ x. IsBytes x.1.otp_pool) e (replenish-IsBytes size p h)))

  module _ (uuid : String) (now : ℕ) (peer : String) (size : ℕ) (kind user : String) (p : Pool)
      (v : IsValid p) (h : IsBytes p.otp_pool) where
    allocate_key-IsBytes :
        str_eq kind otp_type ≡ true
        → IsBytes (allocate_key codec src uuid now peer size kind user p).1.otp_pool
    unfolding allocate_key
    allocate_key-IsBytes otp =
        let (more, q, e, same, moved, keys, fits, valid) = otp_material_lem codec src size p v in
        let (q', e', (same', _, _)) =
          enter_key-Enters codec
            (new_entry uuid now peer kind user (take size (drop p.otp_offset (p.otp_pool ++ more))))
            q valid in
        rw otp (
          subst (λ x. IsBytes x.1.otp_pool)
            (sym (
              bind_ok (replenish_otp codec src size >> cut_otp codec size)
                (λ b. enter_key codec (new_entry uuid now peer kind user b)) e
              ∙ e'))
            (subst IsBytes (sym same')
              (subst (λ x. IsBytes x.1.otp_pool) e (otp_material-IsBytes size p v h))))

    -- The pool stays valid and one of bytes, and so is the key that it enters under the new id.
    pub allocated_lem :
        0 < size
        → (e : KeyEntry) × (q : Pool) × (allocate_key codec src uuid now peer size kind user p
            ≡ (ok e, q))
          × (length e.key_material ≡ size)
          × IsBytes e.key_material
          × (e.key_id ≡ uuid)
          × (e.consumed ≡ false)
          × (q.allocated_keys ≡ insert uuid e p.allocated_keys)
          × IsValid q
          × IsBytes q.otp_pool
    allocated_lem positive =
        let valid = allocate_key-IsValid codec src uuid now peer size kind user p v in
        elim (Bool-cases (str_eq kind otp_type)) [
          | inl otp ↦
              (let (more, q, e, pool, moved, fits, keys) =
                  allocated_otp codec src uuid now peer size kind user p v otp in
                let bytes : IsBytes q.otp_pool =
                  subst (λ x. IsBytes x.1.otp_pool) e (allocate_key-IsBytes otp) in
                (
                  _,
                  q,
                  e,
                  omega (
                    arith,
                    length-take size (drop p.otp_offset (p.otp_pool ++ more)),
                    length-drop p.otp_offset (p.otp_pool ++ more),
                    fits,
                  ),
                  take-IsBytes size _ (drop-IsBytes p.otp_offset _ (subst IsBytes pool bytes)),
                  refl,
                  refl,
                  keys,
                  rw e at valid,
                  bytes,
                ))
          | inr other ↦
              (let (q, e, (pool, moved, keys)) =
                  allocated_aes codec src uuid now peer size kind user p v other
                    (draw-pos src size positive) in
                (
                  _,
                  q,
                  e,
                  src.length-some_bytes size,
                  drawn size,
                  refl,
                  refl,
                  keys,
                  rw e at valid,
                  subst IsBytes (sym pool) h,
                ))
        ]
