-- ===== src/KeyManager/Pool/Pads.antt =====
-- The OTP bytes that a sequence of calls hands out.
use qu_mail.Prelude.Int.{pos, ℤ}
use qu_mail.Dict.{Dict, lookup}
use qu_mail.Result.{Result, Result-cases}
use qu_mail.Prelude.{
  ℕ, String, Bytes, Bool-cases, if◌then◌else◌, List, ◌≡◌, [], str_eq, ◌∙◌, ◌++◌, refl, arith, sym,
  inl, ◌+◌, append-nil, take, length, drop, length-take, length-drop, inr, Option-cases, subst,
  false, ap, true, append_assoc, length-append, ◌≤◌, ap₂, segment-append, take-append_self,
}
use qu_mail.KeyManager.KeyEntry.{KeyEntry, Codec}
use qu_mail.KeyManager.Pool.{
  Pool, RandomSource, persist, release, Result, List, [], Dict, ok, ◌∷◌, err, log, length, pos,
  Outcome, ℤ, ap,
}
use qu_mail.KeyManager.Pool.Methods.{
  allocate_key, add_otp_material, add_aes_keys, otp_type, new_entry,
}
use qu_mail.KeyManager.Pool.Maintenance.{cleanup_expired, release_all, expired_keys}
use qu_mail.KeyManager.Pool.Invariant.{IsValid}
use qu_mail.KeyManager.Pool.Preservation.{
  known_lem, injected_lem, consumed_lem, refused_lem, provisioned_lem, unprovisioned_lem,
  absent_lem, deleted_lem, nothing_lem,
}
use qu_mail.KeyManager.Pool.Allocation.{allocated_otp, allocated_aes, allocation_failed}
use qu_mail.KeyManager.Pool.Runs.{Call, step, run, step-IsValid, run-IsValid}

-- The bytes of a key that a call returned.
abbrev handed : Result KeyEntry → Bytes
handed (ok e) = e.key_material
handed (err _) = []

module _ (codec : Codec) where
  -- The OTP bytes that a call hands out.
  pad_given : Call → Pool → Bytes
  pad_given (Call.allocate src uuid now peer size kind user) p =
      if str_eq kind otp_type
      then handed (allocate_key codec src uuid now peer size kind user p).0
      else []
  pad_given _ p = []

  pub pads_given : List Call → Pool → Bytes
  pads_given [] p = []
  pads_given (c ∷ cs) p = pad_given c p ++ pads_given cs (step codec c p)

-- From `p` to `q` bytes may be added at the end of the OTP pool, and `pad` is the segment that the
-- offset moves over.
pub record Cuts (pad : Bytes) (p q : Pool) : Type 0 where
  pub more : Bytes
  pub pool : q.otp_pool ≡ p.otp_pool ++ more
  pub moved : q.otp_offset ≡ p.otp_offset + length pad
  pub cut : pad ≡ take (length pad) (drop p.otp_offset q.otp_pool)

Cuts-none :
    (p q : Pool) (more : Bytes)
    → q.otp_pool ≡ p.otp_pool ++ more
    → q.otp_offset ≡ p.otp_offset
    → Cuts [] p q
Cuts-none p q more e f = record { more = more; pool = e; moved = omega arith; cut = refl }

Cuts-same : (p q : Pool) → q.otp_pool ≡ p.otp_pool → q.otp_offset ≡ p.otp_offset → Cuts [] p q
Cuts-same p q e f = Cuts-none p q [] (e ∙ sym (append-nil p.otp_pool)) f

Cuts-refl : (p : Pool) → Cuts [] p p
Cuts-refl p = Cuts-same p p refl refl

release_all-pool :
    (d : Dict KeyEntry) (p : Pool)
    → ((release_all d p).otp_pool ≡ p.otp_pool) × ((release_all d p).otp_offset ≡ p.otp_offset)
unfolding release_all
release_all-pool [] p = (refl, refl)
release_all-pool ((k, e) ∷ d) p = release_all-pool d (log "EXPIRE" k (release k e p))

Cuts-append :
    (pad pads : Bytes) (p q r : Pool)
    → Cuts pad p q
    → Cuts pads q r
    → p.otp_offset + length pad ≤ length q.otp_pool
    → Cuts (pad ++ pads) p r
Cuts-append pad pads p q r a b fits = record {
  more = a.more ++ b.more;
  pool = b.pool ∙ ap (λ bs. bs ++ b.more) a.pool ∙ append_assoc p.otp_pool a.more b.more;
  moved = omega (arith, length-append pad pads, a.moved, b.moved);
  cut =
      ap₂ ◌++◌ a.cut (b.cut ∙ ap₂ (λ o bs. take (length pads) (drop o bs)) a.moved b.pool)
      ∙ segment-append p.otp_offset (length pad) (length pads) q.otp_pool b.more fits
      ∙ ap₂ (λ n bs. take n (drop p.otp_offset bs)) (sym (length-append pad pads)) (sym b.pool);
}

-- The same, through an outcome that is known.
Cuts-ok :
    (p q : Pool) (e : KeyEntry) (x : Outcome KeyEntry)
    → x ≡ (ok e, q)
    → Cuts e.key_material p q
    → Cuts (handed x.0) p x.1
Cuts-ok p q e x eq h = subst (λ y. Cuts (handed y.0) p y.1) (sym eq) h

Cuts-at :
    {A : Type 0} (p q : Pool) (r : Result A) (x : Outcome A)
    → x ≡ (r, q)
    → Cuts [] p q
    → Cuts [] p x.1
Cuts-at p q r x eq h = subst (λ y. Cuts [] p y.1) (sym eq) h

module _ (codec : Codec) where
  allocate-Cuts :
      (src : RandomSource) (uuid : String) (now : ℕ) (peer : String) (size : ℕ) (kind user : String)
      (p : Pool)
      → IsValid p
      → let c = Call.allocate src uuid now peer size kind user in
        Cuts (pad_given codec c p) p (step codec c p)
  unfolding pad_given step
  allocate-Cuts src uuid now peer size kind user p v =
      let x = allocate_key codec src uuid now peer size kind user p in
      elim (Bool-cases (str_eq kind otp_type)) [
        | inl otp ↦
            (let (more, q, e, pool, moved, fits, keys) =
                allocated_otp codec src uuid now peer size kind user p v otp in
              let bs = take size (drop p.otp_offset (p.otp_pool ++ more)) in
              let n : length bs ≡ size = omega (
                arith,
                length-take size (drop p.otp_offset (p.otp_pool ++ more)),
                length-drop p.otp_offset (p.otp_pool ++ more),
              ) in
              rw otp (
                Cuts-ok p q (new_entry uuid now peer kind user bs) x e
                  (record { more = more; pool = pool; moved = rw n moved; cut = rw n (rw pool) })))
        | inr other ↦ rw other (elim (Result-cases (src.draw (pos size))) [
          | inl (bs, drawn) ↦
              (let (q, e, (pool, moved, keys)) =
                  allocated_aes codec src uuid now peer size kind user p v other drawn in
                Cuts-at p q (ok (new_entry uuid now peer kind user bs)) x e
                  (Cuts-same p q pool moved))
          | inr (err_kind, failed) ↦
              (let (q, e, pool, moved, keys) =
                  allocation_failed codec src uuid now peer size kind user p v other failed in
                Cuts-at p q (err err_kind) x e (Cuts-same p q pool moved))
        ])
      ]

  provision_otp-Cuts :
      (src : RandomSource) (n : ℤ) (p : Pool) → Cuts [] p (add_otp_material codec src n p).1
  unfolding persist
  provision_otp-Cuts src n p = elim (Result-cases (src.draw n)) [
    | inl (bs, drawn) ↦
        Cuts-at p _ (ok tt) _ (provisioned_lem codec src n bs p drawn) (Cuts-none p _ bs refl refl)
    | inr (e, failed) ↦
        Cuts-at p p (err e) _ (unprovisioned_lem codec src n e p failed) (Cuts-refl p)
  ]

  cleanup-Cuts : (now : ℕ) (p : Pool) → Cuts [] p (cleanup_expired codec now p).1
  unfolding cleanup_expired persist
  cleanup-Cuts now p =
      persist_if (expired_keys now p.allocated_keys)
        (release_all (expired_keys now p.allocated_keys) p)
        (let (pool, moved) = release_all-pool (expired_keys now p.allocated_keys) p in
          Cuts-same p _ pool moved)
    where
      persist_if :
          (d : Dict KeyEntry) (q : Pool)
          → Cuts [] p q
          → Cuts [] p (elim d [ [] ↦ q | e ∷ es ↦ persist codec q ])
      persist_if [] q h = h
      persist_if (x ∷ xs) q h = record {
        more = h.more;
        pool = h.pool;
        moved = h.moved;
        cut = h.cut;
      }

  step-Cuts : (c : Call) (p : Pool) → IsValid p → Cuts (pad_given codec c p) p (step codec c p)
  unfolding step pad_given persist release add_aes_keys
  step-Cuts (Call.allocate src uuid now peer size kind user) p v =
      allocate-Cuts src uuid now peer size kind user p v
  step-Cuts (Call.inject entry) p v = elim (Option-cases (lookup entry.key_id p.allocated_keys)) [
    | inr (e, held) ↦ Cuts-at p p (ok tt) _ (known_lem codec entry e p held) (Cuts-refl p)
    | inl missing ↦
        Cuts-at p _ (ok tt) _ (injected_lem codec entry p v missing) (Cuts-same p _ refl refl)
  ]
  step-Cuts (Call.consume now k) p v = elim (Option-cases (lookup k p.allocated_keys)) [
    | inl missing ↦ Cuts-at p p (ok false) _ (absent_lem codec now k p missing) (Cuts-refl p)
    | inr (e, held) ↦ elim (Bool-cases e.consumed) [
      | inl used ↦ Cuts-at p p (ok false) _ (refused_lem codec now k e p held used) (Cuts-refl p)
      | inr fresh ↦
          Cuts-at p _ (ok true) _ (consumed_lem codec now k e p v held fresh)
            (Cuts-same p _ refl refl)
    ]
  ]
  step-Cuts (Call.delete k) p v = elim (Option-cases (lookup k p.allocated_keys)) [
    | inl missing ↦ Cuts-at p p (ok false) _ (nothing_lem codec k p missing) (Cuts-refl p)
    | inr (e, held) ↦
        Cuts-at p _ (ok true) _ (deleted_lem codec k e p held) (Cuts-same p _ refl refl)
  ]
  step-Cuts (Call.provision_otp src n) p v = provision_otp-Cuts src n p
  step-Cuts (Call.provision_aes n) p v = Cuts-same p _ refl refl
  step-Cuts (Call.cleanup now) p v = cleanup-Cuts now p

  pads_given-Cuts :
      (cs : List Call) (p : Pool) → IsValid p → Cuts (pads_given codec cs p) p (run codec cs p)
  unfolding pads_given run
  pads_given-Cuts [] p v = Cuts-refl p
  pads_given-Cuts (c ∷ cs) p v =
      let q = step codec c p in
      let first = step-Cuts c p v in
      let w = step-IsValid codec c p v in
      let rest = pads_given-Cuts cs q w in
      let pad = pad_given codec c p in
      let pads = pads_given codec cs q in
      Cuts-append pad pads p q (run codec cs q) first rest
        (omega (arith, first.moved, w.offset_in_pool))

  -- No OTP byte is handed out twice. From a valid pool, the OTP bytes that any sequence of calls hands
  -- out, one after the other, are one segment of the final pool: it begins at the first offset and ends
  -- at the last, which lies in the pool; and the pool only ever grew at its end.
  pub pads_given_once :
      (cs : List Call) (p : Pool)
      → IsValid p
      → let q = run codec cs p in
        let pads = pads_given codec cs p in
        (pads ≡ take (length pads) (drop p.otp_offset q.otp_pool))
        × (q.otp_offset ≡ p.otp_offset + length pads)
        × (q.otp_offset ≤ length q.otp_pool)
        × (take (length p.otp_pool) q.otp_pool ≡ p.otp_pool)
  pads_given_once cs p v =
      let c = pads_given-Cuts cs p v in
      (
        c.cut,
        c.moved,
        (run-IsValid codec cs p v).offset_in_pool,
        rw c.pool (take-append_self (length p.otp_pool) p.otp_pool c.more refl),
      )
