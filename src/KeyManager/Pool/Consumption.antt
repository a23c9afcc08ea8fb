-- ===== src/KeyManager/Pool/Consumption.antt =====
-- One-time use: how often a key can be consumed in a sequence of calls.
use qu_mail.Prelude.Int.{pos}
use qu_mail.Dict.{Dict, lookup, erase, insert, lookup-erase, lookup-insert}
use qu_mail.Result.{Result, Result-cases}
use qu_mail.Prelude.{
  ℕ, String, str_eq, Bool, List, if◌then◌else◌, Option, false, ◌≡◌, true, subst, Bool-cases,
  Option-cases, ◌+◌, inl, sym, inr, eq_refl, eq_iff, ◌⊎◌, arith, ◌≤◌, [], none, refl,
}
use qu_mail.KeyManager.KeyEntry.{KeyEntry, Codec}
use qu_mail.KeyManager.Pool.{
  Pool, RandomSource, persist, release, log, Outcome, Bool, List, Result, Option, Dict, ◌∷◌, ok,
  some, err, pos,
}
use qu_mail.KeyManager.Pool.Methods.{
  allocate_key, inject_key, consume_key, delete_key, add_aes_keys, otp_type,
}
use qu_mail.KeyManager.Pool.Maintenance.{cleanup_expired, release_all, expired_keys}
use qu_mail.KeyManager.Pool.Invariant.{IsValid}
use qu_mail.KeyManager.Pool.Preservation.{
  known_lem, injected_lem, consumed_lem, refused_lem, absent_lem, deleted_lem, nothing_lem,
  provisioned_lem, unprovisioned_lem,
}
use qu_mail.KeyManager.Pool.Allocation.{allocated_otp, allocated_aes, allocation_failed}
use qu_mail.KeyManager.Pool.Runs.{Call, step, step-IsValid}

-- The call would enter a key under this id: a UUID drawn twice, or a peer that reuses the id.
abbrev pub creates : String → Call → Bool
creates k (Call.allocate src uuid now peer size kind user) = str_eq uuid k
creates k (Call.inject entry) = str_eq entry.key_id k
creates k _ = false

abbrev pub NoneCreates : String → List Call → Type 0
NoneCreates k [] = Unit
NoneCreates k (c ∷ cs) = (creates k c ≡ false) × NoneCreates k cs

abbrev succeeded : Result Bool → ℕ
succeeded (ok true) = 1
succeeded (ok false) = 0
succeeded (err _) = 0

module _ (codec : Codec) where
  -- How many of the calls consume the key and report success.
  abbrev consumes : String → Call → Pool → ℕ
  consumes k (Call.consume now j) p =
      if str_eq j k then succeeded (consume_key codec now j p).0 else 0
  consumes k _ p = 0

  pub times_consumed : String → List Call → Pool → ℕ
  times_consumed k [] p = 0
  times_consumed k (c ∷ cs) p = consumes k c p + times_consumed k cs (step codec c p)

-- The key is gone or consumed.
abbrev SpentIn : Option KeyEntry → Type 0
SpentIn none = Unit
SpentIn (some e) = e.consumed ≡ true

record Spent (k : String) (d : Dict KeyEntry) : Type 0 where
  spent : SpentIn (lookup k d)

Spent-insert_ne :
    (k j : String) (e : KeyEntry) (d : Dict KeyEntry)
    → str_eq j k ≡ false
    → Spent k d
    → Spent k (insert j e d)
Spent-insert_ne k j e d ne h = record { spent = rw lookup-insert (rw ne h.spent) }

Spent-erase : (k j : String) (d : Dict KeyEntry) → Spent k d → Spent k (erase j d)
Spent-erase k j d h = record {
  spent =
      rw lookup-erase
        (elim (Bool-cases (str_eq j k)) [ inl same ↦ rw same tt | inr other ↦ rw other h.spent ]);
}

Spent-consumed :
    (k : String) (e : KeyEntry) (d : Dict KeyEntry) → e.consumed ≡ true → Spent k (insert k e d)
Spent-consumed k e d used = record { spent = rw lookup-insert (rw eq_refl used) }

release_all-Spent :
    (k : String) (es : Dict KeyEntry) (p : Pool)
    → Spent k p.allocated_keys
    → Spent k (release_all es p).allocated_keys
unfolding release_all
release_all-Spent k [] p h = h
release_all-Spent k ((j, e) ∷ es) p h =
    release_all-Spent k es (log "EXPIRE" j (release j e p))
      (unfold release in Spent-erase k j p.allocated_keys h)

Spent-at :
    {A : Type 0} (k : String) (q : Pool) (r : Result A) (x : Outcome A)
    → x ≡ (r, q)
    → Spent k q.allocated_keys
    → Spent k x.1.allocated_keys
Spent-at k q r x e h = subst (λ y. Spent k y.1.allocated_keys) (sym e) h

module _ (codec : Codec) (k : String) where
  allocate-Spent :
      (src : RandomSource) (uuid : String) (now : ℕ) (peer : String) (size : ℕ) (kind user : String)
      (p : Pool)
      → IsValid p
      → str_eq uuid k ≡ false
      → Spent k p.allocated_keys
      → Spent k (allocate_key codec src uuid now peer size kind user p).1.allocated_keys
  allocate-Spent src uuid now peer size kind user p v ne h =
      elim (Bool-cases (str_eq kind otp_type)) [
        | inl otp ↦
            (let (more, q, e, pool, moved, fits, keys) =
                allocated_otp codec src uuid now peer size kind user p v otp in
              Spent-at k q _ _ e (rw keys (Spent-insert_ne k uuid _ p.allocated_keys ne h)))
        | inr other ↦ elim (Result-cases (src.draw (pos size))) [
          | inl (bs, drawn) ↦
              (let (q, e, (pool, moved, keys)) =
                  allocated_aes codec src uuid now peer size kind user p v other drawn in
                Spent-at k q _ _ e (rw keys (Spent-insert_ne k uuid _ p.allocated_keys ne h)))
          | inr (x, failed) ↦
              (let (q, e, pool, moved, keys) =
                  allocation_failed codec src uuid now peer size kind user p v other failed in
                Spent-at k q _ _ e (rw keys h))
        ]
      ]

  inject-Spent :
      (entry : KeyEntry) (p : Pool)
      → IsValid p
      → str_eq entry.key_id k ≡ false
      → Spent k p.allocated_keys
      → Spent k (inject_key codec entry p).1.allocated_keys
  unfolding persist
  inject-Spent entry p v ne h = elim (Option-cases (lookup entry.key_id p.allocated_keys)) [
    | inr (e, held) ↦ Spent-at k p (ok tt) _ (known_lem codec entry e p held) h
    | inl missing ↦
        Spent-at k _ (ok tt) _ (injected_lem codec entry p v missing)
          (Spent-insert_ne k entry.key_id entry p.allocated_keys ne h)
  ]

  consume-Spent :
      (now : ℕ) (j : String) (p : Pool)
      → IsValid p
      → Spent k p.allocated_keys
      → Spent k (consume_key codec now j p).1.allocated_keys
  unfolding persist
  consume-Spent now j p v h = elim (Option-cases (lookup j p.allocated_keys)) [
    | inl missing ↦ Spent-at k p (ok false) _ (absent_lem codec now j p missing) h
    | inr (e, held) ↦ elim (Bool-cases e.consumed) [
      | inl used ↦ Spent-at k p (ok false) _ (refused_lem codec now j e p held used) h
      | inr fresh ↦
          Spent-at k _ (ok true) _ (consumed_lem codec now j e p v held fresh)
            (elim (Bool-cases (str_eq j k)) [
              | inr other ↦ Spent-insert_ne k j _ p.allocated_keys other h
              | inl same ↦ rw ((eq_iff j k).0 same) (Spent-consumed k _ p.allocated_keys refl)
            ])
    ]
  ]

  delete-Spent :
      (j : String) (p : Pool)
      → Spent k p.allocated_keys
      → Spent k (delete_key codec j p).1.allocated_keys
  unfolding persist release
  delete-Spent j p h = elim (Option-cases (lookup j p.allocated_keys)) [
    | inl missing ↦ Spent-at k p (ok false) _ (nothing_lem codec j p missing) h
    | inr (e, held) ↦
        Spent-at k _ (ok true) _ (deleted_lem codec j e p held) (Spent-erase k j p.allocated_keys h)
  ]

  cleanup-Spent :
      (now : ℕ) (p : Pool)
      → Spent k p.allocated_keys
      → Spent k (cleanup_expired codec now p).1.allocated_keys
  unfolding cleanup_expired persist
  cleanup-Spent now p h =
      persist_if (expired_keys now p.allocated_keys)
        (release_all (expired_keys now p.allocated_keys) p)
        (release_all-Spent k (expired_keys now p.allocated_keys) p h)
    where
      persist_if :
          (d : Dict KeyEntry) (q : Pool)
          → Spent k q.allocated_keys
          → Spent k
              (elim d as (λ (d' : Dict KeyEntry). Pool) [
                | [] ↦ q
                | e ∷ es ↦ persist codec q
              ]).allocated_keys
      persist_if [] q s = s
      persist_if (x ∷ xs) q s = s

  step-Spent :
      (c : Call) (p : Pool)
      → IsValid p
      → creates k c ≡ false
      → Spent k p.allocated_keys
      → Spent k (step codec c p).allocated_keys
  unfolding step persist add_aes_keys
  step-Spent (Call.allocate src uuid now peer size kind user) p v ne h =
      allocate-Spent src uuid now peer size kind user p v ne h
  step-Spent (Call.inject entry) p v ne h = inject-Spent entry p v ne h
  step-Spent (Call.consume now j) p v ne h = consume-Spent now j p v h
  step-Spent (Call.delete j) p v ne h = delete-Spent j p h
  step-Spent (Call.provision_otp src n) p v ne h = elim (Result-cases (src.draw n)) [
    | inl (bs, drawn) ↦ Spent-at k _ (ok tt) _ (provisioned_lem codec src n bs p drawn) h
    | inr (e, failed) ↦ Spent-at k p (err e) _ (unprovisioned_lem codec src n e p failed) h
  ]
  step-Spent (Call.provision_aes n) p v ne h = h
  step-Spent (Call.cleanup now) p v ne h = cleanup-Spent now p h

  -- A spent key is not consumed.
  Spent-refused :
      (now : ℕ) (p : Pool) → Spent k p.allocated_keys → (consume_key codec now k p).0 ≡ ok false
  Spent-refused now p h = elim (Option-cases (lookup k p.allocated_keys)) [
    | inl missing ↦ rw (absent_lem codec now k p missing)
    | inr (e, held) ↦ rw (refused_lem codec now k e p held (rw held at h.spent))
  ]

  -- A call that consumes the key leaves it spent, and no call counts twice.
  consumes-Spent :
      (c : Call) (p : Pool)
      → IsValid p
      → (consumes codec k c p ≡ 0)
        ⊎ ((consumes codec k c p ≡ 1) × Spent k (step codec c p).allocated_keys)
  unfolding step persist
  consumes-Spent (Call.consume now j) p v = elim (Bool-cases (str_eq j k)) [
    | inr other ↦ inl (rw other)
    | inl same ↦ elim (Option-cases (lookup j p.allocated_keys)) [
      | inl missing ↦ inl (rw same (rw (absent_lem codec now j p missing)))
      | inr (e, held) ↦ elim (Bool-cases e.consumed) [
        | inl used ↦ inl (rw same (rw (refused_lem codec now j e p held used)))
        | inr fresh ↦ inr (
          rw same (rw (consumed_lem codec now j e p v held fresh)),
          Spent-at k _ (ok true) _ (consumed_lem codec now j e p v held fresh)
              (rw ((eq_iff j k).0 same) (Spent-consumed k _ p.allocated_keys refl)),
        )
      ]
    ]
  ]
  consumes-Spent (Call.allocate src uuid now peer size kind user) p v = inl refl
  consumes-Spent (Call.inject entry) p v = inl refl
  consumes-Spent (Call.delete j) p v = inl refl
  consumes-Spent (Call.provision_otp src n) p v = inl refl
  consumes-Spent (Call.provision_aes n) p v = inl refl
  consumes-Spent (Call.cleanup now) p v = inl refl

  Spent-consumes : (c : Call) (p : Pool) → Spent k p.allocated_keys → consumes codec k c p ≡ 0
  Spent-consumes (Call.consume now j) p h = elim (Bool-cases (str_eq j k)) [
    | inr other ↦ rw other
    | inl same ↦ rw same (rw ((eq_iff j k).0 same) (rw (Spent-refused now p h)))
  ]
  Spent-consumes (Call.allocate src uuid now peer size kind user) p h = refl
  Spent-consumes (Call.inject entry) p h = refl
  Spent-consumes (Call.delete j) p h = refl
  Spent-consumes (Call.provision_otp src n) p h = refl
  Spent-consumes (Call.provision_aes n) p h = refl
  Spent-consumes (Call.cleanup now) p h = refl

  never_again :
      (cs : List Call) (p : Pool)
      → IsValid p
      → NoneCreates k cs
      → Spent k p.allocated_keys
      → times_consumed codec k cs p ≡ 0
  unfolding times_consumed
  never_again [] p v n h = refl
  never_again (c ∷ cs) p v n h = omega (
    arith,
    Spent-consumes c p h,
    never_again cs (step codec c p) (step-IsValid codec c p v) n.1 (step-Spent c p v n.0 h),
  )

  -- One-time use. From a valid pool, a sequence of calls in which no call enters a key under the id `k`
  -- consumes the key `k` successfully at most once.
  pub consumed_at_most_once :
      (cs : List Call) (p : Pool) → IsValid p → NoneCreates k cs → times_consumed codec k cs p ≤ 1
  unfolding times_consumed
  consumed_at_most_once [] p v n = omega arith
  consumed_at_most_once (c ∷ cs) p v n =
      let w = step-IsValid codec c p v in
      elim (consumes-Spent c p v) [
        | inl nothing ↦ omega (arith, nothing, consumed_at_most_once cs (step codec c p) w n.1)
        | inr (once, spent) ↦ omega (arith, once, never_again cs (step codec c p) w n.1 spent)
      ]
