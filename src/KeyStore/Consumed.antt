-- ===== src/KeyStore/Consumed.antt =====
-- Proofs about key_store/lifecycle.py as a state machine: its calls are the steps of a relation.
use qu_mail.Prelude.{
  ℕ, String, str_eq, ◌≡◌, false, if◌then◌else◌, Option-cases, arith, inl, inr, some, true, eq_iff,
  none, ap, ◌∙◌, Bool-cases, eq_refl, refl,
}
use qu_mail.Dict.{insert, lookup-insert, lookup}
use qu_mail.KeyStore.Lifecycle.{
  LifecycleEntry, KeyLifecycle, track, reserve, mark_used, mark_consumed, mark_zeroized,
  is_consumable, can_consume, is_state_consumed, zeroized, consumed, reserved, used, is_consumed,
}

-- One call of the tracker, other than a `track` or a `mark_zeroized` of the key and the cleanup.
pub data Step (key_id : String) : KeyLifecycle → KeyLifecycle → Type 0 where
  track_other :
      (now : ℕ) (j key_type : String) (s : KeyLifecycle)
      → str_eq j key_id ≡ false
      → Step key_id s (track now j key_type s)
  reserve_any : (now : ℕ) (j : String) (s : KeyLifecycle) → Step key_id s (reserve now j s).1
  use_any : (now : ℕ) (j : String) (s : KeyLifecycle) → Step key_id s (mark_used now j s).1
  consume_any : (now : ℕ) (j : String) (s : KeyLifecycle) → Step key_id s (mark_consumed now j s).1
  zeroize_other :
      (j : String) (s : KeyLifecycle) → str_eq j key_id ≡ false → Step key_id s (mark_zeroized j s)

-- A sequence of such calls.
pub data Steps (key_id : String) : KeyLifecycle → KeyLifecycle → Type 0 where
  done : (s : KeyLifecycle) → Steps key_id s s
  then_step : (s t u : KeyLifecycle) → Step key_id s t → Steps key_id t u → Steps key_id s u

is_consumable-insert :
    (k j : String) (e : LifecycleEntry) (s : KeyLifecycle)
    → is_consumable k (insert j e s)
      ≡ (if str_eq j k then can_consume e.state else is_consumable k s)
unfolding is_consumable
is_consumable-insert k j e s = ground (arith, lookup-insert j k e s)

absent_lem :
    (k : String) (now : ℕ) (s : KeyLifecycle)
    → lookup k s ≡ none
    → mark_consumed now k s ≡ (false, s)
unfolding mark_consumed
absent_lem k now s missing = ground arith

refused_lem :
    (k : String) (now : ℕ) (e : LifecycleEntry) (s : KeyLifecycle)
    → lookup k s ≡ some e
    → is_state_consumed e.state ≡ true
    → mark_consumed now k s ≡ (false, s)
unfolding mark_consumed
refused_lem k now e s held was = ground arith

marked_lem :
    (k : String) (now : ℕ) (e : LifecycleEntry) (s : KeyLifecycle)
    → lookup k s ≡ some e
    → is_state_consumed e.state ≡ false
    → mark_consumed now k s
      ≡ (true, insert k (record e { state = consumed; consumed_at = some now }) s)
unfolding mark_consumed
marked_lem k now e s held fresh = ground arith

insert_other :
    (k j : String) (x : LifecycleEntry) (s : KeyLifecycle)
    → str_eq j k ≡ false
    → lookup k (insert j x s) ≡ lookup k s
insert_other k j x s other = rw lookup-insert (rw other refl)

-- The entry of a consumed key, `held`, is left as it is by a call about `j`.
module _ (k : String) (e : LifecycleEntry) (now : ℕ) (j : String) (s : KeyLifecycle)
    (held : lookup k s ≡ some e) (spent : e.state ≡ consumed) where
  same_entry : str_eq j k ≡ true → lookup j s ≡ some e
  same_entry same = ap (λ i. lookup i s) ((eq_iff j k).0 same) ∙ held

  reserve-kept : lookup k (reserve now j s).1 ≡ some e
  unfolding reserve
  reserve-kept = elim (Bool-cases (str_eq j k)) [
    | inl same ↦ ground (arith, same_entry same)
    | inr other ↦ elim (Option-cases (lookup j s)) [
      | inl missing ↦ ground arith
      | inr (x, there) ↦
          ground (
            arith,
            insert_other k j (record x { state = reserved; reserved_at = some now }) s other,
          )
    ]
  ]

  mark_used-kept : lookup k (mark_used now j s).1 ≡ some e
  unfolding mark_used
  mark_used-kept = elim (Bool-cases (str_eq j k)) [
    | inl same ↦ ground (arith, same_entry same)
    | inr other ↦ elim (Option-cases (lookup j s)) [
      | inl missing ↦ ground arith
      | inr (x, there) ↦
          ground (arith, insert_other k j (record x { state = used; used_at = some now }) s other)
    ]
  ]

  mark_consumed-kept : lookup k (mark_consumed now j s).1 ≡ some e
  unfolding mark_consumed
  mark_consumed-kept = elim (Bool-cases (str_eq j k)) [
    | inl same ↦ ground (arith, same_entry same)
    | inr other ↦ elim (Option-cases (lookup j s)) [
      | inl missing ↦ ground arith
      | inr (x, there) ↦
          ground (
            arith,
            insert_other k j (record x { state = consumed; consumed_at = some now }) s other,
          )
    ]
  ]

  mark_zeroized-kept : str_eq j k ≡ false → lookup k (mark_zeroized j s) ≡ some e
  unfolding mark_zeroized
  mark_zeroized-kept other = elim (Option-cases (lookup j s)) [
    | inl missing ↦ ground arith
    | inr (x, there) ↦ ground (arith, insert_other k j (record x { state = zeroized }) s other)
  ]

Step-kept :
    (k : String) (e : LifecycleEntry) (s t : KeyLifecycle)
    → Step k s t
    → lookup k s ≡ some e
    → e.state ≡ consumed
    → lookup k t ≡ some e
unfolding track
Step-kept k e s _ (track_other now j key_type _ other) held spent =
    insert_other k j _ s other ∙ held
Step-kept k e s _ (reserve_any now j _) held spent = reserve-kept k e now j s held spent
Step-kept k e s _ (use_any now j _) held spent = mark_used-kept k e now j s held spent
Step-kept k e s _ (consume_any now j _) held spent = mark_consumed-kept k e now j s held spent
Step-kept k e s _ (zeroize_other j _ other) held spent =
    mark_zeroized-kept k e 0 j s held spent other

-- Once a key is consumed its entry is final: after any sequence of calls that neither track the key anew
-- nor zeroize it (and no cleanup) the tracker holds the same entry, with the time of the one consumption,
-- and another `mark_consumed` of the key is refused and changes nothing.
pub consumed_is_final :
    (k : String) (e : LifecycleEntry) (now : ℕ) (s t : KeyLifecycle)
    → Steps k s t
    → lookup k s ≡ some e
    → e.state ≡ consumed
    → (lookup k t ≡ some e) × (mark_consumed now k t ≡ (false, t))
consumed_is_final k e now s _ (done _) held spent =
    (held, refused_lem k now e s held (ap is_state_consumed spent))
consumed_is_final k e now s t (then_step _ u _ first rest) held spent =
    consumed_is_final k e now u t rest (Step-kept k e s u first held spent) spent

-- A second `mark_consumed` of a key, directly after a first, always fails.
pub mark_consumed-mark_consumed :
    (k : String) (now later : ℕ) (s : KeyLifecycle)
    → (mark_consumed later k (mark_consumed now k s).1).0 ≡ false
mark_consumed-mark_consumed k now later s = elim (Option-cases (lookup k s)) [
  | inl missing ↦ rw (absent_lem k now s missing) (rw (absent_lem k later s missing))
  | inr (e, held) ↦ elim (Bool-cases (is_state_consumed e.state)) [
    | inl was ↦ rw (refused_lem k now e s held was) (rw (refused_lem k later e s held was))
    | inr fresh ↦ rw (marked_lem k now e s held fresh) (
        rw (
          refused_lem k later (record e { state = consumed; consumed_at = some now })
            (insert k (record e { state = consumed; consumed_at = some now }) s)
            (rw lookup-insert (rw eq_refl refl)) refl))
  ]
]

-- A key that is consumed successfully is consumed and not consumable afterwards.
mark_consumed-is_consumed :
    (k : String) (now : ℕ) (s : KeyLifecycle)
    → (mark_consumed now k s).0 ≡ true
    → (is_consumed k (mark_consumed now k s).1 ≡ true)
      × (is_consumable k (mark_consumed now k s).1 ≡ false)
mark_consumed-is_consumed k now s h = elim (Option-cases (lookup k s)) [
  | inl missing ↦ absurd (ground (arith, absent_lem k now s missing))
  | inr (e, held) ↦ elim (Bool-cases (is_state_consumed e.state)) [
    | inl was ↦ absurd (ground (arith, refused_lem k now e s held was))
    | inr fresh ↦ rw (marked_lem k now e s held fresh) (
      (unfold is_consumed in
          ground (
            arith,
            eq_refl k,
            lookup-insert k k (record e { state = consumed; consumed_at = some now }) s,
          )),
      rw is_consumable-insert (rw eq_refl refl),
    )
  ]
]
