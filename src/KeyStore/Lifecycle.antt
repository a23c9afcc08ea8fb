-- ===== src/KeyStore/Lifecycle.antt =====
-- `KeyLifecycle` of key_store/lifecycle.py. Times are microseconds; the time of a call is an argument.
use qu_mail.Prelude.{
  ℕ, String, Bool, List, Option, true, false, ltb, ◌∷◌, length, [], none, ◌+◌, if◌then◌else◌, some,
  ◌*◌,
}
use qu_mail.Dict.{Dict, insert, lookup, erase}

pub data KeyState : Type 0 where
  provisioned reserved used consumed expired zeroized : KeyState

pub record LifecycleEntry : Type 0 where
  pub key_id : String
  pub key_type : String
  pub state : KeyState
  pub created_at : ℕ
  pub reserved_at : Option ℕ
  pub used_at : Option ℕ
  pub consumed_at : Option ℕ
  pub expires_at : Option ℕ

abbrev pub KeyLifecycle : Type 0
KeyLifecycle = Dict LifecycleEntry

unfoldable pub track : ℕ → String → String → KeyLifecycle → KeyLifecycle
track now key_id key_type s =
    insert key_id
      (record {
        key_id = key_id;
        key_type = key_type;
        state = provisioned;
        created_at = now;
        reserved_at = none;
        used_at = none;
        consumed_at = none;
        expires_at = none;
      })
      s

-- `state in (PROVISIONED,)`
abbrev pub can_reserve : KeyState → Bool
can_reserve provisioned = true
can_reserve _ = false

-- `state in (RESERVED, PROVISIONED)`
abbrev pub can_use : KeyState → Bool
can_use provisioned = true
can_use reserved = true
can_use _ = false

abbrev pub is_state_consumed : KeyState → Bool
is_state_consumed consumed = true
is_state_consumed _ = false

-- `state not in (CONSUMED, ZEROIZED, EXPIRED)`
abbrev pub can_consume : KeyState → Bool
can_consume consumed = false
can_consume zeroized = false
can_consume expired = false
can_consume _ = true

unfoldable pub reserve : ℕ → String → KeyLifecycle → Bool × KeyLifecycle
reserve now key_id s = elim (lookup key_id s) [
  | none ↦ (false, s)
  | some e ↦
      if can_reserve e.state
      then (true, insert key_id (record e { state = reserved; reserved_at = some now }) s)
      else (false, s)
]

unfoldable pub mark_used : ℕ → String → KeyLifecycle → Bool × KeyLifecycle
mark_used now key_id s = elim (lookup key_id s) [
  | none ↦ (false, s)
  | some e ↦
      if can_use e.state
      then (true, insert key_id (record e { state = used; used_at = some now }) s)
      else (false, s)
]

unfoldable pub mark_consumed : ℕ → String → KeyLifecycle → Bool × KeyLifecycle
mark_consumed now key_id s = elim (lookup key_id s) [
  | none ↦ (false, s)
  | some e ↦
      if is_state_consumed e.state
      then (false, s)
      else (true, insert key_id (record e { state = consumed; consumed_at = some now }) s)
]

unfoldable pub is_consumable : String → KeyLifecycle → Bool
is_consumable key_id s = elim (lookup key_id s) [ none ↦ true | some e ↦ can_consume e.state ]

unfoldable pub is_consumed : String → KeyLifecycle → Bool
is_consumed key_id s = elim (lookup key_id s) [ none ↦ false | some e ↦ is_state_consumed e.state ]

unfoldable pub mark_zeroized : String → KeyLifecycle → KeyLifecycle
mark_zeroized key_id s = elim (lookup key_id s) [
  | none ↦ s
  | some e ↦ insert key_id (record e { state = zeroized }) s
]

unfoldable get_state : String → KeyLifecycle → Option KeyState
get_state key_id s = elim (lookup key_id s) [ none ↦ none | some e ↦ some e.state ]

-- `age > max_age_seconds`, of an entry made no later than now
abbrev pub too_old : ℕ → ℕ → LifecycleEntry → Bool
too_old now max_age_seconds e = ltb (e.created_at + max_age_seconds * 1000000) now

old_entries : ℕ → ℕ → KeyLifecycle → List String
old_entries now max_age_seconds [] = []
old_entries now max_age_seconds ((k, e) ∷ d) =
    let rest = old_entries now max_age_seconds d in
    if too_old now max_age_seconds e then k ∷ rest else rest

erase_all : List String → KeyLifecycle → KeyLifecycle
erase_all [] s = s
erase_all (k ∷ ks) s = erase_all ks (erase k s)

unfoldable pub cleanup_expired : ℕ → ℕ → KeyLifecycle → ℕ × KeyLifecycle
unfolding old_entries erase_all
cleanup_expired now max_age_seconds s =
    let expired = old_entries now max_age_seconds s in (length expired, erase_all expired s)
