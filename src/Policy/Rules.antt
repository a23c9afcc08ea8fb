-- ===== src/Policy/Rules.antt =====
-- policy_engine/rules.py. A level is a natural number: a negative one is looked up in the same tables
-- and compared in the same tests as 0, and is found in none.
use qu_mail.Prelude.{
  ℕ, String, Bool, List, Option, true, ◌∷◌, false, none, some, if◌then◌else◌, [], ◌*◌, ◌==◌, not,
  ◌&&◌, ltb, ◌++◌,
}

pub record LevelRequirements : Type 0 where
  pub level : ℕ
  pub name : String
  pub requires_km : Bool
  pub requires_recipient_key : Bool
  pub max_message_size : Option ℕ
  pub description : String

-- `LEVEL_REQUIREMENTS`
abbrev level_requirements : List (ℕ × LevelRequirements)
level_requirements =
    (
      1,
      record {
        level = 1;
        name = "Quantum Secure OTP";
        requires_km = true;
        requires_recipient_key = false;
        max_message_size = some (1024 * 1024);
        description = "One-Time Pad with QKD keys";
      },
    )
    ∷ (
      2,
      record {
        level = 2;
        name = "Quantum-Aided AES";
        requires_km = true;
        requires_recipient_key = false;
        max_message_size = none;
        description = "AES-256-GCM with QKD-derived keys";
      },
    )
    ∷ (
      3,
      record {
        level = 3;
        name = "Post-Quantum Crypto";
        requires_km = true;
        requires_recipient_key = true;
        max_message_size = none;
        description = "Kyber + Dilithium hybrid encryption";
      },
    )
    ∷ (
      4,
      record {
        level = 4;
        name = "No Security";
        requires_km = false;
        requires_recipient_key = false;
        max_message_size = none;
        description = "Plain text email";
      },
    )
    ∷ []

-- `d.get(n)` on a dict with integer keys
unfoldable pub at_level {ℓ} : {A : Type ℓ} → ℕ → List (ℕ × A) → Option A
at_level n [] = none
at_level n ((m, a) ∷ rest) = if m == n then some a else at_level n rest

unfoldable pub get_requirements : ℕ → Option LevelRequirements
get_requirements level = at_level level level_requirements

-- The second half of the answer of `can_use_level`.
pub data Refusal : Type 0 where
  invalid_level : ℕ → Refusal
  not_connected no_recipient_key : Refusal
  too_large : ℕ → ℕ → Refusal

-- `req.max_message_size and message_size > req.max_message_size`
abbrev exceeds : Option ℕ → ℕ → Bool
exceeds none n = false
exceeds (some m) n = not (m == 0) && ltb m n

abbrev or_zero : Option ℕ → ℕ
or_zero none = 0
or_zero (some n) = n

unfoldable pub can_use_level : ℕ → Bool → Bool → ℕ → Bool × Option Refusal
unfolding get_requirements at_level
can_use_level level km_connected has_recipient_key message_size = elim (get_requirements level) [
  | none ↦ (false, some (invalid_level level))
  | some req ↦
      if req.requires_km && not km_connected
      then (false, some not_connected)
      else if req.requires_recipient_key && not has_recipient_key
      then (false, some no_recipient_key)
      else if exceeds req.max_message_size message_size
      then (false, some (too_large level (or_zero req.max_message_size)))
      else (true, none)
]

-- `sorted`
unfoldable pub insert_sorted : ℕ → List ℕ → List ℕ
insert_sorted n [] = n ∷ []
insert_sorted n (m ∷ ms) = let rest = insert_sorted n ms in if ltb n m then n ∷ m ∷ ms else m ∷ rest

unfoldable pub sorted : List ℕ → List ℕ
unfolding insert_sorted
sorted [] = []
sorted (n ∷ ns) = insert_sorted n (sorted ns)

unfoldable pub get_available_levels : Bool → Bool → List ℕ
unfolding sorted
get_available_levels km_connected has_recipient_key =
    let available = 4 ∷ [] in
    sorted (
      if km_connected
      then available ++ 2 ∷ 1 ∷ (if has_recipient_key then 3 ∷ [] else [])
      else available)
