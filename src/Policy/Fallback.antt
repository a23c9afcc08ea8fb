-- ===== src/Policy/Fallback.antt =====
-- policy_engine/fallback.py
use qu_mail.Prelude.{
  ℕ, String, Bool, List, Option, false, ◌∷◌, ltb, none, [], ◌==◌, some, if◌then◌else◌, ◌||◌, ◌&&◌,
}
use qu_mail.Policy.Rules.{at_level}

-- The dict of a recipient, of which the policy reads the address and the supported levels.
pub record Capability : Type 0 where
  pub email : String
  pub supported_levels : Option (List ℕ)

-- `n in levels`
unfoldable pub member : ℕ → List ℕ → Bool
member n [] = false
member n (m ∷ ms) = (m == n) || member n ms

-- `cap.get("supported_levels", [4])`
abbrev pub supported : Capability → List ℕ
supported cap = elim cap.supported_levels [ none ↦ 4 ∷ [] | some ls ↦ ls ]

-- `levels & other`, of sets: the elements of the first that are in the second.
unfoldable pub intersect : List ℕ → List ℕ → List ℕ
unfolding member
intersect [] other = []
intersect (n ∷ ns) other =
    let rest = intersect ns other in if member n other then n ∷ rest else rest

-- `levels.discard(n)`
unfoldable pub discard : ℕ → List ℕ → List ℕ
discard n [] = []
discard n (m ∷ ms) = let rest = discard n ms in if m == n then rest else m ∷ rest

-- The loop over the recipients.
unfoldable pub common_levels : List ℕ → List Capability → List ℕ
unfolding intersect
common_levels levels [] = levels
common_levels levels (cap ∷ caps) = common_levels (intersect levels (supported cap)) caps

abbrev pub fallback_order : List (ℕ × List ℕ)
fallback_order =
    (1, 1 ∷ 2 ∷ 3 ∷ 4 ∷ []) ∷ (2, 2 ∷ 3 ∷ 4 ∷ []) ∷ (3, 3 ∷ 2 ∷ 4 ∷ []) ∷ (4, 4 ∷ []) ∷ []

-- The last loop: the first level that is common, or is 4.
unfoldable pub first_common : List ℕ → List ℕ → ℕ
unfolding member
first_common levels [] = 4
first_common levels (n ∷ ns) =
    let rest = first_common levels ns in if member n levels || (n == 4) then n else rest

abbrev pub order_of : ℕ → List ℕ
order_of level = elim (at_level level fallback_order) [ none ↦ level ∷ 4 ∷ [] | some order ↦ order ]

-- 4 is left out of the common levels, and chosen if nothing else is common.
unfoldable pub without_plain : List ℕ → List ℕ
unfolding member discard
without_plain levels = if member 4 levels then discard 4 levels else levels

unfoldable pub pick_from : ℕ → List ℕ → ℕ
unfolding first_common at_level
pick_from requested_level [] = 4
pick_from requested_level (l ∷ ls) = first_common (l ∷ ls) (order_of requested_level)

-- From the test for an empty set on.
unfoldable pub pick_level : ℕ → List ℕ → ℕ
unfolding without_plain pick_from
pick_level requested_level [] = 4
pick_level requested_level (l ∷ ls) = pick_from requested_level (without_plain (l ∷ ls))

unfoldable pub get_fallback_level : ℕ → List Capability → ℕ
unfolding common_levels pick_level
get_fallback_level requested_level [] = requested_level
get_fallback_level requested_level (c ∷ cs) =
    pick_level requested_level (common_levels (1 ∷ 2 ∷ 3 ∷ 4 ∷ []) (c ∷ cs))

unfoldable should_warn_downgrade : ℕ → ℕ → Bool
should_warn_downgrade original actual = ltb original actual || (ltb original 4 && (actual == 4))
