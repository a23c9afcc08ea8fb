-- ===== src/Policy/Laws.antt =====
-- Proofs about policy_engine/rules.py and policy_engine/fallback.py.
use qu_mail.Prelude.{
  ℕ, Bool, List, true, ◌&&◌, ◌≡◌, ◌∷◌, ◌≤◌, arith, ◌⊎◌, [], inl, refl, Bool-cases, ◌||◌, ◌==◌, inr,
  sym, ◌∙◌,
}
use qu_mail.Policy.Rules.{
  can_use_level, get_requirements, get_available_levels, at_level, sorted, insert_sorted,
}
use qu_mail.Policy.Fallback.{
  Capability, get_fallback_level, member, supported, intersect, discard, common_levels,
  first_common, pick_level, pick_from, without_plain, order_of,
}

-- Every recipient supports the level.
unfoldable pub supported_by_all : ℕ → List Capability → Bool
supported_by_all n [] = true
supported_by_all n (c ∷ cs) = member n (supported c) && supported_by_all n cs

&&-cases : (a b : Bool) → (a && b) ≡ true → (a ≡ true) × (b ≡ true)
&&-cases a b h = ground arith

member-intersect :
    (n : ℕ) (ls other : List ℕ) → member n (intersect ls other) ≡ (member n ls && member n other)
unfolding member intersect
member-intersect n [] other = refl
member-intersect n (l ∷ ls) other = ground (arith, member-intersect n ls other)

member-discard : (n m : ℕ) (ls : List ℕ) → member n (discard m ls) ≡ true → member n ls ≡ true
unfolding member discard
member-discard n m [] h = h
member-discard n m (l ∷ ls) h = ground (arith, member-discard n m ls)

member-common_levels :
    (n : ℕ) (ls : List ℕ) (cs : List Capability)
    → member n (common_levels ls cs) ≡ (member n ls && supported_by_all n cs)
unfolding common_levels supported_by_all
member-common_levels n ls [] = ground arith
member-common_levels n ls (c ∷ cs) = ground (
  arith,
  member-common_levels n (intersect ls (supported c)) cs,
  member-intersect n ls (supported c),
)

-- The loop answers with a common level, or 4.
member-first_common :
    (ls order : List ℕ) → (first_common ls order ≡ 4) ⊎ (member (first_common ls order) ls ≡ true)
unfolding first_common
member-first_common ls [] = inl refl
member-first_common ls (n ∷ ns) = elim (Bool-cases (member n ls || (n == 4))) [
  | inr skipped ↦ rw skipped (member-first_common ls ns)
  | inl chosen ↦
      rw chosen (elim (Bool-cases (member n ls)) [
        | inl there ↦ inr there
        | inr absent ↦ inl (ground arith)
      ])
]

pick_from_lem :
    (level : ℕ) (ls : List ℕ) → (pick_from level ls ≡ 4) ⊎ (member (pick_from level ls) ls ≡ true)
unfolding pick_from
pick_from_lem level [] = inl refl
pick_from_lem level (l ∷ ls) = member-first_common (l ∷ ls) (order_of level)

member-without_plain :
    (n : ℕ) (ls : List ℕ) → member n (without_plain ls) ≡ true → member n ls ≡ true
unfolding without_plain
member-without_plain n ls h = ground (arith, member-discard n 4 ls)

member-kept : (n : ℕ) (ls : List ℕ) → n ≤ 3 → member n ls ≡ true → member n (discard 4 ls) ≡ true
unfolding member discard
member-kept n [] high h = h
member-kept n (l ∷ ls) high h = ground (arith, member-kept n ls)

pick_level_lem :
    (level : ℕ) (common : List ℕ)
    → (pick_level level common ≡ 4) ⊎ (member (pick_level level common) common ≡ true)
unfolding pick_level
pick_level_lem level [] = inl refl
pick_level_lem level (l ∷ ls) = elim (pick_from_lem level (without_plain (l ∷ ls))) [
  | inl four ↦ inl four
  | inr there ↦ inr (member-without_plain _ (l ∷ ls) there)
]

-- The level that a fallback chooses for one recipient or more is 4 or is supported by all of them.
pub get_fallback_level-IsSupported :
    (level : ℕ) (c : Capability) (cs : List Capability)
    → (get_fallback_level level (c ∷ cs) ≡ 4)
      ⊎ (supported_by_all (get_fallback_level level (c ∷ cs)) (c ∷ cs) ≡ true)
unfolding get_fallback_level
get_fallback_level-IsSupported level c cs =
    let common = common_levels (1 ∷ 2 ∷ 3 ∷ 4 ∷ []) (c ∷ cs) in
    elim (pick_level_lem level common) [
      | inl four ↦ inl four
      | inr there ↦
          inr
            (&&-cases _ _ (
              sym (member-common_levels (pick_level level common) (1 ∷ 2 ∷ 3 ∷ 4 ∷ []) (c ∷ cs))
              ∙ there)).1
    ]

-- A level from 1 to 3 heads its own order.
pick_from-member :
    (level : ℕ) (ls : List ℕ)
    → 1 ≤ level
    → level ≤ 3
    → member level ls ≡ true
    → pick_from level ls ≡ level
unfolding pick_from first_common at_level
pick_from-member level [] low high h = absurd (unfold member in ground arith)
pick_from-member level (l ∷ ls) low high h = ground arith

pick_level-member :
    (level : ℕ) (common : List ℕ)
    → 1 ≤ level
    → level ≤ 3
    → member level common ≡ true
    → pick_level level common ≡ level
unfolding pick_level
pick_level-member level [] low high h = absurd (unfold member in ground arith)
pick_level-member level (l ∷ ls) low high h =
    pick_from-member level (without_plain (l ∷ ls)) low high
      (unfold without_plain in ground (arith, member-kept level (l ∷ ls)))

-- A level from 1 to 3 that every recipient supports is its own fallback.
pub get_fallback_level-supported :
    (level : ℕ) (caps : List Capability)
    → 1 ≤ level
    → level ≤ 3
    → supported_by_all level caps ≡ true
    → get_fallback_level level caps ≡ level
unfolding get_fallback_level
get_fallback_level-supported level [] low high h = refl
get_fallback_level-supported level (c ∷ cs) low high h =
    pick_level-member level (common_levels (1 ∷ 2 ∷ 3 ∷ 4 ∷ []) (c ∷ cs)) low high (
      member-common_levels level (1 ∷ 2 ∷ 3 ∷ 4 ∷ []) (c ∷ cs)
      ∙ rw h (unfold member in ground arith))

-- A message of at most 1 MiB may use a level exactly if that level is listed as available.
pub can_use_level-get_available_levels :
    (level : ℕ) (km_connected has_recipient_key : Bool) (message_size : ℕ)
    → message_size ≤ 1048576
    → (can_use_level level km_connected has_recipient_key message_size).0
      ≡ member level (get_available_levels km_connected has_recipient_key)
unfolding can_use_level get_requirements get_available_levels at_level member sorted insert_sorted
can_use_level-get_available_levels level km rk size h = elim (Bool-cases km) [
  | inl up ↦ elim (Bool-cases rk) [
    | inl key ↦ rw (up, key) (ground arith)
    | inr no_key ↦ rw (up, no_key) (ground arith)
  ]
  | inr down ↦ rw down (ground arith)
]
