-- ===== src/KeyStore/Tests/CharCode.antt =====
-- Texts as numbers and back, for a codec.
use qu_mail.Dict.{Dict}
use Prim.Native.Char.{Char, char, code, IsScalar}
use Prim.Native.Nat.{compare, Ordering, suc}
use text.Mathlib.TextEquality.{Char-path}
use qu_mail.Prelude.{
  ℕ, String, ◌≡◌, ◌⊎◌, Bytes, inl, ◌∷◌, [], ap, Option, some, inr, ◌∙◌, refl, zero,
}

Ordering-cases : (o : Ordering) → (o ≡ Ordering.lt) ⊎ (o ≡ Ordering.eq) ⊎ (o ≡ Ordering.gt)
Ordering-cases Ordering.lt = inl refl
Ordering-cases Ordering.eq = inr (inl refl)
Ordering-cases Ordering.gt = inr (inr refl)

IsScalar-cases : (n : ℕ) → IsScalar n ⊎ (IsScalar n → ⊥)
IsScalar-cases n = elim (Ordering-cases (compare n 55296)) [
  | inl low ↦ inl (rw low tt)
  | inr rest ↦ elim (Ordering-cases (compare 57343 n)) [
    | inl mid ↦ elim (Ordering-cases (compare n 1114112)) [
      | inl top ↦ elim rest [
        | inl a ↦ inl (rw (a, mid, top) tt)
        | inr a ↦ inl (rw (a, mid, top) tt)
      ]
      | inr past ↦ inr (λ p. elim rest [
        | inl a ↦ elim past [ inl b ↦ rw (a, mid, b) at p | inr b ↦ rw (a, mid, b) at p ]
        | inr a ↦ elim past [ inl b ↦ rw (a, mid, b) at p | inr b ↦ rw (a, mid, b) at p ]
      ])
    ]
    | inr below ↦ inr (λ p. elim rest [
      | inl a ↦ elim below [ inl b ↦ rw (a, b) at p | inr b ↦ rw (a, b) at p ]
      | inr a ↦ elim below [ inl b ↦ rw (a, b) at p | inr b ↦ rw (a, b) at p ]
    ])
  ]
]

abbrev of_scalar : (n : ℕ) → IsScalar n ⊎ (IsScalar n → ⊥) → Char
of_scalar n (inl p) = char n p
of_scalar n (inr q) = char 0 tt

of_scalar_lem :
    (c : Char) (d : IsScalar (code c) ⊎ (IsScalar (code c) → ⊥)) → of_scalar (code c) d ≡ c
of_scalar_lem (char n p) (inl q) = Char-path (char n q) (char n p) refl
of_scalar_lem (char n p) (inr q) = absurd (q p)

pub to_char : ℕ → Char
to_char n = of_scalar n (IsScalar-cases n)

pub to_char-code : (c : Char) → to_char (code c) ≡ c
unfolding to_char
to_char-code c = of_scalar_lem c (IsScalar-cases (code c))

abbrev Partial : Type 0
Partial = String × Bytes × Dict Bytes

-- A pair of a tag and a number: a character of a key, a byte of a value, or the start of an entry.
abbrev add : ℕ → ℕ → Partial → Partial
add zero x (k, v, d) = (String.◌∷◌ (to_char x) k, v, d)
add (suc zero) x (k, v, d) = (k, x ∷ v, d)
add (suc (suc n)) x (k, v, d) = (String.[], [], (k, v) ∷ d)

abbrev parse : Bytes → Partial
parse [] = (String.[], [], [])
parse (t ∷ []) = (String.[], [], [])
parse (t ∷ x ∷ xs) = add t x (parse xs)

abbrev key_then : String → Bytes → Bytes
key_then String.[] xs = xs
key_then (String.◌∷◌ c k) xs = 0 ∷ code c ∷ key_then k xs

abbrev value_then : Bytes → Bytes → Bytes
value_then [] xs = xs
value_then (b ∷ bs) xs = 1 ∷ b ∷ value_then bs xs

abbrev pub print : Dict Bytes → Bytes
print [] = []
print ((k, v) ∷ d) = 2 ∷ 0 ∷ key_then k (value_then v (print d))

value_parsed :
    (v xs : Bytes) (d : Dict Bytes)
    → parse xs ≡ (String.[], [], d)
    → parse (value_then v xs) ≡ (String.[], v, d)
value_parsed [] xs d h = h
value_parsed (b ∷ bs) xs d h = ap (add 1 b) (value_parsed bs xs d h)

key_parsed :
    (k : String) (v xs : Bytes) (d : Dict Bytes)
    → parse xs ≡ (String.[], v, d)
    → parse (key_then k xs) ≡ (k, v, d)
key_parsed String.[] v xs d h = h
key_parsed (String.◌∷◌ c k) v xs d h =
    ap (add 0 (code c)) (key_parsed k v xs d h) ∙ ap (λ a. (String.◌∷◌ a k, v, d)) (to_char-code c)

parsed : (d : Dict Bytes) → parse (print d) ≡ (String.[], [], d)
parsed [] = refl
parsed ((k, v) ∷ d) =
    ap (add 2 0) (key_parsed k v (value_then v (print d)) d (value_parsed v (print d) d (parsed d)))

abbrev pub scan : Bytes → Option (Dict Bytes)
scan xs = some (parse xs).2

pub scan-print : (d : Dict Bytes) → scan (print d) ≡ some d
scan-print d = ap (λ (p : Partial). some p.2) (parsed d)
