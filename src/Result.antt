-- ===== src/Result.antt =====
-- What a call gives back: a value, or the Python exception that it raises.
use qu_mail.Prelude.{Bool, true, false, ◌≡◌, refl, ◌⊎◌, inl, inr}

-- The exception classes that the modelled code raises or lets through.
pub data Error : Type 0 where
  value_error type_error key_error attribute_error index_error runtime_error : Error
  invalid_tag signature_error : Error
  key_request_error key_not_found key_exhausted : Error
  http_error : Error

pub data Result {ℓ} (A : Type ℓ) : Type ℓ where
  ok : A → Result A
  err : Error → Result A

pub Result-cases {ℓ} :
    {A : Type ℓ} (r : Result A) → ((a : A) × (r ≡ ok a)) ⊎ ((e : Error) × (r ≡ err e))
Result-cases (ok a) = inl (a, refl)
Result-cases (err e) = inr (e, refl)

-- What follows a call runs on its value; an exception is passed on.
infixl 5 ◌>>=◌ ◌>>◌
abbrev pub ◌>>=◌ {ℓ κ} : {A : Type ℓ} {B : Type κ} → Result A → (A → Result B) → Result B
err x >>= next = err x
ok a >>= next = next a

-- `if c: raise e`
abbrev pub raise_if : Bool → Error → Result (Unit {0})
raise_if false x = ok tt
raise_if true x = err x

abbrev pub ◌>>◌ {ℓ} : {B : Type ℓ} → Result (Unit {0}) → Result B → Result B
first >> second = first >>= λ _. second
