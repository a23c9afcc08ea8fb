-- ===== src/Entropy/Health/Laws.antt =====
-- What a passed health check of backend/crypto_engine/quantum_sim.py says of the sample.
use qu_mail.Prelude.{
  ltb→lt, ltb→le, Bool-cases, inl, inr, ℕ, zero, suc, ◌<◌, Bytes, Bool, ◌≤◌, ◌≡◌, arith, true, ltb,
  refl, ◌*◌, ◌-◌,
}
use native.Mathlib.Nat.{mul-le-mul}
use qu_mail.Result.{ok}
use qu_mail.Entropy.Sources.{Primitives}
use qu_mail.Entropy.Pool.{EntropyPool}
use qu_mail.Entropy.Stream.{squeezed, taken_from, extract_lem}
use qu_mail.Entropy.Health.{count, deviation, chi_squared, health_check, Bytes, Bool, ltb}

deviation-le :
    (values value : ℕ) (sample : Bytes)
    → value < values
    → deviation (count value sample) ≤ chi_squared values sample
unfolding chi_squared
deviation-le zero value sample h = absurd (omega arith)
deviation-le (suc values) value sample h = elim (Bool-cases (ltb value values)) [
  | inl earlier ↦ omega (arith, deviation-le values value sample (ground arith))
  | inr last ↦
      (let same : value ≡ values = omega (arith, ltb→le value values last) in rw same (omega arith))
]

count-le-of_deviation : (n : ℕ) → deviation n < 350 → n ≤ 19
unfolding deviation
count-le-of_deviation n h = elim (Bool-cases (ltb 19 n)) [
  | inl many ↦
      (let large : 20 ≤ n = ground arith in
        let square : 19 * 19 ≤ (n - 1) * (n - 1) =
          mul-le-mul {n₁ = 19} {m₁ = 19} (omega arith) (omega arith) in
        absurd (ground arith))
  | inr few ↦ ltb→le 19 n few
]

module _ (prims : Primitives) (now : ℕ) (p : EntropyPool) where
  -- The check always ends with an answer, and the pool remembers it and its time. An answer that the pool
  -- is healthy means that in the sample of 256 bytes no byte value stands more than 19 times.
  pub health_check_lem :
      (h : Bool) × (q : EntropyPool) × (health_check prims now p ≡ ok (h, q))
      × (q.health_status ≡ h)
      × (q.last_health_check ≡ now)
      × ((value : ℕ) → value < 256 → h ≡ true → count value (squeezed prims 256 p.pool) ≤ 19)
  unfolding health_check
  health_check_lem =
      let (made, len, kept, z, negative) = extract_lem prims p 256 in
      (
        ltb (chi_squared 256 (squeezed prims 256 p.pool)) 350,
        record (taken_from prims 256 p) {
          health_status = ltb (chi_squared 256 (squeezed prims 256 p.pool)) 350;
          last_health_check = now;
        },
        rw (made (omega arith)) refl,
        refl,
        refl,
        (λ value below healthy. count-le-of_deviation _ (
            omega (
              arith,
              deviation-le 256 value (squeezed prims 256 p.pool) below,
              ltb→lt _ 350 healthy,
            ))),
      )
