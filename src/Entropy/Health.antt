-- ===== src/Entropy/Health.antt =====
-- `EntropyPool.health_check` of backend/crypto_engine/quantum_sim.py. The sample has 256 bytes, so that
-- `expected` is 1.0 and the statistic is a sum of squares.
pub mod Laws
use qu_mail.Prelude.{
  ℕ, Bytes, if◌then◌else◌, Bool, ◌∷◌, leb, suc, ltb, ◌==◌, ◌-◌, ◌+◌, ◌*◌, [], zero,
}
use qu_mail.Prelude.Int.{pos}
use qu_mail.Result.{Result, ok, ◌>>=◌}
use qu_mail.Entropy.Sources.{Primitives}
use qu_mail.Entropy.Pool.{EntropyPool, extract}

-- `byte_counts[byte]` after the loop over the sample
pub count : ℕ → Bytes → ℕ
count byte [] = 0
count byte (b ∷ sample) = (if b == byte then 1 else 0) + count byte sample

-- `(count - expected) ** 2 / expected` at `expected` 1
unfoldable pub deviation : ℕ → ℕ
deviation n = (if leb 1 n then n - 1 else 1 - n) * (if leb 1 n then n - 1 else 1 - n)

-- The sum over the values below `values`.
unfoldable pub chi_squared : ℕ → Bytes → ℕ
chi_squared zero sample = 0
chi_squared (suc value) sample = chi_squared value sample + deviation (count value sample)

unfoldable pub health_check : Primitives → ℕ → EntropyPool → Result (Bool × EntropyPool)
health_check prims now p = extract prims (pos 256) p >>= λ (sample, q).
    let health_status = ltb (chi_squared 256 sample) 350 in
    ok (health_status, record q { health_status = health_status; last_health_check = now })
