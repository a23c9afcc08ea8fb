-- ===== src/Entropy/Process.antt =====
-- The module-level functions of backend/crypto_engine/quantum_sim.py, and those of
-- backend/crypto_engine/secure_random.py on top of them. `secrets.token_hex`, UUIDs and `os.urandom` are
-- outside.
use qu_mail.Prelude.{
  none, ℕ, Bool, some, Bytes, String, Option, List, suc, if◌then◌else◌, take_text, ◌∷◌, true, ◌+◌,
  zero, [], ◌/◌,
}
use qu_mail.Prelude.Int.{ℤ, pos, negsuc}
use qu_mail.Result.{Result, ok, err, value_error, ◌>>=◌}
use qu_mail.Entropy.Sources.{Primitives, Draws, Windows}
use qu_mail.Entropy.Pool.{reseed}
use qu_mail.Entropy.Csprng.{Generator, new_generator, generate, reseed_csprng}
use qu_mail.Entropy.Health

-- The globals: `_use_quantum_sim` of one module, `_entropy_pool` and `_csprng` of the other.
pub record Process : Type 0 where
  pub use_quantum_sim : Bool
  pub generator : Option Generator

abbrev pub with_generator : Process → Generator → Process
with_generator s g = record { use_quantum_sim = s.use_quantum_sim; generator = some g }

module _ (prims : Primitives) where
  -- `_ensure_initialized`, with what an initialization would draw
  -- A call that raises may have made the generator, as the next call would.
  unfoldable pub ensure_initialized : Draws → Process → Result Generator
  ensure_initialized d s = elim s.generator [ some g ↦ ok g | none ↦ new_generator prims d ]

  unfoldable pub generate_quantum_bytes : Draws → ℤ → Process → Result (Bytes × Process)
  generate_quantum_bytes d size s = ensure_initialized d s >>= λ g.
      generate prims size g >>= λ (output, h). ok (output, with_generator s h)

  -- `generate_quantum_key`, with `secrets.token_hex(16)`
  unfoldable pub generate_quantum_key :
      Draws → String → ℤ → Process → Result (Bytes × String × Process)
  generate_quantum_key d token size s =
      generate_quantum_bytes d size s >>= λ (key_material, t). ok (key_material, token, t)

  unfoldable pub check_health : Draws → ℕ → Process → Result (Bool × Process)
  check_health d now s = ensure_initialized d s >>= λ g.
      Health.health_check prims now g.entropy_pool >>= λ (healthy, p).
      ok (healthy, with_generator s (record g { entropy_pool = p }))

  unfoldable pub force_reseed : Draws → Bytes → Windows → List ℕ → Process → Result Process
  force_reseed d os_random w nanoseconds s = ensure_initialized d s >>= λ g.
      reseed prims os_random w nanoseconds g.entropy_pool >>= λ p.
      reseed_csprng prims p >>= λ h. ok (with_generator s h)

  -- `secure_random_bytes`, with what `os.urandom` would give
  unfoldable pub secure_random_bytes : Draws → (ℕ → Bytes) → ℤ → Process → Result (Bytes × Process)
  secure_random_bytes d urandom (negsuc n) s = err value_error
  secure_random_bytes d urandom (pos zero) s = err value_error
  secure_random_bytes d urandom (pos (suc n)) s =
      if s.use_quantum_sim
      then generate_quantum_bytes d (pos (suc n)) s
      else ok (urandom (suc n), s)

  unfoldable pub generate_encryption_key :
      Draws → (ℕ → Bytes) → String → String → ℕ → Process → Result (Bytes × String × Process)
  generate_encryption_key d urandom token uuid size s =
      if s.use_quantum_sim
      then generate_quantum_key d token (pos size) s
      else ok (urandom size, uuid, s)

  unfoldable pub check_entropy_health : Draws → ℕ → Process → Result (Bool × Process)
  check_entropy_health d now s = if s.use_quantum_sim then check_health d now s else ok (true, s)

  unfoldable pub request_reseed : Draws → Bytes → Windows → List ℕ → Process → Result Process
  request_reseed d os_random w nanoseconds s =
      if s.use_quantum_sim then force_reseed d os_random w nanoseconds s else ok s

-- `secure_random_hex`, over `secrets.token_hex`
unfoldable pub secure_random_hex : (ℕ → String) → ℕ → String
secure_random_hex token_hex size = take_text size (token_hex ((size + 1) / 2))

-- `zeroize`: every byte of the buffer is set to 0.
unfoldable pub zeroize : Bytes → Bytes
zeroize [] = []
zeroize (b ∷ bs) = 0 ∷ zeroize bs
