-- ===== src/Entropy/Csprng.antt =====
-- ChaCha20CSPRNG of backend/crypto_engine/quantum_sim.py, with the pool that it draws its seeds from.
use qu_mail.Prelude.{ℕ, Bytes, ◌*◌, if◌then◌else◌, ◌+◌, take, replicate, ◌++◌, leb, suc, drop, zero}
use qu_mail.Prelude.Int.{ℤ, pos, negsuc}
use qu_mail.Result.{Result, ok, err, value_error, ◌>>=◌}
use qu_mail.Entropy.Fill.{le_bytes, filled}
use qu_mail.Entropy.Sources.{Primitives, Draws}
use qu_mail.Entropy.Pool.{EntropyPool, extract, or_fuel, new_pool}

pub record Csprng : Type 0 where
  pub key : Bytes
  pub nonce : Bytes
  pub counter : ℕ
  pub bytes_generated : ℕ

-- `_reseed_threshold`
abbrev pub reseed_threshold : ℕ
reseed_threshold = 64 * 1024

-- The two objects of the module, `_entropy_pool` and `_csprng`.
pub record Generator : Type 0 where
  pub entropy_pool : EntropyPool
  pub csprng : Csprng

-- The key is the first 32 bytes of the seed, the nonce the next 16.
abbrev pub seeded : Bytes → Csprng
seeded seed_material = record {
  key = take 32 seed_material;
  nonce = take 16 (drop 32 seed_material);
  counter = 0;
  bytes_generated = 0;
}

-- `self._bytes_generated += size` and `self._counter += 1`
abbrev pub counted : ℕ → Generator → Generator
counted size g = record {
  entropy_pool = g.entropy_pool;
  csprng = record {
    key = g.csprng.key;
    nonce = g.csprng.nonce;
    counter = g.csprng.counter + 1;
    bytes_generated = g.csprng.bytes_generated + size;
  };
}

module _ (prims : Primitives) where
  -- `_reseed`, which sets every field
  unfoldable pub reseed_csprng : EntropyPool → Result Generator
  reseed_csprng p = extract prims (pos 64) p >>= λ (seed_material, q).
      ok (record { entropy_pool = q; csprng = seeded seed_material })

  -- `ChaCha20CSPRNG(EntropyPool())`
  unfoldable pub new_generator : Draws → Result Generator
  new_generator d = new_pool prims d >>= reseed_csprng

  unfoldable pub generate_chacha20 : Csprng → ℕ → Bytes
  generate_chacha20 c size = prims.chacha20 c.key c.nonce (replicate size 0)

  unfoldable pub fallback_block : Csprng → ℕ → Bytes
  fallback_block c counter = prims.blake2b (c.key ++ (c.nonce ++ le_bytes 8 counter))

  unfoldable pub generate_fallback : Csprng → ℕ → Result Bytes
  generate_fallback c size =
      or_fuel (filled 64 (fallback_block c) (λ counter. counter + 1) size c.counter)
      >>= λ (output, counter). ok output

  unfoldable pub output_of : Csprng → ℕ → Result Bytes
  output_of c size =
      if prims.has_cryptography then ok (generate_chacha20 c size) else generate_fallback c size

  -- `if self._bytes_generated >= self._reseed_threshold: self._reseed()`
  unfoldable pub fresh : Generator → Result Generator
  fresh g =
      if leb reseed_threshold g.csprng.bytes_generated then reseed_csprng g.entropy_pool else ok g

  unfoldable pub generate : ℤ → Generator → Result (Bytes × Generator)
  generate (negsuc n) g = err value_error
  generate (pos zero) g = err value_error
  generate (pos (suc n)) g =
      fresh g >>= λ h. output_of h.csprng (suc n) >>= λ output. ok (output, counted (suc n) h)
