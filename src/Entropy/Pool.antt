-- ===== src/Entropy/Pool.antt =====
-- EntropyPool of backend/crypto_engine/quantum_sim.py. Its lock admits one call at a time.
use qu_mail.Prelude.{
  ℕ, Bytes, List, Option, take, String, ◌∷◌, some, ◌++◌, ◌+◌, suc, none, Bool, if◌then◌else◌, [],
  bit_xor, replicate, ◌%◌, ◌-◌, zero, length, map, true,
}
use qu_mail.Prelude.Int.{ℤ, pos, negsuc}
use qu_mail.Result.{Result, ok, err, value_error, runtime_error, ◌>>=◌}
use qu_mail.Entropy.Fill.{le_bytes, filled}
use qu_mail.Entropy.Sources.{
  Primitives, Windows, Draws, windows_cng_entropy, timing_entropy, byte_at,
}

-- ENTROPY_POOL_SIZE
abbrev pub pool_size : ℕ
pool_size = 256

pub record EntropyPool : Type 0 where
  pub pool : Bytes
  pub bytes_since_reseed : ℕ
  pub total_bytes_generated : ℕ
  pub reseed_count : ℕ
  pub sources_available : List String
  pub last_health_check : ℕ
  pub health_status : Bool

-- `entropy_sources`, a name and the bytes, where the interface of Windows gave some.
abbrev pub cng_source : Draws → List (String × Bytes)
cng_source d = if d.dev_mode then [] else elim (windows_cng_entropy d.windows 64) [
  | none ↦ []
  | some bs ↦ elim bs [ [] ↦ [] | b ∷ more ↦ ("windows_cng", b ∷ more) ∷ [] ]
]

abbrev pub token_source : Option Bytes → List (String × Bytes)
token_source none = []
token_source (some bs) = ("secrets_module", bs) ∷ []

unfoldable pub entropy_sources : Draws → List (String × Bytes)
entropy_sources d =
    ("os_urandom", d.os_random)
    ∷ (cng_source d
        ++ (("timing_jitter", timing_entropy 32 d.nanoseconds) ∷ token_source d.token_bytes))

-- `b"".join(data for _, data in sources)`
unfoldable pub join : List (String × Bytes) → Bytes
join [] = []
join ((name, bs) ∷ more) = bs ++ join more

-- `self._pool[i] ^= block[32 + (i % 32)]`, from index `i` on
unfoldable pub stir : Bytes → ℕ → Bytes → Bytes
stir block i [] = []
stir block i (p ∷ pool) = bit_xor p (byte_at (32 + i % 32) block) ∷ stir block (i + 1) pool

-- `if cng: new_entropy.append(cng)`
abbrev pub new_cng : Windows → Bytes
new_cng w = elim (windows_cng_entropy w 32) [ none ↦ [] | some bs ↦ bs ]

-- `__init__`: the conditioned bytes are copied into a buffer of zeros.
abbrev pub first_pool : Draws → Bytes → EntropyPool
first_pool d conditioned = record {
  pool = take pool_size conditioned ++ replicate (pool_size - length conditioned) 0;
  bytes_since_reseed = 0;
  total_bytes_generated = 0;
  reseed_count = 0;
  sources_available = map (λ s. s.0) (entropy_sources d);
  last_health_check = 0;
  health_status = true;
}

abbrev pub reseeded : Bytes → EntropyPool → EntropyPool
reseeded conditioned p = record p {
  pool = take pool_size conditioned;
  bytes_since_reseed = 0;
  reseed_count = p.reseed_count + 1;
}

-- The fuel of a buffer is never short (Entropy.Fill.Laws.filled_lem).
abbrev pub or_fuel {ℓ} : {A : Type ℓ} → Option A → Result A
or_fuel none = err runtime_error
or_fuel (some a) = ok a

module _ (prims : Primitives) where
  -- The block at offset `i` of `_condition_entropy`, whose loop counts the offset.
  unfoldable pub condition_block : Bytes → ℕ → Bytes
  condition_block raw_entropy i = prims.blake2b (raw_entropy ++ le_bytes 4 i)

  unfoldable pub condition_entropy : Bytes → Result Bytes
  condition_entropy raw_entropy =
      or_fuel (filled 64 (condition_block raw_entropy) (λ i. i + 64) pool_size 0) >>= λ (result, i).
      ok result

  -- `EntropyPool()`
  unfoldable pub new_pool : Draws → Result EntropyPool
  new_pool d = condition_entropy (join (entropy_sources d)) >>= λ bs. ok (first_pool d bs)

  -- `reseed`, with `os.urandom(32)` and the measured nanoseconds
  unfoldable pub reseed : Bytes → Windows → List ℕ → EntropyPool → Result EntropyPool
  reseed os_random w nanoseconds p =
      condition_entropy (p.pool ++ (os_random ++ (new_cng w ++ timing_entropy 16 nanoseconds)))
      >>= λ bs. ok (reseeded bs p)

  -- The block that a round of `extract` makes of the pool and the counter, and what it leaves them.
  unfoldable pub extract_block : Bytes × ℕ → Bytes
  extract_block (pool, counter) = prims.blake2b (pool ++ le_bytes 8 counter)

  unfoldable pub extract_next : Bytes × ℕ → Bytes × ℕ
  extract_next (pool, counter) = (stir (extract_block (pool, counter)) 0 pool, counter + 1)

  unfoldable pub extract : ℤ → EntropyPool → Result (Bytes × EntropyPool)
  extract (negsuc n) p = err value_error
  extract (pos zero) p = err value_error
  extract (pos (suc n)) p =
      or_fuel (filled 32 extract_block extract_next (suc n) (p.pool, 0))
      >>= λ (output, (pool, counter)). ok (
        output,
        record p {
          pool = pool;
          bytes_since_reseed = p.bytes_since_reseed + suc n;
          total_bytes_generated = p.total_bytes_generated + suc n;
        },
      )
