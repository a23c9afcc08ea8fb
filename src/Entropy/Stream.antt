-- ===== src/Entropy/Stream.antt =====
-- Proofs about backend/crypto_engine/quantum_sim.py: what the entropy pool gives, and that its loops end.
use qu_mail.Prelude.{
  ℕ, length, Bytes, ◌+◌, ◌<◌, ◌≡◌, take, ◌/◌, ◌≤◌, ◌∷◌, suc, arith, ap, ◌∙◌, ◌++◌, [], zero, refl,
  length-take, List, length-append, replicate, ◌-◌, length-replicate,
}
use qu_mail.Prelude.Int.{pos, negsuc}
use qu_mail.Result.{ok, err, value_error}
use qu_mail.Entropy.Fill.{blocks, after, le_bytes}
use qu_mail.Entropy.Fill.Laws.{filled_lem, length-blocks}
use qu_mail.Entropy.Sources.{Primitives, Draws, Windows, timing_entropy}
use qu_mail.Entropy.Pool.{
  EntropyPool, first_pool, reseeded, first_pool, reseeded, stir, condition_block, condition_entropy,
  new_pool, new_cng, reseed, extract_block, extract_next, extract, entropy_sources, join,
}

-- The pool is a buffer of ENTROPY_POOL_SIZE bytes.
abbrev pub IsFull : EntropyPool → Type 0
IsFull p = length p.pool ≡ 256

pub length-stir : (block : Bytes) (i : ℕ) (pool : Bytes) → length (stir block i pool) ≡ length pool
unfolding stir
length-stir block i [] = refl
length-stir block i (p ∷ pool) = ap suc (length-stir block (i + 1) pool)

module _ (prims : Primitives) where
  -- What the pool gives, as a function of its bytes alone: 32 bytes of each block, where each block
  -- stirs the pool before the next is made.
  abbrev pub squeezed : ℕ → Bytes → Bytes
  squeezed size pool =
      take size (blocks 32 (extract_block prims) (extract_next prims) ((size + 31) / 32) (pool, 0))

  abbrev pub stirred : ℕ → Bytes → Bytes
  stirred size pool =
      (after 32 (extract_block prims) (extract_next prims) ((size + 31) / 32) (pool, 0)).0

  abbrev pub taken_from : ℕ → EntropyPool → EntropyPool
  taken_from size p = record p {
    pool = stirred size p.pool;
    bytes_since_reseed = p.bytes_since_reseed + size;
    total_bytes_generated = p.total_bytes_generated + size;
  }

  conditioned_length :
      (raw_entropy : Bytes)
      → length (take 256 (blocks 64 (condition_block prims raw_entropy) (λ i. i + 64) 4 0)) ≡ 256
  unfolding condition_block
  conditioned_length raw_entropy = omega (
    arith,
    length-take 256 (blocks 64 (condition_block prims raw_entropy) (λ i. i + 64) 4 0),
    length-blocks 64 (condition_block prims raw_entropy) (λ i. i + 64) (omega arith)
        (λ i. omega (arith, prims.length-blake2b (raw_entropy ++ le_bytes 4 i))) 4 0,
  )

  pub condition_entropy_lem :
      (raw_entropy : Bytes)
      → (bs : Bytes) × (condition_entropy prims raw_entropy ≡ ok bs) × (length bs ≡ 256)
  unfolding condition_entropy condition_block
  condition_entropy_lem raw_entropy =
      let made =
        filled_lem 64 (condition_block prims raw_entropy) (λ i. i + 64) (omega arith)
          (λ i. omega (arith, prims.length-blake2b (raw_entropy ++ le_bytes 4 i))) 4 256 0
          (omega arith) (omega arith) in
      (_, rw made refl, conditioned_length raw_entropy)

  length-after :
      (k : ℕ) (pool : Bytes) (n : ℕ)
      → length (after 32 (extract_block prims) (extract_next prims) k (pool, n)).0 ≡ length pool
  unfolding after extract_next
  length-after zero pool n = refl
  length-after (suc k) pool n =
      length-after k (stir (extract_block prims (pool, n)) 0 pool) (n + 1)
      ∙ length-stir (extract_block prims (pool, n)) 0 pool

  large : (s : Bytes × ℕ) → 32 ≤ length (extract_block prims s)
  unfolding extract_block
  large (pool, n) = omega (arith, prims.length-blake2b (pool ++ le_bytes 8 n))

  extracted :
      (size : ℕ) (p : EntropyPool)
      → 0 < size
      → extract prims (pos size) p ≡ ok (squeezed size p.pool, taken_from size p)
  unfolding extract
  extracted zero p h = absurd (omega arith)
  extracted (suc n) p h =
      rw
        (filled_lem 32 (extract_block prims) (extract_next prims) (omega arith) large
          ((suc n + 31) / 32) (suc n) (p.pool, 0) (omega arith) (omega arith))
        refl

  length-squeezed : (size : ℕ) (pool : Bytes) → length (squeezed size pool) ≡ size
  length-squeezed size pool = omega (
    arith,
    length-take size
        (blocks 32 (extract_block prims) (extract_next prims) ((size + 31) / 32) (pool, 0)),
    length-blocks 32 (extract_block prims) (extract_next prims) (omega arith) large
        ((size + 31) / 32) (pool, 0),
  )

  -- `extract` refuses a size that is not positive. For any other it ends, and gives the first bytes of
  -- the blocks that the pool makes, as many as asked for; the pool is stirred once for each block and
  -- keeps its length, and both counts grow by the size.
  pub extract_lem :
      (p : EntropyPool) (size : ℕ)
      → (0 < size → extract prims (pos size) p ≡ ok (squeezed size p.pool, taken_from size p))
        × (length (squeezed size p.pool) ≡ size)
        × (length (stirred size p.pool) ≡ length p.pool)
        × (extract prims (pos 0) p ≡ err value_error)
        × (extract prims (negsuc size) p ≡ err value_error)
  unfolding extract
  extract_lem p size = (
    extracted size p,
    length-squeezed size p.pool,
    length-after ((size + 31) / 32) p.pool 0,
    refl,
    refl,
  )

  -- A new pool and a pool reseeded are made without fail, and are full.
  pub new_pool-IsFull : (d : Draws) → (p : EntropyPool) × (new_pool prims d ≡ ok p) × IsFull p
  unfolding new_pool
  new_pool-IsFull d =
      let (bs, made, len) = condition_entropy_lem (join (entropy_sources d)) in
      (
        first_pool d bs,
        rw made refl,
        omega (
          arith,
          len,
          length-take 256 bs,
          length-append (take 256 bs) (replicate (256 - length bs) 0),
          length-replicate {A = ℕ} (256 - length bs) 0,
        ),
      )

  pub reseed-IsFull :
      (os_random : Bytes) (w : Windows) (nanoseconds : List ℕ) (p : EntropyPool)
      → (q : EntropyPool) × (reseed prims os_random w nanoseconds p ≡ ok q)
        × IsFull q
        × (q.reseed_count ≡ p.reseed_count + 1)
        × (q.bytes_since_reseed ≡ 0)
  unfolding reseed
  reseed-IsFull os_random w nanoseconds p =
      let (bs, made, len) =
        condition_entropy_lem
          (p.pool ++ (os_random ++ (new_cng w ++ timing_entropy 16 nanoseconds))) in
      (reseeded bs p, rw made refl, omega (arith, len, length-take 256 bs), refl, refl)
