-- ===== src/Entropy/Fill.antt =====
-- The loop of backend/crypto_engine/quantum_sim.py that fills a buffer block by block. It occurs in
-- `_condition_entropy`, `extract` and `_generate_fallback`, with different blocks.
pub mod Laws
use qu_mail.Prelude.{
  ℕ, zero, suc, ◌+◌, ◌-◌, ◌*◌, ◌≤◌, ◌<◌, ◌%◌, ◌/◌, min, List, [], ◌∷◌, ◌++◌, Bytes, Option, none,
  some, true, false, length, take, drop, replicate, ltb, ◌≡◌, refl, arith,
}

-- `n.to_bytes(width, "little")`, and `struct.pack("<Q", n)` at the width 8, for a number that fits
pub le_bytes : ℕ → ℕ → Bytes
le_bytes zero n = []
le_bytes (suc width) n = (n % 256) ∷ le_bytes width (n / 256)

-- `output[offset:offset + chunk_size] = bs`
pub put_slice : ℕ → ℕ → Bytes → Bytes → Bytes
put_slice offset chunk_size bs output =
    take offset output ++ (bs ++ drop (offset + chunk_size) output)

module _ {S : Type 0} (width : ℕ) (block_of : S → Bytes) (next : S → S) where
  -- `while offset < size: …`, with the state that the blocks are made from; `none` is fuel run out.
  pub fill : ℕ → ℕ → Bytes → ℕ → S → Option (Bytes × S)
  unfolding put_slice
  fill zero size output offset s = none
  fill (suc fuel) size output offset s = elim (ltb offset size) [
    | false ↦ some (output, s)
    | true ↦
        (let chunk_size = min width (size - offset) in
          fill fuel size (put_slice offset chunk_size (take chunk_size (block_of s)) output)
            (offset + chunk_size) (next s))
  ]

  -- `bytearray(size)`, filled; a chunk has a byte at least, so that the fuel is enough.
  unfoldable pub filled : ℕ → S → Option (Bytes × S)
  unfolding fill
  filled size s = fill (size + 1) size (replicate size 0) 0 s

  -- The reference: the blocks one after another, each cut to the width, and the state behind them.
  unfoldable pub blocks : ℕ → S → Bytes
  blocks zero s = []
  blocks (suc k) s = take width (block_of s) ++ blocks k (next s)

  unfoldable pub after : ℕ → S → S
  after zero s = s
  after (suc k) s = after k (next s)
