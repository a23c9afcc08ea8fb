-- ===== src/Entropy/Repeats.antt =====
-- Proofs about backend/crypto_engine/quantum_sim.py: what ChaCha20CSPRNG gives. Its cipher starts anew
-- from the same key and nonce at every call, until it is seeded again.
use qu_mail.Prelude.{
  ℕ, Bytes, ◌≡◌, arith, length, Bool-cases, suc, true, ◌∙◌, inl, leb, ◌<◌, replicate, inr, false,
  ◌+◌, refl, zero, ◌≤◌, take, Bool, ap, ◌++◌, ◌/◌, if◌then◌else◌, length-take, length-replicate,
}
use qu_mail.Prelude.Int.{pos}
use qu_mail.Entropy.Fill.{blocks, le_bytes}
use qu_mail.Entropy.Fill.Laws.{filled_lem, length-blocks}
use qu_mail.Result.{Result, ok, ◌>>=◌}
use qu_mail.Entropy.Fill.{le_bytes, blocks}
use qu_mail.Entropy.Fill.Laws.{filled_lem, length-blocks}
use qu_mail.Entropy.Sources.{Primitives, Draws}
use qu_mail.Entropy.Pool.{EntropyPool}
use qu_mail.Entropy.Stream.{IsFull, extract_lem, new_pool-IsFull, squeezed, taken_from}
use qu_mail.Entropy.Csprng.{
  Csprng, Generator, seeded, reseed_csprng, new_generator, generate, generate_chacha20, output_of,
  generate_fallback, fallback_block, fresh, counted, reseed_threshold,
}

-- The generator's pool is full.
abbrev pub IsReady : Generator → Type 0
IsReady g = IsFull g.entropy_pool

-- The bytes that a call gives.
abbrev pub bytes_of : Result (Bytes × Generator) → Result Bytes
bytes_of r = r >>= λ x. ok x.0

module _ (prims : Primitives) where
  -- The call succeeds, with a state that is ready.
  pub reseed_csprng-IsReady :
      (p : EntropyPool)
      → IsFull p
      → (g : Generator) × (reseed_csprng prims p ≡ ok g)
        × IsReady g
        × (g.entropy_pool.reseed_count ≡ p.reseed_count)
        × (g.csprng.bytes_generated ≡ 0)
  unfolding reseed_csprng
  reseed_csprng-IsReady p full =
      let (made, len, kept, zero_size, negative) = extract_lem prims p 64 in
      (
        record { entropy_pool = taken_from prims 64 p; csprng = seeded (squeezed prims 64 p.pool) },
        rw (made (omega arith)) refl,
        kept ∙ full,
        refl,
        refl,
      )

  pub new_generator-IsReady :
      (d : Draws) → (g : Generator) × (new_generator prims d ≡ ok g) × IsReady g
  unfolding new_generator
  new_generator-IsReady d =
      let (p, made, full) = new_pool-IsFull prims d in
      let (g, seeded_from, ready, kept, begun) = reseed_csprng-IsReady p full in
      (g, rw made seeded_from, ready)

  fallback_large : (c : Csprng) (n : ℕ) → 64 ≤ length (fallback_block prims c n)
  unfolding fallback_block
  fallback_large c n = omega (arith, prims.length-blake2b (c.key ++ (c.nonce ++ le_bytes 8 n)))

  fallback_lem :
      (c : Csprng) (size : ℕ)
      → (bs : Bytes) × (generate_fallback prims c size ≡ ok bs) × (length bs ≡ size)
  unfolding generate_fallback
  fallback_lem c size = (
    take size (blocks 64 (fallback_block prims c) (λ n. n + 1) ((size + 63) / 64) c.counter),
    rw
        (filled_lem 64 (fallback_block prims c) (λ n. n + 1) (omega arith) (fallback_large c)
          ((size + 63) / 64) size c.counter (omega arith) (omega arith))
        refl,
    omega (
      arith,
      length-take size
          (blocks 64 (fallback_block prims c) (λ n. n + 1) ((size + 63) / 64) c.counter),
      length-blocks 64 (fallback_block prims c) (λ n. n + 1) (omega arith) (fallback_large c)
          ((size + 63) / 64) c.counter,
    ),
  )

  output_of_lem :
      (c : Csprng) (size : ℕ) → (bs : Bytes) × (output_of prims c size ≡ ok bs) × (length bs ≡ size)
  unfolding output_of generate_chacha20
  output_of_lem c size =
      let pick : Bool → Result Bytes =
        λ b. if b then ok (generate_chacha20 prims c size) else generate_fallback prims c size in
      elim (Bool-cases prims.has_cryptography) [
        | inl chacha ↦ (
          generate_chacha20 prims c size,
          ap pick chacha,
          prims.length-chacha20 c.key c.nonce (replicate size 0) ∙ length-replicate size 0,
        )
        | inr other ↦ (let (bs, made, len) = fallback_lem c size in (bs, ap pick other ∙ made, len))
      ]

  fresh-IsReady : (g : Generator) → IsReady g → (h : Generator) × (fresh prims g ≡ ok h) × IsReady h
  unfolding fresh
  fresh-IsReady g ready = elim (Bool-cases (leb reseed_threshold g.csprng.bytes_generated)) [
    | inl due ↦
        (let (h, made, full, kept, begun) = reseed_csprng-IsReady g.entropy_pool ready in
          (h, rw due made, full))
    | inr early ↦ (g, rw early refl, ready)
  ]

  -- A request for a positive number of bytes ends and gives that many.
  pub generate-IsReady :
      (n : ℕ) (g : Generator)
      → IsReady g
      → (bs : Bytes) × (h : Generator) × (generate prims (pos (suc n)) g ≡ ok (bs, h))
        × (length bs ≡ suc n)
        × IsReady h
  unfolding generate
  generate-IsReady n g ready =
      let (h, seeded_anew, full) = fresh-IsReady g ready in
      let (bs, made, len) = output_of_lem h.csprng (suc n) in
      (bs, counted (suc n) h, rw seeded_anew (rw made refl), len, full)

  module _ (chacha : prims.has_cryptography ≡ true) where
    pub generate_lem :
        (n : ℕ) (g : Generator)
        → 0 < n
        → g.csprng.bytes_generated < reseed_threshold
        → generate prims (pos n) g ≡ ok (generate_chacha20 prims g.csprng n, counted n g)
    unfolding generate fresh output_of
    generate_lem zero g h early = absurd (omega arith)
    generate_lem (suc n) g h early =
        let not_due : leb reseed_threshold g.csprng.bytes_generated ≡ false = ground arith in
        rw not_due (
          ap
            (λ b.
              (if b
                then ok (generate_chacha20 prims g.csprng (suc n))
                else generate_fallback prims g.csprng (suc n))
              >>= λ output. ok (output, counted (suc n) g))
            chacha)

    -- With the `cryptography` package, and as long as the generator is not due to be seeded again, a
    -- call does not change what the next one gives: after a call for any number of bytes, a request is
    -- answered with the bytes that it would have got without that call.
    pub generate_repeats :
        (m n : ℕ) (g : Generator)
        → 0 < m
        → 0 < n
        → g.csprng.bytes_generated + m < reseed_threshold
        → bytes_of (generate prims (pos m) g >>= λ x. generate prims (pos n) x.1)
          ≡ bytes_of (generate prims (pos n) g)
    unfolding generate_chacha20
    generate_repeats m n g hm hn early =
        rw (generate_lem m g hm (omega arith))
          (rw (generate_lem n (counted m g) hn early) (rw (generate_lem n g hn (omega arith)) refl))
