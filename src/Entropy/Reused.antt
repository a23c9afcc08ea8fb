-- ===== src/Entropy/Reused.antt =====
-- The Key Manager draws its keys from backend/crypto_engine/quantum_sim.py (`_secure_random` of
-- key_manager/core/key_pool.py): what the repeats of the generator mean for them.
use qu_mail.Prelude.{
  ℕ, zero, suc, ◌≡◌, true, ◌<◌, length, String, arith, replicate, ◌+◌, refl, ◌∙◌, str_eq,
  length-replicate, false,
}
use qu_mail.Prelude.Int.{pos, negsuc}
use qu_mail.Result.{ok, err, value_error}
use qu_mail.Entropy.Sources.{Primitives}
use qu_mail.Entropy.Csprng.{Generator, generate, generate_chacha20, counted, reseed_threshold}
use qu_mail.Entropy.Repeats.{bytes_of, generate_lem}
use qu_mail.KeyManager.KeyEntry.{KeyEntry, Codec}
use qu_mail.KeyManager.Pool.{Pool, RandomSource}
use qu_mail.KeyManager.Pool.Invariant.{IsValid}
use qu_mail.KeyManager.Pool.Preservation.{allocate_key-IsValid}
use qu_mail.KeyManager.Pool.Allocation.{allocated_aes}
use qu_mail.KeyManager.Pool.Methods.{allocate_key, otp_type}

module _ (prims : Primitives) (chacha : prims.has_cryptography ≡ true) where
  pub chacha_draw :
      (g : Generator) (n : ℕ)
      → g.csprng.bytes_generated < reseed_threshold
      → bytes_of (generate prims (pos (suc n)) g) ≡ ok (generate_chacha20 prims g.csprng (suc n))
  chacha_draw g n early = rw (generate_lem prims chacha (suc n) g (omega arith) early) refl

  pub negative_draw :
      (g : Generator) (n : ℕ) → bytes_of (generate prims (negsuc n) g) ≡ err value_error
  unfolding generate
  negative_draw g n = refl

  pub length-chacha : (g : Generator) (n : ℕ) → length (generate_chacha20 prims g.csprng n) ≡ n
  unfolding generate_chacha20
  length-chacha g n =
      prims.length-chacha20 g.csprng.key g.csprng.nonce (replicate n 0) ∙ length-replicate n 0

  -- What one call of `_secure_random` gets from a generator that is not due to be seeded again.
  unfoldable pub generator_source :
      (g : Generator) → g.csprng.bytes_generated < reseed_threshold → RandomSource
  generator_source g early = record {
    draw = λ size. bytes_of (generate prims size g);
    some_bytes = λ n. generate_chacha20 prims g.csprng n;
    draw_positive = λ n. chacha_draw g n early;
    length-some_bytes = λ n. length-chacha g n;
    draw_negative = λ n. negative_draw g n;
  }

  -- Where the Key Manager draws from the generator, two keys of one size and of a type other than
  -- "otp", allocated one after the other with no reseeding in between, are the same bytes, under
  -- different ids and for different peers and users.
  pub aes_keys_repeat :
      (codec : Codec) (g : Generator) (u₁ u₂ : String) (t₁ t₂ : ℕ) (peer₁ peer₂ : String) (size : ℕ)
      (k₁ k₂ user₁ user₂ : String) (p : Pool) (early : g.csprng.bytes_generated < reseed_threshold)
      (later : g.csprng.bytes_generated + size < reseed_threshold)
      → IsValid p
      → 0 < size
      → str_eq k₁ otp_type ≡ false
      → str_eq k₂ otp_type ≡ false
      → (e₁ : KeyEntry) × (e₂ : KeyEntry) × (q : Pool) × (r : Pool) × (allocate_key codec
            (generator_source g early)
            u₁
            t₁
            peer₁
            size
            k₁
            user₁
            p
          ≡ (ok e₁, q))
        × (generate prims (pos size) g ≡ ok (e₁.key_material, counted size g))
        × (allocate_key codec (generator_source (counted size g) later) u₂ t₂ peer₂ size k₂ user₂ q
            ≡ (ok e₂, r))
        × (e₁.key_material ≡ e₂.key_material)
  unfolding generator_source generate_chacha20
  aes_keys_repeat codec g u₁ u₂ t₁ t₂ peer₁ peer₂ zero k₁ k₂ user₁ user₂ p early later v h a b =
      absurd (omega arith)
  aes_keys_repeat codec g u₁ u₂ t₁ t₂ peer₁ peer₂ (suc n) k₁ k₂ user₁ user₂ p early later v h a b =
      let src = generator_source g early in
      let src' = generator_source (counted (suc n) g) later in
      let (q, e, rest) =
        allocated_aes codec src u₁ t₁ peer₁ (suc n) k₁ user₁ p v a (chacha_draw g n early) in
      let valid = allocate_key-IsValid codec src u₁ t₁ peer₁ (suc n) k₁ user₁ p v in
      let (r, e', rest') =
        allocated_aes codec src' u₂ t₂ peer₂ (suc n) k₂ user₂ q (rw e at valid) b
          (chacha_draw (counted (suc n) g) n later) in
      (_, _, q, r, e, generate_lem prims chacha (suc n) g h early, e', refl)
