-- ===== src/Entropy/Service.antt =====
-- Proofs about backend/crypto_engine/secure_random.py and the globals of quantum_sim.py.
use qu_mail.Prelude.{
  none, ℕ, zero, suc, ◌≡◌, Bytes, String, some, Option-cases, length, List, text_length, replicate,
  inl, ◌<◌, ◌+◌, ◌*◌, ◌∷◌, refl, inr, arith, ap, Bool-cases, [], Option, Bool, ◌∙◌, ◌≤◌, ◌/◌,
  if◌then◌else◌, take_text,
}
use qu_mail.Prelude.Int.{pos}
use qu_mail.Result.{Result, ok}
use qu_mail.Entropy.Sources.{Primitives, Draws, Windows}
use qu_mail.Entropy.Stream.{reseed-IsFull}
use qu_mail.Entropy.Csprng.{Generator}
use qu_mail.Entropy.Repeats.{
  IsReady, generate-IsReady, new_generator-IsReady, reseed_csprng-IsReady,
}
use qu_mail.Entropy.Process.{
  Process, with_generator, ensure_initialized, generate_quantum_bytes, secure_random_bytes,
  force_reseed, secure_random_hex, zeroize,
}

abbrev pub MadeReady : Option Generator → Type 0
MadeReady none = Unit
MadeReady (some g) = IsReady g

-- A generator that was made has a full pool.
abbrev pub IsSound : Process → Type 0
IsSound s = MadeReady s.generator

module _ (prims : Primitives) (d : Draws) where
  ensured :
      (s : Process)
      → IsSound s
      → (g : Generator) × (ensure_initialized prims d s ≡ ok g) × IsReady g
  unfolding ensure_initialized
  ensured s sound = elim (Option-cases s.generator) [
    | inl missing ↦
        (let (g, made, ready) = new_generator-IsReady prims d in (g, rw missing made, ready))
    | inr (g, present) ↦ (g, rw present refl, rw present at sound)
  ]

  quantum_bytes :
      (n : ℕ) (s : Process)
      → IsSound s
      → (bs : Bytes) × (t : Process) × (generate_quantum_bytes prims d (pos (suc n)) s ≡ ok (bs, t))
        × (length bs ≡ suc n)
        × IsSound t
  unfolding generate_quantum_bytes
  quantum_bytes n s sound =
      let (g, made, ready) = ensured s sound in
      let (bs, h, drawn, len, ready') = generate-IsReady prims n g ready in
      (bs, with_generator s h, rw made (rw drawn refl), len, ready')

  -- A request for a positive number of bytes ends, from the first one on, which makes the generator: it
  -- gives exactly that many bytes, and leaves the process as fit for the next. `os.urandom` gives as many
  -- bytes as it is asked for.
  pub secure_random_bytes-total :
      (urandom : ℕ → Bytes) (n : ℕ) (s : Process)
      → ((k : ℕ) → length (urandom k) ≡ k)
      → 0 < n
      → IsSound s
      → (bs : Bytes) × (t : Process) × (secure_random_bytes prims d urandom (pos n) s ≡ ok (bs, t))
        × (length bs ≡ n)
        × IsSound t
  unfolding secure_random_bytes
  secure_random_bytes-total urandom zero s exact h sound = absurd (omega arith)
  secure_random_bytes-total urandom (suc n) s exact h sound =
      let pick : Bool → Result (Bytes × Process) = λ b.
        if b then generate_quantum_bytes prims d (pos (suc n)) s else ok (urandom (suc n), s) in
      elim (Bool-cases s.use_quantum_sim) [
        | inl sim ↦
            (let (bs, t, drawn, len, after) = quantum_bytes n s sound in
              (bs, t, ap pick sim ∙ drawn, len, after))
        | inr other ↦ (urandom (suc n), s, ap pick other, exact (suc n), sound)
      ]

  -- A forced reseed succeeds, counts one more in the pool, and seeds the generator anew, so that its
  -- count of bytes begins again.
  pub force_reseed_lem :
      (os_random : Bytes) (w : Windows) (nanoseconds : List ℕ) (g : Generator) (s : Process)
      → s.generator ≡ some g
      → (h : Generator) × (force_reseed prims d os_random w nanoseconds s ≡ ok (with_generator s h))
        × (h.entropy_pool.reseed_count ≡ g.entropy_pool.reseed_count + 1)
        × (h.csprng.bytes_generated ≡ 0)
        × IsReady h
  unfolding force_reseed ensure_initialized
  force_reseed_lem os_random w nanoseconds g s present =
      let (p, fresh, full, counted, bytes) =
        reseed-IsFull prims os_random w nanoseconds g.entropy_pool in
      let (h, made, ready, kept, begun) = reseed_csprng-IsReady prims p full in
      (h, rw present (rw fresh (rw made refl)), kept ∙ counted, begun, ready)

length-cut : (n : ℕ) (s : String) → n ≤ text_length s → text_length (take_text n s) ≡ n
length-cut zero s h = refl
length-cut (suc n) String.[] h = absurd (omega arith)
length-cut (suc n) (String.◌∷◌ c s) h = ap suc (length-cut n s (omega arith))

-- `secure_random_hex` gives a text of the length asked for, odd lengths included: `secrets.token_hex`
-- gives two characters for each byte.
pub length-secure_random_hex :
    (token_hex : ℕ → String) (size : ℕ)
    → ((k : ℕ) → text_length (token_hex k) ≡ 2 * k)
    → text_length (secure_random_hex token_hex size) ≡ size
unfolding secure_random_hex
length-secure_random_hex token_hex size two =
    length-cut size (token_hex ((size + 1) / 2)) (omega (arith, two ((size + 1) / 2)))

pub zeroize_lem : (bs : Bytes) → zeroize bs ≡ replicate (length bs) 0
unfolding zeroize
zeroize_lem [] = refl
zeroize_lem (b ∷ bs) = ap (◌∷◌ 0) (zeroize_lem bs)
