-- ===== src/Entropy/Tests.antt =====
-- Toy primitives, and witnesses for the random generator.
use qu_mail.Prelude.{
  ℕ, replicate, false, ◌∷◌, true, ◌<◌, ◌≡◌, Bytes, Bool, length-replicate, none, [], length, arith,
  ◌≤◌, take-append_self, refl, ◌+◌,
}
use qu_mail.Prelude.Int.{pos, negsuc}
use qu_mail.Result.{ok, err, ◌>>=◌, value_error}
use qu_mail.KeyManager.KeyEntry.{KeyEntry}
use qu_mail.KeyManager.Pool.{Pool}
use qu_mail.KeyManager.Pool.Methods.{allocate_key}
use qu_mail.KeyManager.Tests.Data.{codec, pool, pool-IsValid}
use qu_mail.Entropy.Sources.{Primitives, Draws, Windows}
use qu_mail.Entropy.Pool.{EntropyPool, extract}
use qu_mail.Entropy.Reused.{generator_source, aes_keys_repeat}
use qu_mail.Entropy.Csprng.{reseed_threshold, counted, Generator, generate}
use qu_mail.Entropy.Process.{Process, secure_random_bytes}
use qu_mail.Entropy.Stream.{squeezed, stirred, taken_from, extract_lem}
use qu_mail.Entropy.Repeats.{bytes_of, generate_repeats}
use qu_mail.Entropy.Service.{IsSound, secure_random_bytes-total}
use qu_mail.Entropy.Health.{health_check, count}
use qu_mail.Entropy.Health.Laws.{health_check_lem}

-- A cipher that leaves its input alone, and a digest of constant bytes.
abbrev toy : Primitives
toy = record {
  blake2b = λ bs. replicate 64 7;
  length-blake2b = λ bs. length-replicate {A = ℕ} 64 7;
  has_cryptography = true;
  chacha20 = λ key nonce plain. plain;
  length-chacha20 = λ key nonce plain. refl;
  chacha20-append = λ key nonce plain more. take-append_self (length plain) plain more refl;
}

abbrev posix : Windows
posix = record { is_nt = false; crypt_gen_random = λ n. none; bcrypt_gen_random = λ n. none }

abbrev draws : Draws
draws = record {
  os_random = replicate 64 1;
  dev_mode = false;
  windows = posix;
  nanoseconds = 5 ∷ 6 ∷ [];
  token_bytes = none;
}

abbrev small_pool : EntropyPool
small_pool = record {
  pool = 1 ∷ 2 ∷ [];
  bytes_since_reseed = 0;
  total_bytes_generated = 0;
  reseed_count = 0;
  sources_available = [];
  last_health_check = 0;
  health_status = true;
}

abbrev small_generator : Generator
small_generator = record {
  entropy_pool = small_pool;
  csprng = record { key = 1 ∷ []; nonce = 2 ∷ []; counter = 0; bytes_generated = 0 };
}

abbrev started : Process
started = record { use_quantum_sim = true; generator = none }

extract_lem_example :
    (0 < 40
      → extract toy (pos 40) small_pool
        ≡ ok (squeezed toy 40 small_pool.pool, taken_from toy 40 small_pool))
    × (length (squeezed toy 40 small_pool.pool) ≡ 40)
    × (length (stirred toy 40 small_pool.pool) ≡ 2)
    × (extract toy (pos 0) small_pool ≡ err value_error)
    × (extract toy (negsuc 40) small_pool ≡ err value_error)
extract_lem_example = extract_lem toy small_pool 40

generate_repeats_example :
    bytes_of (generate toy (pos 12) small_generator >>= λ x. generate toy (pos 32) x.1)
    ≡ bytes_of (generate toy (pos 32) small_generator)
generate_repeats_example =
    generate_repeats toy refl 12 32 small_generator (omega arith) (omega arith) (omega arith)

secure_random_bytes-total_example :
    (bs : Bytes) × (t : Process) × (secure_random_bytes toy draws
        (λ k. replicate k 3)
        (pos 32)
        started
      ≡ ok (bs, t))
    × (length bs ≡ 32)
    × IsSound t
secure_random_bytes-total_example =
    secure_random_bytes-total toy draws (λ k. replicate k 3) 32 started (λ k. length-replicate k 3)
      (omega arith) tt

health_check_lem_example :
    (h : Bool) × (q : EntropyPool) × (health_check toy 9 small_pool ≡ ok (h, q))
    × (q.health_status ≡ h)
    × (q.last_health_check ≡ 9)
    × ((value : ℕ) → value < 256 → h ≡ true → count value (squeezed toy 256 small_pool.pool) ≤ 19)
health_check_lem_example = health_check_lem toy 9 small_pool

not_due : small_generator.csprng.bytes_generated < reseed_threshold
not_due = omega arith

not_due_later : small_generator.csprng.bytes_generated + 32 < reseed_threshold
not_due_later = omega arith

aes_keys_repeat_example :
    (e₁ : KeyEntry) × (e₂ : KeyEntry) × (q : Pool) × (r : Pool) × (allocate_key codec
        (generator_source toy refl small_generator not_due)
        "u1"
        1
        "bob"
        32
        "seed"
        "alice"
        pool
      ≡ (ok e₁, q))
    × (generate toy (pos 32) small_generator ≡ ok (e₁.key_material, counted 32 small_generator))
    × (allocate_key codec
          (generator_source toy refl (counted 32 small_generator) not_due_later)
          "u2"
          2
          "eve"
          32
          "seed"
          "carol"
          q
        ≡ (ok e₂, r))
    × (e₁.key_material ≡ e₂.key_material)
aes_keys_repeat_example =
    aes_keys_repeat toy refl codec small_generator "u1" "u2" 1 2 "bob" "eve" 32 "seed" "seed"
      "alice" "carol" pool not_due not_due_later pool-IsValid (omega arith) refl refl
