-- ===== src/Entropy/Sources.antt =====
-- Where the entropy of backend/crypto_engine/quantum_sim.py comes from. BLAKE2b, ChaCha20, the interface
-- of Windows, `os.urandom`, `secrets` and the clock are outside.
use Prim.Native.Nat.{bit_or, suc}
use qu_mail.Prelude.{
  ℕ, Bytes, Bool, Option, List, length, if◌then◌else◌, ◌∷◌, [], map, ◌≡◌, some, ◌+◌, ◌%◌, zero,
  take, none, ap, ◌*◌, ◌++◌, ◌^◌, refl, ◌-◌,
}

-- `hashlib.blake2b(data, digest_size=64).digest()`, and `encryptor.update(plain)` of a new ChaCha20 cipher
-- with the key and the nonce: a stream cipher, whose bytes depend on their place alone.
pub record Primitives : Type 0 where
  pub blake2b : Bytes → Bytes
  pub length-blake2b : (data_bytes : Bytes) → length (blake2b data_bytes) ≡ 64
  pub has_cryptography : Bool
  pub chacha20 : Bytes → Bytes → Bytes → Bytes
  pub length-chacha20 : (key nonce plain : Bytes) → length (chacha20 key nonce plain) ≡ length plain
  pub chacha20-append :
      (key nonce plain more : Bytes)
      → take (length plain) (chacha20 key nonce (plain ++ more)) ≡ chacha20 key nonce plain

-- What the two interfaces of Windows give for a number of bytes; `none` is a failure or an exception.
pub record Windows : Type 0 where
  pub is_nt : Bool
  pub crypt_gen_random : ℕ → Option Bytes
  pub bcrypt_gen_random : ℕ → Option Bytes

-- What one initialization draws: the environment, the measured nanoseconds, and
-- `secrets.token_bytes(64)`, whose exception is caught.
pub record Draws : Type 0 where
  pub os_random : Bytes
  pub dev_mode : Bool
  pub windows : Windows
  pub nanoseconds : List ℕ
  pub token_bytes : Option Bytes

-- `_get_windows_cng_entropy`
unfoldable pub windows_cng_entropy : Windows → ℕ → Option Bytes
windows_cng_entropy w size =
    if w.is_nt
    then elim (w.crypt_gen_random size) [ some bs ↦ some bs | none ↦ w.bcrypt_gen_random size ]
    else none

-- `samples[idx]`
abbrev pub byte_at : ℕ → Bytes → ℕ
byte_at i [] = 0
byte_at zero (b ∷ bs) = b
byte_at (suc i) (b ∷ bs) = byte_at i bs

-- `byte_val |= (samples[idx] & 1) << bit`, for the last `left` of the eight bits
unfoldable pub pack_bits : ℕ → ℕ → ℕ → Bytes → ℕ
pack_bits zero idx byte_val samples = byte_val
pack_bits (suc left) idx byte_val samples =
    pack_bits left (idx + 1) (bit_or byte_val (byte_at idx samples % 2 * 2 ^ (7 - left))) samples

unfoldable pub pack_bytes : ℕ → ℕ → Bytes → Bytes
pack_bytes zero idx samples = []
pack_bytes (suc left) idx samples = pack_bits 8 idx 0 samples ∷ pack_bytes left (idx + 8) samples

packed : (size idx : ℕ) (samples : Bytes) → length (pack_bytes size idx samples) ≡ size
unfolding pack_bytes
packed zero idx samples = refl
packed (suc size) idx samples = ap suc (packed size (idx + 8) samples)

-- `_get_timing_entropy`: `size * 8` differences of the clock, of which the lowest bits count.
unfoldable pub timing_entropy : ℕ → List ℕ → Bytes
timing_entropy size nanoseconds = pack_bytes size 0 (map (λ n. n % 256) nanoseconds)

pub length-timing_entropy :
    (size : ℕ) (nanoseconds : List ℕ) → length (timing_entropy size nanoseconds) ≡ size
unfolding timing_entropy
length-timing_entropy size nanoseconds = packed size 0 (map (λ n. n % 256) nanoseconds)
