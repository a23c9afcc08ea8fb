-- ===== src/Crypto/Xor.antt =====
-- `p ^ k` on two bytes. The laws are checked on all pairs of bytes by evaluation.
use qu_mail.Prelude.{ℕ, zero, suc, ◌<◌, ◌≡◌, refl, Bool, true, ◌&&◌, arith, ltb, ◌==◌, bit_xor}

-- The test holds at every number that the counter has passed.
every : (ℕ → Bool) → ℕ → Bool
every test zero = true
every test (suc k) = every test k && test k

every-test : (test : ℕ → Bool) (k byte : ℕ) → byte < k → every test k ≡ true → test byte ≡ true
unfolding every
every-test test (suc k) byte lt done = ground (arith, every-test test k byte)
every-test test zero byte lt done = absurd (omega arith)

abbrev twice_same : ℕ → ℕ → Bool
twice_same a b = bit_xor (bit_xor a b) b == a && ltb (bit_xor a b) 256

abbrev row : ℕ → Bool
row a = every (twice_same a) 256

byte_table : every row 256 ≡ true
unfolding every
byte_table = refl

pair_of_bytes : (a b : ℕ) → a < 256 → b < 256 → twice_same a b ≡ true
pair_of_bytes a b ha hb = every-test (twice_same a) 256 b hb (every-test row 256 a ha byte_table)

-- The same key byte undoes itself.
pub xor-xor : (a b : ℕ) → a < 256 → b < 256 → bit_xor (bit_xor a b) b ≡ a
xor-xor a b ha hb = ground (arith, pair_of_bytes a b ha hb)

pub xor-lt : (a b : ℕ) → a < 256 → b < 256 → bit_xor a b < 256
xor-lt a b ha hb = ground (arith, pair_of_bytes a b ha hb)
