-- ===== src/KeyManager/Tests/Data.antt =====
-- A codec that writes a number as that many letters and a stop, a source of equal bytes, and a pool.
use qu_mail.Dict.{lookup}
use qu_mail.Result.{Result, ok, err, value_error}
use Prim.Native.Char.{Char, code}
use text.Mathlib.TextLemmas.{cons≢nil}
use qu_mail.Prelude.{
  ℕ, String, List, Bytes, Option, ◌≡◌, str_eq, replicate, ◌∷◌, some, ◌+◌, false, length-replicate,
  [], arith, if◌then◌else◌, none, ◌∙◌, suc, refl, ◌==◌, zero, ap, Bool-cases, inl, eq_iff, inr,
  true,
}
use qu_mail.Prelude.Int.{ℤ, pos, negsuc}
use qu_mail.KeyManager.KeyEntry.{KeyEntry, Codec}
use qu_mail.KeyManager.Pool.Runs.{Call}
use qu_mail.KeyManager.Pool.{Store, snapshot, Pool, RandomSource, Store}
use qu_mail.KeyManager.Pool.Counters.{live}
use qu_mail.KeyManager.Pool.Invariant.{IsValid}

abbrev pub letters : ℕ → String → String
letters zero s = String.◌∷◌ "s" s
letters (suc n) s = String.◌∷◌ "a" (letters n s)

abbrev pub write : Bytes → String
write [] = String.[]
write (b ∷ bs) = letters b (write bs)

abbrev pub prepend : ℕ → Option Bytes → Option Bytes
prepend n none = none
prepend n (some bs) = some (n ∷ bs)

abbrev pub read : ℕ → String → Option Bytes
read n String.[] = some []
read n (String.◌∷◌ c s) = if code c == 115 then prepend n (read 0 s) else read (n + 1) s

abbrev pub only : Option Bytes → Option ℕ
only (some (n ∷ [])) = some n
only _ = none

pub read-letters : (k n : ℕ) (s : String) → read k (letters n s) ≡ prepend (k + n) (read 0 s)
read-letters k zero s = ap (λ m. prepend m (read 0 s)) (omega arith)
read-letters k (suc n) s = read-letters (k + 1) n s ∙ ap (λ m. prepend m (read 0 s)) (omega arith)

zero-add : (n : ℕ) → 0 + n ≡ n
zero-add n = omega arith

pub read-write : (bs : Bytes) → read 0 (write bs) ≡ some bs
read-write [] = refl
read-write (b ∷ bs) =
    read-letters 0 b (write bs) ∙ rw (read-write bs) (ap (λ n. some (n ∷ bs)) (zero-add b))

never_empty : (c : Char) (s : String) → str_eq (String.◌∷◌ c s) "" ≡ false
never_empty c s = elim (Bool-cases (str_eq (String.◌∷◌ c s) "")) [
  | inl same ↦ absurd (cons≢nil ((eq_iff (String.◌∷◌ c s) "").0 same))
  | inr other ↦ other
]

pub letters_nonempty : (n : ℕ) → str_eq (letters n String.[]) "" ≡ false
letters_nonempty zero = never_empty "s" String.[]
letters_nonempty (suc n) = never_empty "a" (letters n String.[])

pub one_number : (t : ℕ) → only (read 0 (letters t String.[])) ≡ some t
one_number t = rw (read-letters 0 t String.[]) (ap some (zero-add t))

abbrev pub codec : Codec
codec = record {
  b64encode = write;
  b64decode = read 0;
  isoformat = λ t. letters t String.[];
  fromisoformat = λ s. only (read 0 s);
  decode-encode = read-write;
  from-iso = one_number;
  iso_nonempty = letters_nonempty;
}

abbrev pub sevens : ℤ → Result Bytes
sevens (pos n) = ok (replicate n 7)
sevens (negsuc n) = err value_error

abbrev pub source : RandomSource
source = record {
  draw = sevens;
  some_bytes = λ n. replicate n 7;
  draw_positive = λ n. refl;
  length-some_bytes = λ n. length-replicate n 7;
  draw_negative = λ n. refl;
}

abbrev pub key_a : KeyEntry
key_a = record {
  key_id = "a";
  key_material = 1 ∷ 2 ∷ [];
  peer_id = "bob";
  key_type = "otp";
  created_at = 3;
  user_id = "default";
  expires_at = some 9;
  consumed = false;
  consumed_at = none;
}

-- Two of six OTP bytes are used, by the key "a".
abbrev pub pool : Pool
pool = record {
  otp_pool = 1 ∷ 2 ∷ 3 ∷ 4 ∷ 5 ∷ 6 ∷ [];
  otp_offset = 2;
  aes_key_count = pos 4;
  allocated_keys = ("a", key_a) ∷ [];
  user_quotas = [];
  stats =
      ("total_allocated", 1)
      ∷ ("total_consumed", 0)
      ∷ ("otp_bytes_used", 2)
      ∷ ("aes_keys_used", 0)
      ∷ [];
  persistent_store = none;
  audit = none;
  hooks = some [];
  released = [];
}

pub pool-IsValid : IsValid pool
unfolding live lookup
pool-IsValid = record {
  allocated = 1;
  consumed = 0;
  aes = 0;
  offset_in_pool = omega arith;
  counters = record {
    total_allocated = refl;
    total_consumed = refl;
    otp_bytes_used = refl;
    aes_keys_used = refl;
  };
  balance = omega arith;
  zeroized = tt;
  hooked = λ h. cc;
}

abbrev pub calls : List Call
calls =
    Call.allocate source "b" 20 "bob" 3 "otp" "default"
    ∷ Call.consume 21 "a"
    ∷ Call.consume 22 "a"
    ∷ Call.delete "b"
    ∷ []

-- A store that holds what the pool saves.
abbrev pub saved_store : Store
saved_store = record { saved = some (snapshot codec pool); can_save = true }
