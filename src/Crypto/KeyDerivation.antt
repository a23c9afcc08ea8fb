-- ===== src/Crypto/KeyDerivation.antt =====
-- backend/crypto_engine/key_derivation.py, over HKDF as a parameter. A text's `.encode()` is its bytes.
pub mod Laws
use Prim.Native.Char.{code}
use qu_mail.Prelude.{
  ℕ, ◌+◌, ◌*◌, String, Bool, true, false, ◌||◌, Option, none, some, List, [], ◌∷◌, ◌++◌, Bytes,
  length, ltb, leb, if◌then◌else◌,
}
use qu_mail.Result.{Result, ok, err, value_error, ◌>>=◌, ◌>>◌, raise_if}
use qu_mail.Crypto.Primitives.{Hkdf}

-- The bytes of an ASCII literal.
abbrev pub ascii : String → Bytes
ascii String.[] = []
ascii (String.◌∷◌ c s) = code c ∷ ascii s

abbrev pub is_empty : Bytes → Bool
is_empty [] = true
is_empty (x ∷ xs) = false

-- `salt if salt else None`
abbrev pub salt_or_none : Bytes → Option Bytes
salt_or_none [] = none
salt_or_none (x ∷ xs) = some (x ∷ xs)

pub record EmailKeys : Type 0 where
  pub encryption_key : Bytes
  pub mac_key : Bytes
  pub iv_seed : Bytes

module _ (hkdf : Hkdf) where
  pub derive_key : Bytes → Bytes → ℕ → Bytes → Result Bytes
  derive_key input_key_material context n salt = do
    raise_if (is_empty input_key_material) value_error
    raise_if (leb n 0 || ltb (255 * 32) n) value_error
    ok (hkdf.derive input_key_material context n (salt_or_none salt))

  derive_multiple_keys : Bytes → List (Bytes × ℕ) → Bytes → Result (List Bytes)
  derive_multiple_keys input_key_material [] salt = ok []
  derive_multiple_keys input_key_material ((context, n) ∷ contexts) salt = do
    key ← derive_key input_key_material context n salt
    keys ← derive_multiple_keys input_key_material contexts salt
    ok (key ∷ keys)

  pub derive_email_keys : Bytes → Bytes → Result EmailKeys
  derive_email_keys qkd_key email_id = do
    let base_context = ascii "qumail-email-" ++ email_id
    encryption_key ← derive_key qkd_key (base_context ++ ascii "-enc") 32 []
    mac_key ← derive_key qkd_key (base_context ++ ascii "-mac") 32 []
    iv_seed ← derive_key qkd_key (base_context ++ ascii "-iv") 16 []
    ok (record { encryption_key = encryption_key; mac_key = mac_key; iv_seed = iv_seed })
