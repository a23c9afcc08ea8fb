-- ===== src/Crypto/AesGcm.antt =====
-- backend/crypto_engine/aes_gcm.py, over an authenticated cipher `aead`. The nonce that the code draws
-- by `os.urandom` is an argument.
pub mod Laws
use qu_mail.Prelude.{
  ℕ, ◌+◌, ◌-◌, ◌≡◌, Bool, true, false, not, Option, none, some, ◌++◌, Bytes, length, take, drop,
  ltb, ◌==◌, if◌then◌else◌,
}
use qu_mail.Result.{Result, ok, err, value_error, invalid_tag, ◌>>=◌, ◌>>◌, raise_if}
use qu_mail.Crypto.Primitives.{Aead}

abbrev pub nonce_size : ℕ
nonce_size = 12

abbrev pub tag_size : ℕ
tag_size = 16

abbrev pub key_size : ℕ
key_size = 32

abbrev pub or_invalid_tag : Option Bytes → Result Bytes
or_invalid_tag none = err invalid_tag
or_invalid_tag (some plain) = ok plain

module _ (aead : Aead) where
  -- The ciphertext, the nonce and the tag: `[:-TAG_SIZE]` and `[-TAG_SIZE:]`.
  pub aes_encrypt : Bytes → Bytes → Bytes → Bytes → Result (Bytes × Bytes × Bytes)
  aes_encrypt nonce plaintext key associated_data = do
    raise_if (not (length key == key_size)) value_error
    raise_if (not (aead.accepts_key key)) value_error
    let ciphertext_with_tag = aead.seal key nonce plaintext associated_data
    let n = length ciphertext_with_tag - tag_size
    ok (take n ciphertext_with_tag, nonce, drop n ciphertext_with_tag)

  pub aes_decrypt : Bytes → Bytes → Bytes → Bytes → Bytes → Result Bytes
  aes_decrypt ciphertext key nonce tag associated_data = do
    raise_if (not (length key == key_size)) value_error
    raise_if (not (length nonce == nonce_size)) value_error
    raise_if (not (length tag == tag_size)) value_error
    raise_if (not (aead.accepts_key key)) value_error
    or_invalid_tag (aead.unseal key nonce (ciphertext ++ tag) associated_data)

  unfoldable pub aes_encrypt_combined : Bytes → Bytes → Bytes → Bytes → Result Bytes
  aes_encrypt_combined nonce plaintext key associated_data = do
    raise_if (not (aead.accepts_key key)) value_error
    ok (nonce ++ aead.seal key nonce plaintext associated_data)

  unfoldable pub aes_decrypt_combined : Bytes → Bytes → Bytes → Result Bytes
  aes_decrypt_combined combined key associated_data = do
    raise_if (ltb (length combined) (nonce_size + tag_size)) value_error
    raise_if (not (aead.accepts_key key)) value_error
    or_invalid_tag
        (aead.unseal key (take nonce_size combined) (drop nonce_size combined) associated_data)
