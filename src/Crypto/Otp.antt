-- ===== src/Crypto/Otp.antt =====
-- backend/crypto_engine/otp.py. `hmac.new(key, data, sha256).digest()` is the parameter `mac`;
-- `hmac.compare_digest` compares for equality.
pub mod Laws
use qu_mail.Prelude.{
  ℕ, ◌<◌, Bool, true, false, ◌&&◌, List, [], ◌∷◌, Bytes, length, take, ltb, ◌==◌, bit_xor,
  if◌then◌else◌,
}
use qu_mail.Result.{Result, ok, err, value_error, ◌>>=◌}

-- A byte string holds numbers below 256.
abbrev pub IsBytes : Bytes → Type 0
IsBytes [] = Unit
IsBytes (b ∷ bs) = (b < 256) × IsBytes bs

-- `bytes(p ^ k for p, k in zip(plaintext, key))`
xor_bytes : Bytes → Bytes → Bytes
xor_bytes [] key = []
xor_bytes (p ∷ ps) [] = []
xor_bytes (p ∷ ps) (k ∷ ks) = bit_xor p k ∷ xor_bytes ps ks

pub otp_encrypt : Bytes → Bytes → Result Bytes
unfolding xor_bytes
otp_encrypt plaintext key =
    if ltb (length key) (length plaintext)
    then err value_error
    else ok (
        xor_bytes plaintext
          (if ltb (length plaintext) (length key) then take (length plaintext) key else key))

pub otp_decrypt : Bytes → Bytes → Result Bytes
unfolding otp_encrypt
otp_decrypt ciphertext key = otp_encrypt ciphertext key

-- `hmac.compare_digest(a, b)`
abbrev pub same_bytes : Bytes → Bytes → Bool
same_bytes [] [] = true
same_bytes [] (y ∷ ys) = false
same_bytes (x ∷ xs) [] = false
same_bytes (x ∷ xs) (y ∷ ys) = x == y && same_bytes xs ys

module _ (mac : Bytes → Bytes → Bytes) where
  pub otp_encrypt_with_mac : Bytes → Bytes → Bytes → Result (Bytes × Bytes)
  unfolding otp_encrypt
  otp_encrypt_with_mac plaintext encryption_key mac_key =
      if ltb (length mac_key) 32 then err value_error else do
        ciphertext ← otp_encrypt plaintext encryption_key
        ok (ciphertext, mac mac_key ciphertext)

  pub otp_decrypt_with_mac : Bytes → Bytes → Bytes → Bytes → Result Bytes
  unfolding otp_decrypt
  otp_decrypt_with_mac ciphertext tag encryption_key mac_key =
      if same_bytes tag (mac mac_key ciphertext)
      then otp_decrypt ciphertext encryption_key
      else err value_error
