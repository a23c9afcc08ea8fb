-- ===== src/Crypto/Primitives.antt =====
-- What the `cryptography`, `hashlib` and `hmac` packages promise of the calls that the code makes.
-- Each is a record of operations and of their documented laws, which the modules take as a parameter.
use qu_mail.Prelude.{ℕ, ◌+◌, String, ◌≡◌, ◌≢◌, Bool, true, Option, some, Bytes, length}

-- `AESGCM(key)`, `.encrypt(nonce, data, aad)` and `.decrypt(nonce, data, aad)`; `none` is InvalidTag.
pub record Aead : Type 0 where
  pub accepts_key : Bytes → Bool
  pub seal : Bytes → Bytes → Bytes → Bytes → Bytes
  pub unseal : Bytes → Bytes → Bytes → Bytes → Option Bytes
  pub accepts_256_bits : (key : Bytes) → length key ≡ 32 → accepts_key key ≡ true
  pub length-seal :
      (key nonce plain aad : Bytes) → length (seal key nonce plain aad) ≡ length plain + 16
  pub unseal-seal :
      (key nonce plain aad : Bytes) → unseal key nonce (seal key nonce plain aad) aad ≡ some plain

-- `HKDF(SHA256, length, salt, info).derive(ikm)`: arguments are the input, the info, the length and
-- the salt.
pub record Hkdf : Type 0 where
  pub derive : Bytes → Bytes → ℕ → Option Bytes → Bytes
  pub length-derive :
      (ikm info : Bytes) (n : ℕ) (salt : Option Bytes) → length (derive ikm info n salt) ≡ n

-- `hashlib.sha256(data).hexdigest()`; a digest is never the empty text.
pub record Sha256 : Type 0 where
  pub hexdigest : Bytes → String
  pub hexdigest_nonempty : (data_bytes : Bytes) → hexdigest data_bytes ≢ ""

-- liboqs: `oqs.KeyEncapsulation("Kyber768")` and `oqs.Signature("Dilithium3")`. The randomness that the
-- library draws for itself is the first argument.
pub record Oqs : Type 0 where
  pub kem_keypair : Bytes → Bytes × Bytes
  pub encap_secret : Bytes → Bytes → Bytes × Bytes
  pub decap_secret : Bytes → Bytes → Bytes
  pub signature_keypair : Bytes → Bytes × Bytes
  pub sign : Bytes → Bytes → Bytes → Bytes
  pub verify : Bytes → Bytes → Bytes → Bool
  pub length-shared_secret :
      (coins public_key : Bytes) → length (encap_secret coins public_key).1 ≡ 32
  pub decap-encap :
      (seed coins : Bytes)
      → decap_secret (kem_keypair seed).1 (encap_secret coins (kem_keypair seed).0).0
        ≡ (encap_secret coins (kem_keypair seed).0).1
  pub verify-sign :
      (seed coins message : Bytes)
      → verify message (sign coins (signature_keypair seed).1 message) (signature_keypair seed).0
        ≡ true
