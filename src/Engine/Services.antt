-- ===== src/Engine/Services.antt =====
-- What the engine calls in the other parts of the program: the Key Manager's client (backend/qkd_client),
-- the key store, the table of known recipients and the post-quantum primitives, each an operation on the
-- state `S` of those parts. `os.urandom` is a draw from it.
use qu_mail.Prelude.{ℕ, String, Bool, Option, Bytes}
use qu_mail.QkdClient.{ClientKey}
use qu_mail.Engine.Action.{Action}
use qu_mail.Storage.{KnownRecipient}
use qu_mail.Engine.Envelope.{Codecs}
use qu_mail.Crypto.Primitives.{Aead, Hkdf, Sha256}

-- What stands where a public key is expected: the text of the table of known recipients, or bytes.
pub data PublicKey : Type 0 where
  text_key : String → PublicKey
  raw_key : Bytes → PublicKey

-- The packages that every device has.
pub record Library : Type 0 where
  pub aead : Aead
  pub hkdf : Hkdf
  pub sha : Sha256
  pub codecs : Codecs

-- What the engine of one device calls.
pub record Services (S : Type 0) : Type 0 where
  pub urandom : ℕ → Action S Bytes
  pub request_key : String → ℕ → String → Action S ClientKey
  pub get_key : String → Action S ClientKey
  pub consume_key : String → Action S Bool
  pub get_known_recipient : String → Action S (Option KnownRecipient)
  -- of key_store, which makes a key pair where none is stored
  pub get_public_key : String → Action S Bytes
  pub get_private_key : String → Action S Bytes
  -- of pqc.py: the encapsulated key and the shared secret, for what is given as the public key,
  -- or for a fresh one
  pub pqc_encrypt : Option PublicKey → Action S (Bytes × Bytes)
  pub pqc_decrypt : Bytes → Bytes → Action S Bytes
  pub generate_dilithium_keypair : Action S (Bytes × Bytes)
  pub dilithium_sign : Bytes → Bytes → Action S Bytes
  pub dilithium_verify : Bytes → Bytes → Bytes → Action S Bool
