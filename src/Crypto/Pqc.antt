-- ===== src/Crypto/Pqc.antt =====
-- backend/crypto_engine/pqc.py: the primitives of liboqs where it is installed, and in the development
-- mode the simulated ones with their caches. What a call draws at random is an argument. Where neither
-- can be used the module refuses to load.
pub mod Laws
use qu_mail.Prelude.{
  ℕ, String, Bool, List, Bytes, if◌then◌else◌, Option, ◌∷◌, ltb, some, take, [], none, length, ◌++◌,
  true, ◌/◌, false,
}
use qu_mail.Crypto.Primitives.{Oqs}
use qu_mail.Crypto.Otp.{same_bytes}

-- A dict whose keys are bytes, in insertion order.
abbrev pub ByteDict : Type 0 → Type 0
ByteDict V = List (Bytes × V)

module _ {V : Type 0} where
  pub cache_get : Bytes → ByteDict V → Option V
  cache_get k [] = none
  cache_get k ((j, v) ∷ d) = if same_bytes j k then some v else cache_get k d

  pub cache_put : Bytes → V → ByteDict V → ByteDict V
  cache_put k v [] = (k, v) ∷ []
  cache_put k v ((j, w) ∷ d) = if same_bytes j k then (j, v) ∷ d else (j, w) ∷ cache_put k v d

  -- `d.pop(k, None)`
  pub cache_pop : Bytes → ByteDict V → ByteDict V
  cache_pop k [] = []
  cache_pop k ((j, v) ∷ d) =
      let rest = cache_pop k d in if same_bytes j k then rest else (j, v) ∷ rest

  -- `for k in keys_to_remove: d.pop(k, None)`
  pub cache_pop_all : List Bytes → ByteDict V → ByteDict V
  cache_pop_all [] d = d
  cache_pop_all (k ∷ ks) d = cache_pop_all ks (cache_pop k d)

  abbrev pub keys : ByteDict V → List Bytes
  keys [] = []
  keys (e ∷ d) = e.0 ∷ keys d

  -- One of the two halves of `_cache_cleanup`, for a cache of at most `limit` entries.
  pub trim : ℕ → ByteDict V → ByteDict V
  trim limit d = if ltb limit (length d) then cache_pop_all (take (limit / 2) (keys d)) d else d

-- `_kyber_cache` and `_dilithium_cache`
pub record Caches : Type 0 where
  pub kyber : ByteDict Bytes
  pub dilithium : ByteDict (Bytes × Bytes)

abbrev pub max_cache_size : ℕ
max_cache_size = 10000

pub cache_cleanup : Caches → Caches
cache_cleanup c = record {
  kyber = trim max_cache_size c.kyber;
  dilithium = trim max_cache_size c.dilithium;
}

abbrev pub cached_or : Bytes → Option Bytes → Bytes
cached_or fallback none = fallback
cached_or fallback (some shared_secret) = shared_secret

-- `SimulatedKyber` and `SimulatedDilithium`
module _ (sha256 : Bytes → Bytes) (hmac_sha512 : Bytes → Bytes → Bytes) where
  pub encap : Bytes → Bytes → Caches → (Bytes × Bytes) × Caches
  encap ciphertext shared_secret c =
      let cleaned = cache_cleanup c in
      (
        (ciphertext, shared_secret),
        record cleaned { kyber = cache_put ciphertext shared_secret cleaned.kyber },
      )

  pub decap : Bytes → Bytes → Caches → Bytes
  decap ciphertext secret_key c =
      cached_or (sha256 (ciphertext ++ secret_key)) (cache_get ciphertext c.kyber)

  -- The padding is what follows the MAC in the signature.
  pub sign : Bytes → Bytes → Bytes → Caches → Bytes × Caches
  sign padding message secret_key c =
      let signature = hmac_sha512 (take 64 secret_key) message ++ padding in
      let cleaned = cache_cleanup c in
      (
        signature,
        record cleaned {
          dilithium = cache_put (take 64 signature) (message, take 64 secret_key) cleaned.dilithium;
        },
      )

  -- The message that is given is not looked at.
  unfoldable pub verify : Bytes → Bytes → Bytes → Caches → Bool
  verify message signature public_key c = elim (cache_get (take 64 signature) c.dilithium) [
    | none ↦ true
    | some (cached_msg, cached_key) ↦
        same_bytes (take 64 signature) (hmac_sha512 cached_key cached_msg)
  ]

  -- `_oqs`, where it was imported
  module _ (oqs : Option Oqs) where
    unfoldable pub is_pqc_available : Bool
    is_pqc_available = elim oqs [ none ↦ false | some _ ↦ true ]

    -- The draws are the seed of liboqs, or the two keys of the simulation.
    unfoldable pub generate_kyber_keypair : Bytes → Bytes → Bytes × Bytes
    generate_kyber_keypair first second = elim oqs [
      | some lib ↦ lib.kem_keypair first
      | none ↦ (first, second)
    ]

    unfoldable pub kyber_encapsulate : Bytes → Bytes → Bytes → Caches → (Bytes × Bytes) × Caches
    kyber_encapsulate first second public_key c = elim oqs [
      | some lib ↦ (lib.encap_secret first public_key, c)
      | none ↦ encap first second c
    ]

    unfoldable pub kyber_decapsulate : Bytes → Bytes → Caches → Bytes
    kyber_decapsulate ciphertext secret_key c = elim oqs [
      | some lib ↦ lib.decap_secret secret_key ciphertext
      | none ↦ decap ciphertext secret_key c
    ]

    unfoldable pub generate_dilithium_keypair : Bytes → Bytes → Bytes × Bytes
    generate_dilithium_keypair first second = elim oqs [
      | some lib ↦ lib.signature_keypair first
      | none ↦ (first, second)
    ]

    unfoldable pub dilithium_sign : Bytes → Bytes → Bytes → Caches → Bytes × Caches
    dilithium_sign drawn message secret_key c = elim oqs [
      | some lib ↦ (lib.sign drawn secret_key message, c)
      | none ↦ sign drawn message secret_key c
    ]

    -- Without liboqs every signature is accepted, the simulated verification is not asked.
    unfoldable pub dilithium_verify : Bytes → Bytes → Bytes → Bool
    dilithium_verify message signature public_key = elim oqs [
      | some lib ↦ lib.verify message signature public_key
      | none ↦ true
    ]

    -- The four draws are those of a key pair, used where no public key is given, and those of the
    -- encapsulation.
    unfoldable pub pqc_encrypt :
        Bytes × Bytes
        → Bytes × Bytes
        → Bytes
        → Option Bytes
        → Caches
        → (Bytes × Bytes × Bytes) × Caches
    pqc_encrypt pair draws plaintext recipient_public_key c =
        let public_key : Bytes = elim recipient_public_key [
          | none ↦ (generate_kyber_keypair pair.0 pair.1).0
          | some k ↦ k
        ] in
        let (sent, left) = kyber_encapsulate draws.0 draws.1 public_key c in
        ((plaintext, sent.0, sent.1), left)

    unfoldable pub pqc_decrypt : Bytes → Bytes → Caches → Bytes
    pqc_decrypt encapsulated_key secret_key c = kyber_decapsulate encapsulated_key secret_key c
