-- ===== src/KeyStore/Encrypted.antt =====
-- `EncryptedKeyStore` of key_store/encrypted_store.py. The file is its bytes; writing the temporary file
-- and renaming it is one step. The nonce of a write is an argument. The JSON of base64 texts that
-- `_serialize` makes is the parameter `CacheCodec`.
use qu_mail.Prelude.{
  String, Bool, List, Bytes, Option, if◌then◌else◌, map, none, ◌≡◌, [], ◌∷◌, some, false, true,
}
use qu_mail.Dict.{Dict, lookup, insert, contains, erase}
use qu_mail.Result.{Result, ok, err}
use qu_mail.Crypto.Primitives.{Aead}
use qu_mail.Crypto.AesGcm.{aes_encrypt_combined, aes_decrypt_combined}

-- `_serialize` and `_deserialize`; `none` is an exception.
pub record CacheCodec : Type 0 where
  pub serialize : Dict Bytes → Bytes
  pub deserialize : Bytes → Option (Dict Bytes)
  pub deserialize-serialize : (d : Dict Bytes) → deserialize (serialize d) ≡ some d

pub record EncryptedKeyStore : Type 0 where
  pub file : Option Bytes
  pub encryption_key : Bytes
  pub cache : Dict Bytes
  pub initialized : Bool
  -- the byte arrays that the store has let go of, as it left them
  pub released : List Bytes

-- `__init__`
unfoldable pub open_cache : Option Bytes → Bytes → EncryptedKeyStore
open_cache file encryption_key = record {
  file = file;
  encryption_key = encryption_key;
  cache = [];
  initialized = false;
  released = [];
}

-- `_zeroize`
abbrev pub zeros : Bytes → Bytes
zeros bs = map (λ b. 0) bs

module _ (aead : Aead) (codec : CacheCodec) where
  -- The keys of a file; one that cannot be read has none.
  unfoldable pub read_cache : Bytes → Bytes → Dict Bytes
  unfolding aes_decrypt_combined
  read_cache encrypted_data key = elim (aes_decrypt_combined aead encrypted_data key []) [
    | err e ↦ []
    | ok decrypted ↦ elim (codec.deserialize decrypted) [ none ↦ [] | some d ↦ d ]
  ]

  -- `initialize`
  unfoldable pub initialize_cache : EncryptedKeyStore → EncryptedKeyStore
  unfolding read_cache
  initialize_cache s = record s {
    cache = elim s.file [ none ↦ [] | some bs ↦ read_cache bs s.encryption_key ];
    initialized = true;
  }

  -- `if not self._initialized: await self.initialize()`
  unfoldable pub ensure_initialized : EncryptedKeyStore → EncryptedKeyStore
  unfolding initialize_cache
  ensure_initialized s = if s.initialized then s else initialize_cache s

  -- `_persist`
  unfoldable pub persist_cache : Bytes → EncryptedKeyStore → Result (Unit {0}) × EncryptedKeyStore
  unfolding aes_encrypt_combined
  persist_cache nonce s =
      elim (aes_encrypt_combined aead nonce (codec.serialize s.cache) s.encryption_key []) [
        | err e ↦ (err e, s)
        | ok encrypted ↦ (ok tt, record s { file = some encrypted })
      ]

  -- A byte array that the cache has under the key is zeroized.
  abbrev pub let_go : String → EncryptedKeyStore → List Bytes
  let_go key_id s = elim (lookup key_id s.cache) [
    | none ↦ s.released
    | some old ↦ zeros old ∷ s.released
  ]

  -- `store`
  unfoldable pub store_key :
      Bytes → String → Bytes → EncryptedKeyStore → Result (Unit {0}) × EncryptedKeyStore
  unfolding ensure_initialized persist_cache
  store_key nonce key_id key_material s =
      let s' = ensure_initialized s in
      persist_cache nonce
        (record s' { cache = insert key_id key_material s'.cache; released = let_go key_id s' })

  -- `get`: an empty key counts as none.
  unfoldable pub read_key : String → EncryptedKeyStore → Option Bytes × EncryptedKeyStore
  unfolding ensure_initialized
  read_key key_id s =
      let s' = ensure_initialized s in
      (
        elim (lookup key_id s'.cache) [
          | none ↦ none
          | some material ↦ elim material [ [] ↦ none | b ∷ bs ↦ some (b ∷ bs) ]
        ],
        s',
      )

  -- `remove`
  unfoldable remove_key : Bytes → String → EncryptedKeyStore → Result Bool × EncryptedKeyStore
  unfolding ensure_initialized persist_cache
  remove_key nonce key_id s =
      let s' = ensure_initialized s in
      if contains key_id s'.cache
      then (let (r, q) =
            persist_cache nonce
              (record s' { cache = erase key_id s'.cache; released = let_go key_id s' }) in
          (elim r [ ok x ↦ ok true | err e ↦ err e ], q))
      else (ok false, s')

  -- `list_keys`
  unfoldable listed_keys : EncryptedKeyStore → List String × EncryptedKeyStore
  unfolding ensure_initialized
  listed_keys s =
      let s' = ensure_initialized s in (map (λ (kv : String × Bytes). kv.0) s'.cache, s')

  -- `rotate_encryption_key`: the old key is zeroized.
  unfoldable pub rotate_encryption_key :
      Bytes → Bytes → EncryptedKeyStore → Result (Unit {0}) × EncryptedKeyStore
  unfolding ensure_initialized persist_cache
  rotate_encryption_key nonce new_key s =
      let s' = ensure_initialized s in
      persist_cache nonce
        (record s' { encryption_key = new_key; released = zeros s'.encryption_key ∷ s'.released })

zeroize_cache : Dict Bytes → List Bytes → List Bytes
zeroize_cache [] released = released
zeroize_cache ((k, bs) ∷ d) released = zeroize_cache d (zeros bs ∷ released)

-- `clear`, with `_secure_delete`: the file is gone.
unfoldable clear_cache : EncryptedKeyStore → EncryptedKeyStore
unfolding zeroize_cache
clear_cache s = record s { file = none; cache = []; released = zeroize_cache s.cache s.released }
