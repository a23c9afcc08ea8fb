-- ===== src/KeyManager/PersistentStore.antt =====
-- `PersistentKeyStore` of key_manager/core/persistent_store.py. The file is its bytes; writing the
-- temporary file and renaming it is one step. The salts, nonces and times that a call draws are
-- arguments.
pub mod Laws
use qu_mail.Prelude.{
  ℕ, String, Bool, List, Bytes, Option, some, none, length, ◌≡◌, false, ◌++◌, take, true, [],
  if◌then◌else◌, drop, ltb,
}
use qu_mail.Result.{Result, ok, err, runtime_error}
use qu_mail.Crypto.Primitives.{Aead}
use qu_mail.Crypto.AesGcm.{or_invalid_tag}

-- `PBKDF2HMAC(SHA256, 32 bytes, salt, iterations).derive(password.encode("utf-8"))`
pub record Pbkdf2 : Type 0 where
  pub derive : String → Bytes → Bytes
  pub length-derive : (password : String) (salt : Bytes) → length (derive password salt) ≡ 32

-- The dict that is saved: what the pool put in, and the two keys that the store adds (of the time, whose
-- ISO text is saved, the time itself).
pub record StoreData (D : Type 0) : Type 0 where
  pub content : D
  pub version : Option ℕ
  pub saved_at : Option ℕ

-- `json.dumps(data).encode("utf-8")` and `json.loads(text.decode("utf-8"))`; `none` is an exception.
-- The content `no_content` has no keys and no counters.
pub record Json (D : Type 0) : Type 0 where
  pub dumps : StoreData D → Bytes
  pub loads : Bytes → Option (StoreData D)
  pub no_content : D
  pub loads-dumps : (d : StoreData D) → loads (dumps d) ≡ some d

pub record PersistentKeyStore : Type 0 where
  pub file : Option Bytes
  pub salt : Option Bytes
  pub encryption_key : Option Bytes
  pub encryption_password : String
  pub initialized : Bool

abbrev pub salt_size : ℕ
salt_size = 16

abbrev pub store_version : ℕ
store_version = 1

-- `__init__`, on the file at the path.
pub open_store : Option Bytes → String → PersistentKeyStore
open_store file encryption_password = record {
  file = file;
  salt = none;
  encryption_key = none;
  encryption_password = encryption_password;
  initialized = false;
}

module _ (aead : Aead) (kdf : Pbkdf2) {D : Type 0} (json : Json D) where
  -- `_aes_encrypt`, `_aes_decrypt`
  encrypt_data : Bytes → Bytes → Bytes → Bytes
  encrypt_data nonce plaintext key = nonce ++ aead.seal key nonce plaintext []

  unfoldable pub decrypt_data : Bytes → Bytes → Option Bytes
  decrypt_data ciphertext key = aead.unseal key (take 12 ciphertext) (drop 12 ciphertext) []

  -- `_migrate`
  migrate : StoreData D → StoreData D
  migrate d = record d { version = some store_version }

  abbrev version_of : StoreData D → ℕ
  version_of d = elim d.version [ none ↦ 0 | some n ↦ n ]

  -- `{"keys": {}, "stats": {}, "version": STORE_VERSION}`
  abbrev pub fresh_data : StoreData D
  fresh_data = record { content = json.no_content; version = some store_version; saved_at = none }

  -- A store with a new salt, and the key that the password gives with it.
  abbrev pub keyed : Bytes → PersistentKeyStore → PersistentKeyStore
  keyed salt s = record s {
    salt = some salt;
    encryption_key = some (kdf.derive s.encryption_password salt);
    initialized = true;
  }

  -- The data of a file, where it can be decrypted and parsed.
  unfoldable pub read_file : Bytes → String → Option (StoreData D)
  unfolding decrypt_data migrate
  read_file raw_data password =
      let key = kdf.derive password (take salt_size raw_data) in
      elim (decrypt_data (drop salt_size raw_data) key) [
        | none ↦ none
        | some decrypted ↦ elim (json.loads decrypted) [
          | none ↦ none
          | some d ↦ some (if ltb (version_of d) store_version then migrate d else d)
        ]
      ]

  -- `_load`: what cannot be read is an empty store under a new salt.
  pub load : Bytes → Bytes → PersistentKeyStore → StoreData D × PersistentKeyStore
  unfolding read_file
  load new_salt raw_data s = elim (read_file raw_data s.encryption_password) [
    | some d ↦ (d, keyed (take salt_size raw_data) s)
    | none ↦ (fresh_data, keyed new_salt s)
  ]

  -- `initialize`
  pub initialize_store : Bytes → PersistentKeyStore → StoreData D × PersistentKeyStore
  unfolding load
  initialize_store new_salt s = elim s.file [
    | none ↦ (fresh_data, keyed new_salt s)
    | some raw_data ↦ load new_salt raw_data s
  ]

  abbrev or_no_bytes : Option Bytes → Bytes
  or_no_bytes none = []
  or_no_bytes (some bs) = bs

  -- `save`
  pub save : Bytes → ℕ → StoreData D → PersistentKeyStore → Result (Unit {0}) × PersistentKeyStore
  unfolding encrypt_data
  save nonce now data_saved s =
      if s.initialized
      then (
        ok tt,
        record s {
          file = some (
              or_no_bytes s.salt
              ++ encrypt_data nonce
                  (json.dumps
                    (record data_saved { version = some store_version; saved_at = some now }))
                  (or_no_bytes s.encryption_key));
        },
      )
      else (err runtime_error, s)

  -- `rotate_key`
  pub rotate_key :
      Bytes
      → Bytes
      → Bytes
      → ℕ
      → String
      → PersistentKeyStore
      → Result (Unit {0}) × PersistentKeyStore
  unfolding load save
  rotate_key load_salt new_salt nonce now new_password s =
      if s.initialized
      then (let (current, s') =
            elim s.file as (λ (f : Option Bytes). StoreData D × PersistentKeyStore) [
              | none ↦ (record { content = json.no_content; version = none; saved_at = none }, s)
              | some raw_data ↦ load load_salt raw_data s
            ] in
          save nonce now current
            (keyed new_salt (record s' { encryption_password = new_password })))
      else (err runtime_error, s)

-- `secure_delete`: the file is overwritten and removed, or just removed.
unfoldable secure_delete : PersistentKeyStore → PersistentKeyStore
secure_delete s = record s { file = none }
