-- ===== src/KeyManager/PersistentStore/Laws.antt =====
-- Proofs about `PersistentKeyStore` of key_manager/core/persistent_store.py, across restarts.
use qu_mail.Result.{ok}
use qu_mail.Prelude.{
  String, some, Bytes, ◌++◌, length, ◌≡◌, [], true, take-append_self, none, refl, drop-append_self,
  ap₂, arith, take, ◌∙◌, drop, ℕ,
}
use qu_mail.Crypto.Primitives.{Aead}
use qu_mail.KeyManager.PersistentStore.{
  PersistentKeyStore, Pbkdf2, Json, StoreData, open_store, initialize_store, load, read_file, save,
  rotate_key, encrypt_data, decrypt_data, keyed, store_version, fresh_data, some, Bytes, length, [],
  ok, true, none, take, drop, ℕ,
}

-- The data as it stands in the file.
abbrev pub stamped : {D : Type 0} → ℕ → StoreData D → StoreData D
stamped now d = record d { version = some store_version; saved_at = some now }

module _ (aead : Aead) (kdf : Pbkdf2) {D : Type 0} (json : Json D) where
  -- The bytes that a save writes.
  abbrev image : String → Bytes → Bytes → ℕ → StoreData D → Bytes
  image password salt nonce now d =
      salt
      ++ encrypt_data aead kdf json nonce (json.dumps (stamped now d)) (kdf.derive password salt)

  decrypt-encrypt :
      (nonce plaintext key : Bytes)
      → length nonce ≡ 12
      → decrypt_data aead kdf json (encrypt_data aead kdf json nonce plaintext key) key
        ≡ some plaintext
  unfolding decrypt_data encrypt_data
  decrypt-encrypt nonce plaintext key hn =
      let sealed = aead.seal key nonce plaintext [] in
      ap₂ (λ n c. aead.unseal key n c []) (take-append_self 12 nonce sealed hn)
        (drop-append_self 12 nonce sealed hn)
      ∙ aead.unseal-seal key nonce plaintext []

  read_file_lem :
      (raw salt encrypted plaintext : Bytes) (password : String) (now : ℕ) (d : StoreData D)
      → take 16 raw ≡ salt
      → drop 16 raw ≡ encrypted
      → decrypt_data aead kdf json encrypted (kdf.derive password salt) ≡ some plaintext
      → json.loads plaintext ≡ some (stamped now d)
      → read_file aead kdf json raw password ≡ some (stamped now d)
  unfolding read_file
  read_file_lem raw salt encrypted plaintext password now d front back decrypted parsed =
      ground arith

  read_file-image :
      (password : String) (salt nonce : Bytes) (now : ℕ) (d : StoreData D)
      → length salt ≡ 16
      → length nonce ≡ 12
      → read_file aead kdf json (image password salt nonce now d) password ≡ some (stamped now d)
  read_file-image password salt nonce now d hs hn =
      let key = kdf.derive password salt in
      let plaintext = json.dumps (stamped now d) in
      let encrypted = encrypt_data aead kdf json nonce plaintext key in
      read_file_lem (salt ++ encrypted) salt encrypted plaintext password now d
        (take-append_self 16 salt encrypted hs) (drop-append_self 16 salt encrypted hs)
        (decrypt-encrypt nonce plaintext key hn) (json.loads-dumps (stamped now d))

  saved_lem :
      (nonce salt : Bytes) (now : ℕ) (d : StoreData D) (s : PersistentKeyStore)
      → save aead kdf json nonce now d (keyed aead kdf json salt s) ≡ (
        ok tt,
        record (keyed aead kdf json salt s) {
          file = some (image s.encryption_password salt nonce now d);
        },
      )
  unfolding save
  saved_lem nonce salt now d s = refl

  loaded_lem :
      (raw new_salt : Bytes) (password : String) (d : StoreData D)
      → read_file aead kdf json raw password ≡ some d
      → (initialize_store aead kdf json new_salt (open_store (some raw) password)).0 ≡ d
  unfolding initialize_store load open_store
  loaded_lem raw new_salt password d readable = ground arith

  -- A store that was given a 16-byte salt saves successfully, and a later start on the file with the
  -- same password loads the content that was saved, stamped with the version and the time.
  pub initialize_store-save :
      (nonce salt new_salt : Bytes) (now : ℕ) (d : StoreData D) (s : PersistentKeyStore)
      → length salt ≡ 16
      → length nonce ≡ 12
      → (q : PersistentKeyStore) × (save aead kdf json nonce now d (keyed aead kdf json salt s)
          ≡ (ok tt, q))
        × ((initialize_store aead kdf json new_salt (open_store q.file s.encryption_password)).0
            ≡ stamped now d)
  initialize_store-save nonce salt new_salt now d s hs hn = (
    _,
    saved_lem nonce salt now d s,
    loaded_lem (image s.encryption_password salt nonce now d) new_salt s.encryption_password
        (stamped now d) (read_file-image s.encryption_password salt nonce now d hs hn),
  )

  rotated_empty :
      (load_salt new_salt nonce raw : Bytes) (now : ℕ) (password : String) (s : PersistentKeyStore)
      → s.initialized ≡ true
      → s.file ≡ some raw
      → read_file aead kdf json raw s.encryption_password ≡ none
      → (q : PersistentKeyStore) × (rotate_key aead kdf json load_salt new_salt nonce now password s
          ≡ (ok tt, q))
        × (q.file ≡ some (image password new_salt nonce now (fresh_data aead kdf json)))
  unfolding rotate_key load save
  rotated_empty load_salt new_salt nonce raw now password s ready there unreadable = (
    record {
      file = some (image password new_salt nonce now (fresh_data aead kdf json));
      salt = some new_salt;
      encryption_key = some (kdf.derive password new_salt);
      encryption_password = password;
      initialized = true;
    },
    ground arith,
    refl,
  )

  rotated_lem :
      (load_salt new_salt nonce raw : Bytes) (now : ℕ) (password : String) (d : StoreData D)
      (s : PersistentKeyStore)
      → s.initialized ≡ true
      → s.file ≡ some raw
      → read_file aead kdf json raw s.encryption_password ≡ some d
      → (rotate_key aead kdf json load_salt new_salt nonce now password s).1.file
        ≡ some (image password new_salt nonce now d)
  unfolding rotate_key load save
  rotated_lem load_salt new_salt nonce raw now password d s ready there readable = ground arith

  -- A rotation of the key on a file that can be read keeps the data: a later start with the new password
  -- loads the same content, stamped with the version and the time of the rotation.
  pub initialize_store-rotate_key :
      (load_salt new_salt nonce raw start_salt : Bytes) (now : ℕ) (password : String)
      (d : StoreData D) (s : PersistentKeyStore)
      → s.initialized ≡ true
      → s.file ≡ some raw
      → read_file aead kdf json raw s.encryption_password ≡ some d
      → length new_salt ≡ 16
      → length nonce ≡ 12
      → (initialize_store aead kdf json start_salt (
          open_store
            (rotate_key aead kdf json load_salt new_salt nonce now password s).1.file
            password)).0
        ≡ stamped now d
  initialize_store-rotate_key load_salt new_salt nonce raw start_salt now password d s ready there
        readable hs hn =
      rw (rotated_lem load_salt new_salt nonce raw now password d s ready there readable) (
        loaded_lem (image password new_salt nonce now d) start_salt password (stamped now d)
          (read_file-image password new_salt nonce now d hs hn))

  -- A rotation of the key on a file that cannot be read succeeds and loses the data: a later start with
  -- the new password loads an empty store.
  pub rotate_key-unreadable :
      (load_salt new_salt nonce raw start_salt : Bytes) (now : ℕ) (password : String)
      (s : PersistentKeyStore)
      → s.initialized ≡ true
      → s.file ≡ some raw
      → read_file aead kdf json raw s.encryption_password ≡ none
      → length new_salt ≡ 16
      → length nonce ≡ 12
      → (q : PersistentKeyStore) × (rotate_key aead kdf json load_salt new_salt nonce now password s
          ≡ (ok tt, q))
        × ((initialize_store aead kdf json start_salt (open_store q.file password)).0
            ≡ stamped now (fresh_data aead kdf json))
  rotate_key-unreadable load_salt new_salt nonce raw start_salt now password s ready there
        unreadable hs hn =
      let (q, e, written) =
        rotated_empty load_salt new_salt nonce raw now password s ready there unreadable in
      (
        q,
        e,
        rw written (
            loaded_lem (image password new_salt nonce now (fresh_data aead kdf json)) start_salt
              password (stamped now (fresh_data aead kdf json))
              (read_file-image password new_salt nonce now (fresh_data aead kdf json) hs hn)),
      )
