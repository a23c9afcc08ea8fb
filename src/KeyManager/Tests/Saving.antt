-- ===== src/KeyManager/Tests/Saving.antt =====
-- Witnesses for the persistent store, whose content is one number.
use qu_mail.Result.{ok}
use qu_mail.Prelude.{ℕ, replicate, Option, Bytes, ◌≡◌, some, none, ◌∷◌, suc, true, [], zero, refl}
use qu_mail.Crypto.Examples.{aead}
use qu_mail.KeyManager.PersistentStore.{
  PersistentKeyStore, Pbkdf2, Json, StoreData, open_store, initialize_store, read_file,
  decrypt_data, save, rotate_key, keyed, fresh_data,
}
use qu_mail.KeyManager.PersistentStore.Laws.{stamped, initialize_store-save, rotate_key-unreadable}

abbrev kdf : Pbkdf2
kdf = record { derive = λ password salt. replicate 32 9; length-derive = λ password salt. refl }

abbrev tagged : Option ℕ → Bytes → Bytes
tagged none bs = 0 ∷ 0 ∷ bs
tagged (some n) bs = 1 ∷ n ∷ bs

abbrev untagged : ℕ → ℕ → Option ℕ
untagged zero n = none
untagged (suc t) n = some n

abbrev parse : Bytes → Option (StoreData ℕ)
parse (c ∷ t ∷ v ∷ u ∷ w ∷ []) =
    some (record { content = c; version = untagged t v; saved_at = untagged u w })
parse _ = none

abbrev print : StoreData ℕ → Bytes
print d = d.content ∷ tagged d.version (tagged d.saved_at [])

parse-print_parts :
    (c : ℕ) (v w : Option ℕ)
    → parse (c ∷ tagged v (tagged w [])) ≡ some (record { content = c; version = v; saved_at = w })
parse-print_parts c none none = refl
parse-print_parts c none (some m) = refl
parse-print_parts c (some n) none = refl
parse-print_parts c (some n) (some m) = refl

pub parse-print : (d : StoreData ℕ) → parse (print d) ≡ some d
parse-print d = parse-print_parts d.content d.version d.saved_at

abbrev json : Json ℕ
json = record { dumps = print; loads = parse; no_content = 0; loads-dumps = λ d. parse-print d }

abbrev current : StoreData ℕ
current = record { content = 7; version = some 1; saved_at = none }

abbrev store : PersistentKeyStore
store = open_store none "old"

initialize_store-save_example :
    (q : PersistentKeyStore) × (save aead kdf json
        (replicate 12 2)
        50
        current
        (keyed aead kdf json (replicate 16 3) store)
      ≡ (ok tt, q))
    × ((initialize_store aead kdf json
          (replicate 16 4)
          (open_store q.file store.encryption_password)).0
        ≡ stamped 50 current)
initialize_store-save_example =
    initialize_store-save aead kdf json (replicate 12 2) (replicate 16 3) (replicate 16 4) 50
      current store refl refl

abbrev on_file : Bytes → PersistentKeyStore
on_file bs = record {
  file = some bs;
  salt = some (replicate 16 3);
  encryption_key = some (replicate 32 9);
  encryption_password = "old";
  initialized = true;
}

rotate_key-unreadable_example :
    (q : PersistentKeyStore) × (rotate_key aead kdf json
        (replicate 16 5)
        (replicate 16 6)
        (replicate 12 8)
        60
        "new"
        (on_file (1 ∷ []))
      ≡ (ok tt, q))
    × ((initialize_store aead kdf json (replicate 16 4) (open_store q.file "new")).0
        ≡ stamped 60 (fresh_data aead kdf json))
unfolding read_file decrypt_data
rotate_key-unreadable_example =
    rotate_key-unreadable aead kdf json (replicate 16 5) (replicate 16 6) (replicate 12 8) (1 ∷ [])
      (replicate 16 4) 60 "new" (on_file (1 ∷ [])) refl refl refl refl refl
