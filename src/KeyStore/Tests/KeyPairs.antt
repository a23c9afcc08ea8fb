-- ===== src/KeyStore/Tests/KeyPairs.antt =====
-- Witnesses for the key pairs of the key store.
use qu_mail.Dict.{lookup}
use qu_mail.Result.{ok}
use qu_mail.Prelude.{none, [], some, replicate, ◌≡◌, ◌∷◌, true, refl}
use qu_mail.Crypto.Examples.{aead}
use qu_mail.KeyStore.Memory.{MemoryKeyStore}
use qu_mail.KeyStore.Encrypted.{EncryptedKeyStore, CacheCodec, read_key}
use qu_mail.KeyStore.Pairs.{Stores, Draws, get_private_key, get_public_key, store_private_key}
use qu_mail.KeyStore.Pairs.Laws.{get_public_key-restarted, get_private_key-store_private_key}
use qu_mail.KeyStore.Tests.CharCode.{print, scan, scan-print}

abbrev pair_codec : CacheCodec
pair_codec = record { serialize = print; deserialize = scan; deserialize-serialize = scan-print }

abbrev sealed_store : EncryptedKeyStore
sealed_store = record {
  file = none;
  encryption_key = replicate 32 6;
  cache = ("private_pqc", 4 ∷ []) ∷ ("public_pqc", 5 ∷ []) ∷ [];
  initialized = true;
  released = [];
}

abbrev fresh_memory : MemoryKeyStore
fresh_memory = record { entries = []; max_keys = 10; removed = [] }

abbrev restarted : Stores
restarted = record { memory = fresh_memory; encrypted = some sealed_store }

abbrev draws : Draws
draws = record { now = 7; nonces = (replicate 12 1, replicate 12 2); pair = (8 ∷ [], 9 ∷ []) }

get_public_key-restarted_example :
    ((get_private_key aead pair_codec draws "pqc" restarted).0 ≡ ok (4 ∷ []))
    × ((get_public_key aead pair_codec draws "pqc" restarted).0 ≡ ok [])
unfolding read_key lookup
get_public_key-restarted_example =
    get_public_key-restarted aead pair_codec draws "pqc" 4 [] sealed_store sealed_store restarted
      refl refl refl refl

get_private_key-store_private_key_example :
    (get_private_key aead pair_codec draws "pqc"
      (store_private_key aead pair_codec draws "pqc" (3 ∷ []) none restarted).1).0
    ≡ ok (3 ∷ [])
get_private_key-store_private_key_example =
    get_private_key-store_private_key aead pair_codec draws draws "pqc" 3 [] restarted
