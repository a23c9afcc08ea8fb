-- ===== src/KeyStore/Tests.antt =====
-- Witnesses for the key store.
pub mod CharCode
mod KeyPairs
use qu_mail.Crypto.Examples.{aead}
use qu_mail.KeyStore.Encrypted.{
  CacheCodec, EncryptedKeyStore, open_cache, store_key, read_key, rotate_encryption_key,
}
use qu_mail.KeyStore.Durable.{read_key-store_key, read_key-rotate_encryption_key}
use qu_mail.KeyStore.Tests.CharCode.{print, scan, scan-print}
use qu_mail.Dict.{lookup}
use qu_mail.Result.{ok}
use qu_mail.Prelude.{◌∷◌, none, ◌≡◌, [], some, false, ◌≤◌, refl, arith, replicate}
use qu_mail.KeyStore.Memory.{MemoryKeyStore, KeyEntry, count, store, get}
use qu_mail.KeyStore.Lifecycle.{
  KeyLifecycle, LifecycleEntry, mark_consumed, mark_used, is_consumable, consumed,
}
use qu_mail.KeyStore.Session.{KeyStore, get_session_key, consume_session_key}
use qu_mail.KeyStore.Capacity.{store-count}
use qu_mail.KeyStore.Consumed.{
  Steps, consumed_is_final, mark_consumed-mark_consumed, done, then_step, use_any, consume_any,
}
use qu_mail.KeyStore.OneTime.{consume_session_key-once}

abbrev tracked : LifecycleEntry
tracked = record {
  key_id = "k";
  key_type = "aes";
  state = consumed;
  created_at = 5;
  reserved_at = none;
  used_at = none;
  consumed_at = some 6;
  expires_at = none;
}

abbrev lifecycle : KeyLifecycle
lifecycle = ("k", tracked) ∷ []

abbrev after_use : KeyLifecycle
after_use = (mark_used 8 "k" lifecycle).1

after_use-Steps : Steps "k" lifecycle (mark_consumed 9 "k" after_use).1
after_use-Steps =
    then_step lifecycle after_use (mark_consumed 9 "k" after_use).1 (use_any 8 "k" lifecycle) (
      then_step after_use (mark_consumed 9 "k" after_use).1 (mark_consumed 9 "k" after_use).1
        (consume_any 9 "k" after_use) (done (mark_consumed 9 "k" after_use).1))

consumed_is_final_example :
    (lookup "k" (mark_consumed 9 "k" after_use).1 ≡ some tracked)
    × (mark_consumed 10 "k" (mark_consumed 9 "k" after_use).1
        ≡ (false, (mark_consumed 9 "k" after_use).1))
unfolding lookup
consumed_is_final_example =
    consumed_is_final "k" tracked 10 lifecycle (mark_consumed 9 "k" after_use).1 after_use-Steps
      refl refl

mark_consumed-mark_consumed_example :
    (mark_consumed 8 "k" (mark_consumed 7 "k" lifecycle).1).0 ≡ false
mark_consumed-mark_consumed_example = mark_consumed-mark_consumed "k" 7 8 lifecycle

abbrev cache_codec : CacheCodec
cache_codec = record { serialize = print; deserialize = scan; deserialize-serialize = scan-print }

abbrev durable : EncryptedKeyStore
durable = open_cache none (replicate 32 6)

read_key-store_key_example :
    (q : EncryptedKeyStore) × (store_key aead cache_codec (replicate 12 2) "k" (4 ∷ 5 ∷ []) durable
      ≡ (ok tt, q))
    × ((read_key aead cache_codec "k" (open_cache q.file (replicate 32 6))).0 ≡ some (4 ∷ 5 ∷ []))
unfolding open_cache
read_key-store_key_example =
    read_key-store_key aead cache_codec (replicate 12 2) "k" 4 (5 ∷ []) durable refl refl
