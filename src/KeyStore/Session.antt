-- ===== src/KeyStore/Session.antt =====
-- The session keys of key_store/__init__.py: the two stores of the module, side by side.
use qu_mail.Prelude.{
  ℕ, String, Bool, Bytes, Option, some, false, if◌then◌else◌, ◌∷◌, [], true, none,
}
use qu_mail.KeyStore.Memory.{MemoryKeyStore, store, get, remove}
use qu_mail.KeyStore.Lifecycle.{KeyLifecycle, track, mark_consumed}

-- `_memory_store` and `_lifecycle`
pub record KeyStore : Type 0 where
  pub memory : MemoryKeyStore
  pub lifecycle : KeyLifecycle

unfoldable pub store_session_key : ℕ → String → Bytes → String → KeyStore → KeyStore
unfolding store track
store_session_key now key_id key_material key_type s = record {
  memory = store now key_id key_material (some (("type", key_type) ∷ [])) s.memory;
  lifecycle = track now key_id key_type s.lifecycle;
}

unfoldable pub get_session_key : ℕ → String → KeyStore → Option Bytes × KeyStore
unfolding get
get_session_key now key_id s =
    let (key, memory) = get now key_id s.memory in (key, record s { memory = memory })

-- `if key:`, which takes an empty key for none
abbrev pub is_truthy : Option Bytes → Bool
is_truthy none = false
is_truthy (some []) = false
is_truthy (some (b ∷ bs)) = true

unfoldable pub consume_session_key : ℕ → String → KeyStore → Option Bytes × KeyStore
unfolding get remove mark_consumed
consume_session_key now key_id s =
    let (key, memory) = get now key_id s.memory in
    (
      key,
      if is_truthy key
          then record {
            memory = (remove key_id memory).1;
            lifecycle = (mark_consumed now key_id s.lifecycle).1;
          }
          else record s { memory = memory },
    )
