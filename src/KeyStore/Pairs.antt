-- ===== src/KeyStore/Pairs.antt =====
-- The key pairs of key_store/__init__.py: `get_private_key`, `store_private_key` and `get_public_key`. The
-- time, the nonces of the writes and the pair that `generate_kyber_keypair` would make are arguments.
pub mod Laws
use qu_mail.Result.{Result, ok, err}
use qu_mail.Prelude.{ℕ, String, Option, Bytes, some, none, [], ◌∷◌}
use qu_mail.KeyStore.Memory.{MemoryKeyStore, store, get}
use qu_mail.KeyStore.Encrypted.{EncryptedKeyStore, CacheCodec, store_key, read_key}
use qu_mail.Crypto.Primitives.{Aead}

-- `_memory_store` and `_encrypted_store`
pub record Stores : Type 0 where
  pub memory : MemoryKeyStore
  pub encrypted : Option EncryptedKeyStore

-- What a call draws: the time, two nonces and a key pair, the public key first.
pub record Draws : Type 0 where
  pub now : ℕ
  pub nonces : Bytes × Bytes
  pub pair : Bytes × Bytes

-- `f"{a}{b}"`
abbrev pub concat : String → String → String
concat String.[] t = t
concat (String.◌∷◌ c s) t = String.◌∷◌ c (concat s t)

abbrev pub private_name : String → String
private_name key_type = concat "private_" key_type

abbrev pub public_name : String → String
public_name key_type = concat "public_" key_type

-- `if key: … key`: an empty key counts as none.
abbrev pub truthy : Option Bytes → Option Bytes
truthy none = none
truthy (some []) = none
truthy (some (b ∷ bs)) = some (b ∷ bs)

-- `_memory_store.store(name, key)`
abbrev pub remember : ℕ → String → Bytes → Stores → Stores
remember now name key s = record s { memory = store now name key none s.memory }

module _ (aead : Aead) (codec : CacheCodec) where
  abbrev pub Saved : Type 0
  Saved = Result (Unit {0}) × EncryptedKeyStore

  -- A second write, where the first was no exception.
  abbrev pub then_save : Bytes → String → Bytes → Saved → Saved
  then_save nonce name key (err e, q) = (err e, q)
  then_save nonce name key (ok x, q) = store_key aead codec nonce name key q

  -- `if _encrypted_store: …`
  abbrev pub save_private :
      Draws
      → String
      → Bytes
      → Option Bytes
      → Option EncryptedKeyStore
      → Result (Unit {0}) × Option EncryptedKeyStore
  save_private d key_type private_key public_key none = (ok tt, none)
  save_private d key_type private_key public_key (some e) =
      let first = store_key aead codec d.nonces.0 (private_name key_type) private_key e in
      let both = elim public_key as (λ (k : Option Bytes). Saved) [
        | none ↦ first
        | some k ↦ then_save d.nonces.1 (public_name key_type) k first
      ] in
      (both.0, some both.1)

  abbrev pub saved_in :
      {A : Type 0} → A → Stores → Result (Unit {0}) × Option EncryptedKeyStore → Result A × Stores
  saved_in a s x = (elim x.0 [ ok _ ↦ ok a | err e ↦ err e ], record s { encrypted = x.1 })

  -- The last part of `get_private_key`: a new pair is made and stored.
  unfoldable pub make_pair : Draws → String → Stores → Result Bytes × Stores
  make_pair d key_type s =
      let s' =
        remember d.now (public_name key_type) d.pair.0
          (remember d.now (private_name key_type) d.pair.1 s) in
      saved_in d.pair.1 s' (save_private d key_type d.pair.1 (some d.pair.0) s'.encrypted)

  -- The middle part: the encrypted store is asked, and its key is kept in memory.
  abbrev pub loaded_or_made : Draws → String → Stores → Option Bytes → Result Bytes × Stores
  loaded_or_made d key_type s none = make_pair d key_type s
  loaded_or_made d key_type s (some k) = (ok k, remember d.now (private_name key_type) k s)

  pub load_private : Draws → String → Stores → Option EncryptedKeyStore → Result Bytes × Stores
  load_private d key_type s none = make_pair d key_type s
  load_private d key_type s (some e) =
      let found = read_key aead codec (private_name key_type) e in
      loaded_or_made d key_type (record s { encrypted = some found.1 }) (truthy found.0)

  abbrev pub held_or_loaded : Draws → String → Stores → Option Bytes → Result Bytes × Stores
  held_or_loaded d key_type s none = load_private d key_type s s.encrypted
  held_or_loaded d key_type s (some k) = (ok k, s)

  pub get_private_key : Draws → String → Stores → Result Bytes × Stores
  get_private_key d key_type s =
      let found = get d.now (private_name key_type) s.memory in
      held_or_loaded d key_type (record s { memory = found.1 }) (truthy found.0)

  -- An empty public key is not stored.
  pub store_private_key :
      Draws → String → Bytes → Option Bytes → Stores → Result (Unit {0}) × Stores
  store_private_key d key_type private_key public_key s =
      let s' = remember d.now (private_name key_type) private_key s in
      let s'' = elim (truthy public_key) as (λ (k : Option Bytes). Stores) [
        | none ↦ s'
        | some k ↦ remember d.now (public_name key_type) k s'
      ] in
      saved_in tt s'' (save_private d key_type private_key (truthy public_key) s''.encrypted)

  abbrev pub or_empty_key : Option Bytes → Bytes
  or_empty_key none = []
  or_empty_key (some k) = k

  -- `_memory_store.get(…) or b""`, after `get_private_key`
  pub public_after : Draws → String → Result Bytes × Stores → Result Bytes × Stores
  public_after d key_type (err e, s) = (err e, s)
  public_after d key_type (ok k, s) =
      let (key, memory) = get d.now (public_name key_type) s.memory in
      (ok (or_empty_key key), record s { memory = memory })

  abbrev pub public_or_after : Draws → String → Stores → Option Bytes → Result Bytes × Stores
  public_or_after d key_type s none = public_after d key_type (get_private_key d key_type s)
  public_or_after d key_type s (some k) = (ok k, s)

  pub get_public_key : Draws → String → Stores → Result Bytes × Stores
  get_public_key d key_type s =
      let found = get d.now (public_name key_type) s.memory in
      public_or_after d key_type (record s { memory = found.1 }) (truthy found.0)
