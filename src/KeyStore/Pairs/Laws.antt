-- ===== src/KeyStore/Pairs/Laws.antt =====
-- Proofs about the key pairs of key_store/__init__.py.
use Prim.Native.Char.{code}
use qu_mail.Result.{ok}
use qu_mail.Dict.{lookup, lookup-insert, lookup-erase}
use qu_mail.Prelude.{
  ℕ, String, Bytes, some, none, [], ◌∷◌, str_eq, ◌≡◌, false, arith, List-cases, Bool-cases, inl, ap,
  inr, eq_iff, leb, length, refl,
}
use qu_mail.KeyStore.Memory.{MemoryKeyStore, store, put, remove, evict_oldest}
use qu_mail.KeyStore.Encrypted.{EncryptedKeyStore, CacheCodec, read_key}
use qu_mail.KeyStore.Capacity.{store-get, evict_oldest_lem}
use qu_mail.KeyStore.OneTime.{gone_lem}
use qu_mail.KeyStore.Pairs.{
  Stores, Draws, private_name, public_name, remember, load_private, get_private_key,
  store_private_key, public_after, get_public_key,
}
use qu_mail.Crypto.Primitives.{Aead}

abbrev second : String → ℕ
second (String.◌∷◌ c (String.◌∷◌ d s)) = code d
second _ = 0

names_differ : (kt : String) → str_eq (private_name kt) (public_name kt) ≡ false
names_differ kt = elim (Bool-cases (str_eq (private_name kt) (public_name kt))) [
  | inl same ↦
      absurd (ground (arith, ap second ((eq_iff (private_name kt) (public_name kt)).0 same)))
  | inr other ↦ other
]

remove-missing :
    (j k : String) (s : MemoryKeyStore)
    → lookup j s.entries ≡ none
    → lookup j (remove k s).1.entries ≡ none
unfolding remove
remove-missing j k s h = ground (arith, lookup-erase k j s.entries)

evict_oldest-missing :
    (j : String) (s : MemoryKeyStore)
    → lookup j s.entries ≡ none
    → lookup j (evict_oldest s).entries ≡ none
unfolding evict_oldest
evict_oldest-missing j s h = elim (List-cases s.entries) [
  | inl nothing ↦ ground arith
  | inr (x, xs, e) ↦ rw (evict_oldest_lem x xs s e) (remove-missing j _ s h)
]

-- An entry that is not in the store, and is not the one that is stored, is not in it afterwards.
store-missing :
    (now : ℕ) (j k : String) (bs : Bytes) (s : MemoryKeyStore)
    → str_eq k j ≡ false
    → lookup j s.entries ≡ none
    → lookup j (store now k bs none s).entries ≡ none
unfolding store put
store-missing now j k bs s differ h = elim (Bool-cases (leb s.max_keys (length s.entries))) [
  | inl full ↦ rw full (rw lookup-insert (rw differ (evict_oldest-missing j s h)))
  | inr room ↦ rw room (rw lookup-insert (rw differ h))
]

module _ (aead : Aead) (codec : CacheCodec) where
  loaded_lem :
      (d : Draws) (kt : String) (b : ℕ) (bs : Bytes) (e e' : EncryptedKeyStore) (s : Stores)
      → read_key aead codec (private_name kt) e ≡ (some (b ∷ bs), e')
      → load_private aead codec d kt s (some e) ≡ (
        ok (b ∷ bs),
        remember d.now (private_name kt) (b ∷ bs) (record s { encrypted = some e' }),
      )
  unfolding load_private
  loaded_lem d kt b bs e e' s read = rw read refl

  private_lem :
      (d : Draws) (kt : String) (b : ℕ) (bs : Bytes) (e e' : EncryptedKeyStore) (s : Stores)
      → lookup (private_name kt) s.memory.entries ≡ none
      → s.encrypted ≡ some e
      → read_key aead codec (private_name kt) e ≡ (some (b ∷ bs), e')
      → get_private_key aead codec d kt s ≡ (
        ok (b ∷ bs),
        remember d.now (private_name kt) (b ∷ bs) (record s { encrypted = some e' }),
      )
  unfolding get_private_key load_private
  private_lem d kt b bs e e' s missing sealed read =
      rw (gone_lem d.now (private_name kt) s.memory missing)
        (rw sealed (loaded_lem d kt b bs e e' s read))

  -- After a restart the public key is lost: where the memory has neither key of a pair and the encrypted
  -- store has the private key, `get_private_key` gives that key, but `get_public_key` gives the empty
  -- key, whatever public key the encrypted store has.
  pub get_public_key-restarted :
      (d : Draws) (kt : String) (b : ℕ) (bs : Bytes) (e e' : EncryptedKeyStore) (s : Stores)
      → lookup (private_name kt) s.memory.entries ≡ none
      → lookup (public_name kt) s.memory.entries ≡ none
      → s.encrypted ≡ some e
      → read_key aead codec (private_name kt) e ≡ (some (b ∷ bs), e')
      → ((get_private_key aead codec d kt s).0 ≡ ok (b ∷ bs))
        × ((get_public_key aead codec d kt s).0 ≡ ok [])
  unfolding get_public_key public_after
  get_public_key-restarted d kt b bs e e' s no_private no_public sealed read =
      let left = remember d.now (private_name kt) (b ∷ bs) (record s { encrypted = some e' }) in
      let found = private_lem d kt b bs e e' s no_private sealed read in
      (
        ap (λ x. x.0) found,
        rw (gone_lem d.now (public_name kt) s.memory no_public) (
            rw found (
              rw
                (gone_lem d.now (public_name kt) left.memory (
                  store-missing d.now (public_name kt) (private_name kt) (b ∷ bs) s.memory
                    (names_differ kt) no_public))
                refl)),
      )

  -- A private key that is stored alone and is not empty is the one that `get_private_key` gives, whether
  -- or not the write to the encrypted store succeeded.
  pub get_private_key-store_private_key :
      (d later : Draws) (kt : String) (b : ℕ) (bs : Bytes) (s : Stores)
      → (get_private_key aead codec later kt
          (store_private_key aead codec d kt (b ∷ bs) none s).1).0
        ≡ ok (b ∷ bs)
  unfolding get_private_key store_private_key
  get_private_key-store_private_key d later kt b bs s =
      ground (arith, store-get d.now later.now (private_name kt) (b ∷ bs) none s.memory)
