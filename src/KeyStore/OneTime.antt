-- ===== src/KeyStore/OneTime.antt =====
-- Proofs about the session keys of key_store/__init__.py.
use qu_mail.Dict.{lookup, insert, lookup-erase, lookup-insert}
use qu_mail.Prelude.{
  ℕ, String, Bytes, ◌≡◌, some, none, arith, ◌∷◌, Option-cases, [], inl, inr, ◌∙◌, refl, eq_refl, ap,
  sym,
}
use qu_mail.KeyStore.Memory.{KeyEntry, MemoryKeyStore, get, remove}
use qu_mail.KeyStore.Lifecycle.{mark_consumed}
use qu_mail.KeyStore.Capacity.{store-get, remove_lem}
use qu_mail.KeyStore.Session.{KeyStore, consume_session_key, store_session_key, get_session_key}

held_lem :
    (now : ℕ) (k : String) (e : KeyEntry) (s : MemoryKeyStore)
    → lookup k s.entries ≡ some e
    → get now k s ≡ (
      some e.key_material,
      record s { entries = insert k (record e { accessed_at = some now }) s.entries },
    )
unfolding get
held_lem now k e s held = ground arith

pub gone_lem :
    (now : ℕ) (k : String) (s : MemoryKeyStore)
    → lookup k s.entries ≡ none
    → get now k s ≡ (none, s)
unfolding get
gone_lem now k s missing = ground arith

some_injective : {x y : Bytes} → some x ≡ some y → x ≡ y
some_injective e = ground arith

-- The outcome, from that of `get`.
consume_lem :
    (now : ℕ) (k : String) (b : ℕ) (bs : Bytes) (m : MemoryKeyStore) (s : KeyStore)
    → get now k s.memory ≡ (some (b ∷ bs), m)
    → consume_session_key now k s ≡ (
      some (b ∷ bs),
      record { memory = (remove k m).1; lifecycle = (mark_consumed now k s.lifecycle).1 },
    )
unfolding consume_session_key
consume_lem now k b bs m s got = rw got

removed_lem :
    (k : String) (e : KeyEntry) (m : MemoryKeyStore)
    → lookup k m.entries ≡ some e
    → lookup k (remove k m).1.entries ≡ none
removed_lem k e m held = rw (remove_lem k e m held) (rw lookup-erase (rw eq_refl refl))

consumed_first :
    (now : ℕ) (k : String) (s : KeyStore) → (consume_session_key now k s).0 ≡ (get now k s.memory).0
unfolding consume_session_key
consumed_first now k s = refl

-- After a key was consumed, the store in memory does not have it.
consumed-gone :
    (now : ℕ) (k : String) (b : ℕ) (bs : Bytes) (s : KeyStore)
    → (consume_session_key now k s).0 ≡ some (b ∷ bs)
    → lookup k (consume_session_key now k s).1.memory.entries ≡ none
consumed-gone now k b bs s h = elim (Option-cases (lookup k s.memory.entries)) [
  | inl missing ↦ absurd (ground (arith, gone_lem now k s.memory missing, consumed_first now k s))
  | inr (e, held) ↦
      (let got = held_lem now k e s.memory held in
        let m : MemoryKeyStore = record s.memory {
          entries = insert k (record e { accessed_at = some now }) s.memory.entries;
        } in
        let same : e.key_material ≡ b ∷ bs =
          some_injective (ap (λ x. x.0) (sym got) ∙ sym (consumed_first now k s) ∙ h) in
        rw (consume_lem now k b bs m s (got ∙ ap (λ (x : Bytes). (some x, m)) same)) (
          removed_lem k (record e { accessed_at = some now }) m
            (rw lookup-insert (rw eq_refl refl))))
]

-- A consumption that gives a key that is not empty is the last one to: both `get_session_key` and
-- `consume_session_key` find no key afterwards.
pub consume_session_key-once :
    (now later : ℕ) (k : String) (b : ℕ) (bs : Bytes) (s : KeyStore)
    → (consume_session_key now k s).0 ≡ some (b ∷ bs)
    → ((get_session_key later k (consume_session_key now k s).1).0 ≡ none)
      × ((consume_session_key later k (consume_session_key now k s).1).0 ≡ none)
consume_session_key-once now later k b bs s h =
    let q = (consume_session_key now k s).1 in
    let gone = gone_lem later k q.memory (consumed-gone now k b bs s h) in
    (unfold get_session_key in rw gone, unfold consume_session_key in ground (arith, gone))

-- A session key that is not empty is consumed as it was stored.
consume_session_key-store_session_key :
    (now later : ℕ) (k : String) (key_material : Bytes) (key_type : String) (s : KeyStore)
    → (consume_session_key later k (store_session_key now k key_material key_type s)).0
      ≡ some key_material
unfolding consume_session_key store_session_key
consume_session_key-store_session_key now later k key_material key_type s =
    store-get now later k key_material (some (("type", key_type) ∷ [])) s.memory
