-- ===== src/KeyStore/Capacity.antt =====
-- Proofs about key_store/memory_store.py.
use qu_mail.Prelude.{
  ℕ, String, ◌<◌, length, Bytes, ◌≡◌, ◌≤◌, Option, ◌⊎◌, ◌+◌, Bool-cases, some, leb, true, inl,
  eq_refl, arith, [], ◌∷◌, ltb, inr, refl, Option-cases, List-cases, leb→le, subst, leb→lt, sym,
  if◌then◌else◌,
}
use qu_mail.Dict.{Dict, lookup, contains, length-insert-le, lookup-insert, length-erase-lt, erase}
use qu_mail.KeyStore.Memory.{
  KeyEntry, MemoryKeyStore, count, store, get, put, evict_oldest, remove, oldest_of, zeroize_entry,
}

oldest_of-contains :
    (k : String) (t : ℕ) (d : Dict KeyEntry)
    → (oldest_of k t d ≡ k) ⊎ (contains (oldest_of k t d) d ≡ true)
unfolding oldest_of lookup
oldest_of-contains k t [] = inl refl
oldest_of-contains k t ((j, e) ∷ d) = elim (Bool-cases (ltb e.created_at t)) [
  | inl older ↦ rw older (elim (oldest_of-contains j e.created_at d) [
    | inl same ↦ inr (ground (arith, eq_refl j))
    | inr later ↦ inr (ground arith)
  ])
  | inr newer ↦
      rw newer
        (elim (oldest_of-contains k t d) [ inl same ↦ inl same | inr later ↦ inr (ground arith) ])
]

contains-lookup :
    (k : String) (d : Dict KeyEntry) → contains k d ≡ true → (e : KeyEntry) × (lookup k d ≡ some e)
contains-lookup k d h = elim (Option-cases (lookup k d)) [
  | inl missing ↦ absurd (ground arith)
  | inr held ↦ held
]

pub remove_lem :
    (k : String) (e : KeyEntry) (s : MemoryKeyStore)
    → lookup k s.entries ≡ some e
    → remove k s
      ≡ (true, record s { entries = erase k s.entries; removed = zeroize_entry e ∷ s.removed })
unfolding remove
remove_lem k e s held = ground arith

length-remove :
    (k : String) (s : MemoryKeyStore)
    → contains k s.entries ≡ true
    → length (remove k s).1.entries < length s.entries
length-remove k s h =
    let (e, held) = contains-lookup k s.entries h in
    rw (remove_lem k e s held) (length-erase-lt k e s.entries held)

-- The oldest entry is one of the dict.
contains-oldest_of :
    (x : String × KeyEntry) (xs : Dict KeyEntry)
    → contains (oldest_of x.0 x.1.created_at xs) (x ∷ xs) ≡ true
contains-oldest_of x xs = elim (oldest_of-contains x.0 x.1.created_at xs) [
  | inl same ↦ rw same (unfold lookup in ground (arith, eq_refl x.0))
  | inr later ↦ unfold lookup in ground arith
]

pub evict_oldest_lem :
    (x : String × KeyEntry) (xs : Dict KeyEntry) (s : MemoryKeyStore)
    → s.entries ≡ x ∷ xs
    → evict_oldest s ≡ (remove (oldest_of x.0 x.1.created_at xs) s).1
unfolding evict_oldest
evict_oldest_lem x xs s h = ground arith

length-evict_oldest :
    (s : MemoryKeyStore) → 0 < length s.entries → length (evict_oldest s).entries < length s.entries
length-evict_oldest s some_keys = elim (List-cases s.entries) [
  | inl nothing ↦ absurd (ground arith)
  | inr (x, xs, e) ↦
      (let k = oldest_of x.0 x.1.created_at xs in
        rw (evict_oldest_lem x xs s e)
          (length-remove k s (subst (λ d. contains k d ≡ true) (sym e) (contains-oldest_of x xs))))
]

length-put : (e : KeyEntry) (s : MemoryKeyStore) → length (put e s).entries ≤ length s.entries + 1
unfolding put
length-put e s = length-insert-le e.key_id e s.entries

-- A store for one key or more that holds no more than its maximum still does after `store`.
pub store-count :
    (now : ℕ) (key_id : String) (key_material : Bytes) (metadata : Option (Dict String))
    (s : MemoryKeyStore)
    → 1 ≤ s.max_keys
    → count s ≤ s.max_keys
    → count (store now key_id key_material metadata s) ≤ s.max_keys
unfolding count store
store-count now key_id key_material metadata s positive fits =
    elim (Bool-cases (leb s.max_keys (length s.entries))) [
      | inl full ↦ rw full (
          omega (
            arith,
            length-evict_oldest s
                (omega (arith, positive, leb→le s.max_keys (length s.entries) full)),
            length-put _ (evict_oldest s),
          ))
      | inr room ↦
          rw room (omega (arith, length-put _ s, leb→lt s.max_keys (length s.entries) room))
    ]

get_lem :
    (now : ℕ) (k : String) (e : KeyEntry) (s : MemoryKeyStore)
    → lookup k s.entries ≡ some e
    → (get now k s).0 ≡ some e.key_material
unfolding get
get_lem now k e s held = ground arith

put-lookup : (e : KeyEntry) (s : MemoryKeyStore) → lookup e.key_id (put e s).entries ≡ some e
unfolding put
put-lookup e s = rw lookup-insert (rw eq_refl refl)

-- What was just stored is what `get` returns.
pub store-get :
    (now later : ℕ) (key_id : String) (key_material : Bytes) (metadata : Option (Dict String))
    (s : MemoryKeyStore)
    → (get later key_id (store now key_id key_material metadata s)).0 ≡ some key_material
unfolding store
store-get now later key_id key_material metadata s =
    get_lem later key_id _ (store now key_id key_material metadata s)
      (put-lookup _ (if leb s.max_keys (length s.entries) then evict_oldest s else s))
