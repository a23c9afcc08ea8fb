-- ===== src/KeyStore/Memory.antt =====
-- `MemoryKeyStore` of key_store/memory_store.py. The time of a call is an argument.
use qu_mail.Prelude.{
  ℕ, String, Bool, List, Bytes, [], map, Option, length, ◌∷◌, if◌then◌else◌, some, none, false, ltb,
  leb, true,
}
use qu_mail.Dict.{Dict, lookup, insert, contains, erase}

pub record KeyEntry : Type 0 where
  pub key_id : String
  pub key_material : Bytes
  pub created_at : ℕ
  pub metadata : Dict String
  pub accessed_at : Option ℕ

pub record MemoryKeyStore : Type 0 where
  pub entries : Dict KeyEntry
  pub max_keys : ℕ
  -- the entry objects that have left the dict, as they were left
  pub removed : List KeyEntry

-- `__init__`
unfoldable pub new : ℕ → MemoryKeyStore
new max_keys = record { entries = []; max_keys = max_keys; removed = [] }

-- `_zeroize_entry`: every byte of the bytearray is set to 0.
pub zeroize_entry : KeyEntry → KeyEntry
zeroize_entry e = record e { key_material = map (λ b. 0) e.key_material }

-- `remove`
unfoldable pub remove : String → MemoryKeyStore → Bool × MemoryKeyStore
unfolding zeroize_entry
remove key_id s = elim (lookup key_id s.entries) [
  | none ↦ (false, s)
  | some e ↦
      (true, record s { entries = erase key_id s.entries; removed = zeroize_entry e ∷ s.removed })
]

-- `min(…, key=created_at)` from a first candidate on: the first of the oldest.
unfoldable pub oldest_of : String → ℕ → Dict KeyEntry → String
oldest_of k t [] = k
oldest_of k t ((j, e) ∷ d) =
    let (k', t') = if ltb e.created_at t then (j, e.created_at) else (k, t) in oldest_of k' t' d

-- `_evict_oldest`
unfoldable pub evict_oldest : MemoryKeyStore → MemoryKeyStore
unfolding remove oldest_of
evict_oldest s = elim s.entries [ [] ↦ s | x ∷ xs ↦ (remove (oldest_of x.0 x.1.created_at xs) s).1 ]

-- The rest of `store`: an entry that is replaced is zeroized.
unfoldable pub put : KeyEntry → MemoryKeyStore → MemoryKeyStore
unfolding zeroize_entry
put e s = record s {
  entries = insert e.key_id e s.entries;
  removed = elim (lookup e.key_id s.entries) [
    | none ↦ s.removed
    | some old ↦ zeroize_entry old ∷ s.removed
  ];
}

abbrev pub or_empty : Option (Dict String) → Dict String
or_empty none = []
or_empty (some d) = d

-- `store`
unfoldable pub store : ℕ → String → Bytes → Option (Dict String) → MemoryKeyStore → MemoryKeyStore
unfolding evict_oldest put
store now key_id key_material metadata s =
    let s' = if leb s.max_keys (length s.entries) then evict_oldest s else s in
    put
      (record {
        key_id = key_id;
        key_material = key_material;
        created_at = now;
        metadata = or_empty metadata;
        accessed_at = none;
      })
      s'

-- `get`
unfoldable pub get : ℕ → String → MemoryKeyStore → Option Bytes × MemoryKeyStore
get now key_id s = elim (lookup key_id s.entries) [
  | none ↦ (none, s)
  | some e ↦ (
    some e.key_material,
    record s { entries = insert key_id (record e { accessed_at = some now }) s.entries },
  )
]

-- `contains`, `count`, `get_metadata`, `list_keys`
unfoldable pub has : String → MemoryKeyStore → Bool
has key_id s = contains key_id s.entries

unfoldable pub count : MemoryKeyStore → ℕ
count s = length s.entries

unfoldable get_metadata : String → MemoryKeyStore → Option (Dict String)
get_metadata key_id s = elim (lookup key_id s.entries) [ none ↦ none | some e ↦ some e.metadata ]

unfoldable pub list_keys : MemoryKeyStore → List String
list_keys s = map (λ (kv : String × KeyEntry). kv.0) s.entries

zeroize_entries : Dict KeyEntry → List KeyEntry → List KeyEntry
unfolding zeroize_entry
zeroize_entries [] removed = removed
zeroize_entries ((k, e) ∷ d) removed = zeroize_entries d (zeroize_entry e ∷ removed)

-- `clear`
unfoldable pub clear : MemoryKeyStore → MemoryKeyStore
unfolding zeroize_entries
clear s = record s { entries = []; removed = zeroize_entries s.entries s.removed }
