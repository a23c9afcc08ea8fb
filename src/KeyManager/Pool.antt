-- ===== src/KeyManager/Pool.antt =====
-- `KeyPool` of key_manager/core/key_pool.py. A method takes the pool and gives its result beside the
-- pool that it leaves, which after an exception holds what was written before it. What a call draws
-- from outside (the time, the UUID, the bytes of `_secure_random`) is an argument. The lock admits one
-- method at a time, so a run is a sequence of calls.
pub mod Methods
pub mod Maintenance
pub mod Counters
pub mod Invariant
pub mod Preservation
pub mod Allocation
pub mod PadBytes
pub mod Runs
pub mod Pads
pub mod Consumption
pub mod Start
pub mod Service
use qu_mail.Prelude.{
  length, suc, ◌≡◌, ℕ, ◌+◌, String, Bool, Option, none, some, List, [], ◌∷◌, ◌++◌, Bytes, map,
  if◌then◌else◌, ap,
}
use qu_mail.Prelude.Int.{negsuc, ℤ, pos}
use qu_mail.Result.{Result, ok, err, key_error, value_error, Error}
use qu_mail.Dict.{erase, Dict, lookup, insert}
use qu_mail.KeyManager.KeyEntry.{KeyEntry, KeyDict, Codec, to_dict}

-- `_secure_random(size)`: the generator of backend/crypto_engine, or `os.urandom`. A call draws once at
-- most, so a source stands for what one call gets. A negative size is a ValueError of either.
pub record RandomSource : Type 0 where
  pub draw : ℤ → Result Bytes
  pub some_bytes : ℕ → Bytes
  pub draw_positive : (n : ℕ) → draw (pos (suc n)) ≡ ok (some_bytes (suc n))
  pub length-some_bytes : (n : ℕ) → length (some_bytes n) ≡ n
  pub draw_negative : (n : ℕ) → draw (negsuc n) ≡ err value_error

-- What `_persist` hands to `PersistentKeyStore.save`.
pub record Snapshot : Type 0 where
  pub keys : Dict KeyDict
  pub stats : Dict ℕ
  pub otp_pool_b64 : String
  pub otp_offset : ℕ
  pub aes_key_count : ℤ

-- The persistent store as the pool sees it: the data that it would load, and whether a save succeeds.
-- (`_persist` logs the exception of a save that fails and goes on.)
pub record Store : Type 0 where
  pub saved : Option Snapshot
  pub can_save : Bool

-- A line of the audit log: the action and the key.
pub record Logged : Type 0 where
  pub action : String
  pub key_id : String

pub record Pool : Type 0 where
  pub otp_pool : Bytes
  pub otp_offset : ℕ
  pub aes_key_count : ℤ
  pub allocated_keys : Dict KeyEntry
  pub user_quotas : Dict (Dict ℕ)
  pub stats : Dict ℕ
  -- `_persistent_store`, which is set only where persistence is enabled
  pub persistent_store : Option Store
  -- `_audit_logger`, with what was logged through it, oldest first
  pub audit : Option (List Logged)
  -- `_allocation_hooks`: `none` while the attribute does not exist, else the calls made to each hook
  pub hooks : Option (List (List (String × String)))
  -- the key objects that have left `_allocated_keys`, as the method that removed them leaves them:
  -- whoever holds a reference still sees the object
  pub released : List KeyEntry

-- A method's result and the pool that it leaves.
abbrev pub Outcome : Type 0 → Type 0
Outcome A = Result A × Pool

abbrev initial_stats : Dict ℕ
initial_stats =
    ("total_allocated", 0)
    ∷ ("total_consumed", 0)
    ∷ ("otp_bytes_used", 0)
    ∷ ("aes_keys_used", 0)
    ∷ []

-- `KeyPool.__init__`, where the caller has built the store and the logger from its settings.
pub new : Option Store → Bool → Pool
new store audit_path = record {
  otp_pool = [];
  otp_offset = 0;
  aes_key_count = pos 0;
  allocated_keys = [];
  user_quotas = [];
  stats = initial_stats;
  persistent_store = store;
  audit = elim store [ none ↦ none | some _ ↦ if audit_path then some [] else none ];
  hooks = none;
  released = [];
}

-- `if self._audit_logger: self._audit_logger.log(action, key_id, …)`
abbrev pub log : String → String → Pool → Pool
log action key_id p = record p {
  audit = elim p.audit [
    | none ↦ none
    | some lines ↦ some (lines ++ record { action = action; key_id = key_id } ∷ [])
  ];
}

-- A step of a method.
abbrev pub Action : Type 0 → Type 0
Action A = Pool → Outcome A

infixl 5 ◌>>=◌ ◌>>◌
abbrev pub ◌>>=◌ : {A B : Type 0} → Action A → (A → Action B) → Action B
◌>>=◌ m f p = let (r, p') = m p in elim r [ ok a ↦ f a p' | err e ↦ (err e, p') ]

abbrev pub ◌>>◌ : {B : Type 0} → Action (Unit {0}) → Action B → Action B
m >> k = m >>= λ _. k

abbrev pub continue : {A B : Type 0} → (A → Action B) → Outcome A → Outcome B
continue f x = elim x.0 [ ok a ↦ f a x.1 | err e ↦ (err e, x.1) ]

-- A step whose outcome is known.
bind_ok :
    {A B : Type 0} (m : Action A) (f : A → Action B) {p q : Pool} {a : A}
    → m p ≡ (ok a, q)
    → (m >>= f) p ≡ f a q
bind_ok m f e = ap (continue f) e

bind_err :
    {A B : Type 0} (m : Action A) (f : A → Action B) {p q : Pool} {e : Error}
    → m p ≡ (err e, q)
    → (m >>= f) p ≡ (err e, q)
bind_err m f e = ap (continue f) e

abbrev pub pure : {A : Type 0} → A → Action A
pure a p = (ok a, p)

abbrev pub lift : {A : Type 0} → Result A → Action A
lift r p = (r, p)

abbrev pub modify : (Pool → Pool) → Action (Unit {0})
modify f p = (ok tt, f p)

-- `self._stats[k] += n`: a counter that is not there is a KeyError.
pub bump : String → ℕ → Action (Unit {0})
bump k n p = elim (lookup k p.stats) [
  | none ↦ (err key_error, p)
  | some v ↦ (ok tt, record p { stats = insert k (v + n) p.stats })
]

-- `d.get(k, {})`, `d.get(k, 0)`
abbrev get_or_empty : Option (Dict ℕ) → Dict ℕ
get_or_empty none = []
get_or_empty (some d) = d

abbrev get_or_zero : Option ℕ → ℕ
get_or_zero none = 0
get_or_zero (some n) = n

-- `_update_user_quota`
pub update_user_quota : String → String → ℕ → Pool → Pool
update_user_quota user_id key_type delta p =
    let quota = get_or_empty (lookup user_id p.user_quotas) in
    let current = get_or_zero (lookup key_type quota) in
    record p {
      user_quotas = insert user_id (insert key_type (current + delta) quota) p.user_quotas;
    }

-- `_zeroize_key`: the bytes are overwritten, and the reference is cleared.
pub zeroize_key : KeyEntry → KeyEntry
zeroize_key e = record e { key_material = [] }

-- The entry leaves the dict, and its object is zeroized.
pub release : String → KeyEntry → Pool → Pool
unfolding zeroize_key
release key_id entry p = record p {
  allocated_keys = erase key_id p.allocated_keys;
  released = zeroize_key entry ∷ p.released;
}

module _ (codec : Codec) where
  abbrev pub snapshot : Pool → Snapshot
  snapshot p = record {
    keys = map (λ (kv : String × KeyEntry). (kv.0, to_dict codec kv.1)) p.allocated_keys;
    stats = p.stats;
    otp_pool_b64 = codec.b64encode p.otp_pool;
    otp_offset = p.otp_offset;
    aes_key_count = p.aes_key_count;
  }

  -- `_persist`
  unfoldable pub persist : Pool → Pool
  persist p = record p {
    persistent_store = elim p.persistent_store [
      | none ↦ none
      | some s ↦ some (if s.can_save then record s { saved = some (snapshot p) } else s)
    ];
  }
