-- ===== src/KeyManager/Pool/Start.antt =====
-- How a pool starts: with nothing to restore, and from a store that was saved.
use qu_mail.Prelude.Int.{pos}
use qu_mail.Result.{ok, err, attribute_error}
use qu_mail.Prelude.{
  ℕ, String, Bool, Option, false, ◌<◌, ◌≡◌, refl, Option-cases, length, none, inl, [], inr, ◌∙◌,
  true, arith, false≢true, ◌≢◌, str_eq, map, sym, Bool-cases, eq_iff, ap, Bytes, ◌+◌, List-cases,
}
use qu_mail.Dict.{Dict, lookup, insert, lookup-nil, lookup-insert}
use qu_mail.KeyManager.KeyEntry.{KeyEntry, KeyDict, Codec, to_dict, from_dict-to_dict}
use qu_mail.KeyManager.Pool.{
  Pool, Store, RandomSource, Snapshot, snapshot, new, initial_stats, Option, some, ok, length, pos,
  ◌∷◌, persist, map, err, ap, Bytes,
}
use qu_mail.KeyManager.Pool.Counters.{Counters, live}
use qu_mail.KeyManager.Pool.Invariant.{IsValid, draw-pos}
use qu_mail.KeyManager.Pool.Methods.{allocate_key, draw_aes, enter_key, otp_type}
use qu_mail.KeyManager.Pool.Maintenance.{
  initialize, generate_pool, restore_keys, register_allocation_hook, get_key,
}

-- Whether the store has keys to restore.
abbrev has_keys : Option Store → Bool
has_keys none = false
has_keys (some s) = elim s.saved [
  | none ↦ false
  | some d ↦ elim d.keys [ [] ↦ false | x ∷ xs ↦ true ]
]

initial : Counters initial_stats 0 0 0 0
unfolding lookup
initial = record {
  total_allocated = refl;
  total_consumed = refl;
  otp_bytes_used = refl;
  aes_keys_used = refl;
}

module _ (codec : Codec) where
  generated :
      (src : RandomSource) (otp_bytes aes_keys : ℕ) (store : Option Store) (audit_path : Bool)
      → has_keys store ≡ false
      → initialize codec src otp_bytes aes_keys (new store audit_path)
        ≡ generate_pool codec src otp_bytes aes_keys (new store audit_path)
  unfolding initialize new
  generated src otp_bytes aes_keys none audit_path h = refl
  generated src otp_bytes aes_keys (some s) audit_path h = elim (Option-cases s.saved) [
    | inl nothing ↦ rw nothing
    | inr (d, there) ↦ elim (List-cases d.keys) [
      | inl nothing ↦ rw there (rw nothing)
      | inr (x, xs, some_keys) ↦ absurd (false≢true (sym (rw some_keys at (rw there at h))))
    ]
  ]

  -- With nothing to restore and some OTP bytes to draw, `initialize` succeeds and leaves a valid pool
  -- that holds as many OTP bytes and AES keys as asked for, and no keys.
  pub initialize-IsValid :
      (src : RandomSource) (otp_bytes aes_keys : ℕ) (store : Option Store) (audit_path : Bool)
      → 0 < otp_bytes
      → has_keys store ≡ false
      → (q : Pool) × (initialize codec src otp_bytes aes_keys (new store audit_path) ≡ (ok tt, q))
        × IsValid q
        × (length q.otp_pool ≡ otp_bytes)
        × (q.aes_key_count ≡ pos aes_keys)
        × (q.allocated_keys ≡ [])
  initialize-IsValid src otp_bytes aes_keys store audit_path positive empty =
      let drawn = draw-pos src otp_bytes positive in
      (
        (generate_pool codec src otp_bytes aes_keys (new store audit_path)).1,
        generated src otp_bytes aes_keys store audit_path empty
            ∙ (unfold generate_pool in rw drawn refl),
        (unfold generate_pool new persist live in
            rw drawn (record {
              allocated = 0;
              consumed = 0;
              aes = 0;
              offset_in_pool = omega arith;
              counters = initial;
              balance = omega arith;
              zeroized = tt;
              hooked = λ h. cc;
            })),
        (unfold generate_pool persist in rw drawn (src.length-some_bytes otp_bytes)),
        (unfold generate_pool persist in rw drawn refl),
        (unfold generate_pool new persist in rw drawn refl),
      )

-- The keys of a dict differ.
unfoldable pub AllDistinct : Dict KeyEntry → Type 0
AllDistinct [] = Unit
AllDistinct ((k, e) ∷ d) = (lookup k d ≡ none) × AllDistinct d

abbrev or_else {ℓ} : {A : Type ℓ} → Option A → Option A → Option A
or_else none y = y
or_else (some x) y = some x

module _ (codec : Codec) where
  restore_keys_cons :
      (k : String) (e : KeyEntry) (ds : Dict KeyDict) (held : Dict KeyEntry)
      → restore_keys codec ((k, to_dict codec e) ∷ ds) held
        ≡ restore_keys codec ds (insert k e held)
  unfolding restore_keys
  restore_keys_cons k e ds held = rw (from_dict-to_dict codec e)

  restore_keys_lem :
      (j : String) (d held : Dict KeyEntry)
      → AllDistinct d
      → lookup j
          (restore_keys codec (map (λ (kv : String × KeyEntry). (kv.0, to_dict codec kv.1)) d) held)
        ≡ or_else (lookup j d) (lookup j held)
  unfolding restore_keys AllDistinct lookup
  restore_keys_lem j [] held h = refl
  restore_keys_lem j ((k, e) ∷ d) held h =
      ap (lookup j) (
        restore_keys_cons k e (map (λ (kv : String × KeyEntry). (kv.0, to_dict codec kv.1)) d) held)
      ∙ restore_keys_lem j d (insert k e held) h.1
      ∙ rw lookup-insert (elim (Bool-cases (str_eq k j)) [
        | inr other ↦ rw other
        | inl same ↦ rw same (rw (rw ((eq_iff k j).0 same) at h.0))
      ])

  restoring :
      (src : RandomSource) (otp_bytes aes_keys : ℕ) (q : Pool) (s : Store) (d : Snapshot)
      (material : Bytes) (x : String × KeyDict) (xs : Dict KeyDict)
      → q.persistent_store ≡ some s
      → s.saved ≡ some d
      → d.keys ≡ x ∷ xs
      → str_eq d.otp_pool_b64 "" ≡ false
      → codec.b64decode d.otp_pool_b64 ≡ some material
      → initialize codec src otp_bytes aes_keys q ≡ (
        ok tt,
        record q {
          allocated_keys = restore_keys codec d.keys q.allocated_keys;
          stats = d.stats;
          otp_pool = material;
          otp_offset = d.otp_offset;
          aes_key_count = d.aes_key_count;
        },
      )
  unfolding initialize
  restoring src otp_bytes aes_keys q s d material x xs stored saved keys some_bytes decoded =
      ground arith

  -- The pool that a restart makes of the saved one.
  abbrev restored : Pool → Store → Bool → Pool
  restored p s audit_path = record (new (some s) audit_path) {
    allocated_keys = restore_keys codec (snapshot codec p).keys [];
    stats = p.stats;
    otp_pool = p.otp_pool;
    otp_offset = p.otp_offset;
    aes_key_count = p.aes_key_count;
  }

  restored_lem :
      (src : RandomSource) (otp_bytes aes_keys : ℕ) (audit_path : Bool) (p : Pool) (s : Store)
      → s.saved ≡ some (snapshot codec p)
      → p.allocated_keys ≢ []
      → str_eq (codec.b64encode p.otp_pool) "" ≡ false
      → initialize codec src otp_bytes aes_keys (new (some s) audit_path)
        ≡ (ok tt, restored p s audit_path)
  unfolding new
  restored_lem src otp_bytes aes_keys audit_path p s saved some_keys some_bytes =
      elim (List-cases p.allocated_keys) [
        | inl nothing ↦ absurd (some_keys nothing)
        | inr (x, xs, keys) ↦
            restoring src otp_bytes aes_keys (new (some s) audit_path) s (snapshot codec p)
              p.otp_pool (x.0, to_dict codec x.1)
              (map (λ (kv : String × KeyEntry). (kv.0, to_dict codec kv.1)) xs) refl saved (rw keys)
              some_bytes (codec.decode-encode p.otp_pool)
      ]

  -- Restart. From a store that holds what `_persist` wrote of a pool with keys and OTP bytes,
  -- `initialize` succeeds and brings back the OTP pool and its offset, the AES count, the counters and,
  -- under every id, the key.
  pub initialize-persist :
      (src : RandomSource) (otp_bytes aes_keys : ℕ) (audit_path : Bool) (p : Pool) (s : Store)
      → s.saved ≡ some (snapshot codec p)
      → p.allocated_keys ≢ []
      → AllDistinct p.allocated_keys
      → str_eq (codec.b64encode p.otp_pool) "" ≡ false
      → (q : Pool) × (initialize codec src otp_bytes aes_keys (new (some s) audit_path)
          ≡ (ok tt, q))
        × (q.otp_pool ≡ p.otp_pool)
        × (q.otp_offset ≡ p.otp_offset)
        × (q.aes_key_count ≡ p.aes_key_count)
        × (q.stats ≡ p.stats)
        × ((key_id : String) → get_key key_id q ≡ (ok (lookup key_id p.allocated_keys), q))
  unfolding get_key new
  initialize-persist src otp_bytes aes_keys audit_path p s saved some_keys distinct some_bytes = (
    restored p s audit_path,
    restored_lem src otp_bytes aes_keys audit_path p s saved some_keys some_bytes,
    refl,
    refl,
    refl,
    refl,
    λ key_id.
        rw (restore_keys_lem key_id p.allocated_keys [] distinct)
          (elim (Option-cases (lookup key_id p.allocated_keys)) [
            | inl missing ↦ rw missing (rw lookup-nil)
            | inr (e, held) ↦ rw held
          ]),
  )

  hookless :
      (src : RandomSource) (uuid : String) (now : ℕ) (peer : String) (size : ℕ) (kind user : String)
      (p q : Pool)
      → IsValid p
      → q.stats ≡ p.stats
      → q.hooks ≡ none
      → 0 < size
      → str_eq kind otp_type ≡ false
      → (allocate_key codec src uuid now peer size kind user q).0 ≡ err attribute_error
  unfolding allocate_key draw_aes enter_key
  hookless src uuid now peer size kind user p q v same none_left positive other =
      let drawn = draw-pos src size positive in
      let used = v.counters.aes_keys_used in
      let total = v.counters.total_allocated in
      rw other (
        rw drawn (
          ground (
            arith,
            lookup-insert "aes_keys_used" "total_allocated" (v.aes + 1) q.stats,
            same,
            none_left,
            used,
            total,
          )))

  -- After a restart from what `_persist` wrote of a valid pool with keys and OTP bytes, the pool has no
  -- list of hooks: registering one, which the server does next, raises an AttributeError, and so does
  -- every allocation of a positive size of a type other than OTP.
  pub restart_without_hooks :
      (src : RandomSource) (otp_bytes aes_keys : ℕ) (audit_path : Bool) (p : Pool) (s : Store)
      (uuid : String) (now : ℕ) (peer : String) (size : ℕ) (kind user : String)
      → s.saved ≡ some (snapshot codec p)
      → p.allocated_keys ≢ []
      → str_eq (codec.b64encode p.otp_pool) "" ≡ false
      → IsValid p
      → 0 < size
      → str_eq kind otp_type ≡ false
      → (q : Pool) × (initialize codec src otp_bytes aes_keys (new (some s) audit_path)
          ≡ (ok tt, q))
        × ((register_allocation_hook q).0 ≡ err attribute_error)
        × ((allocate_key codec src uuid now peer size kind user q).0 ≡ err attribute_error)
  unfolding register_allocation_hook new
  restart_without_hooks src otp_bytes aes_keys audit_path p s uuid now peer size kind user saved
        some_keys some_bytes v positive other =
      (
        restored p s audit_path,
        restored_lem src otp_bytes aes_keys audit_path p s saved some_keys some_bytes,
        refl,
        hookless src uuid now peer size kind user p (restored p s audit_path) v refl refl positive
            other,
      )
