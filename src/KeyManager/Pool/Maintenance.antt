-- ===== src/KeyManager/Pool/Maintenance.antt =====
-- `KeyPool`: start, restore, expiry, shutdown and the statistics.
use qu_mail.Prelude.{
  ℕ, ◌+◌, ◌-◌, String, Bool, false, Option, none, some, [], ◌∷◌, ◌++◌, length, map, ltb, str_eq,
  if◌then◌else◌,
}
use qu_mail.Prelude.Int.{ℤ, pos}
use qu_mail.Result.{Result, ok, err, key_error, attribute_error, value_error}
use qu_mail.Dict.{Dict, lookup, insert}
use qu_mail.KeyManager.KeyEntry.{KeyEntry, KeyDict, Codec, from_dict}
use qu_mail.KeyManager.Pool.{
  Pool, RandomSource, Snapshot, Action, ◌>>=◌, ◌>>◌, lift, modify, log, persist, zeroize_key,
  release,
}

-- `get_key`, the entry that the dict refers to.
unfoldable pub get_key : String → Action (Option KeyEntry)
get_key key_id p = (ok (lookup key_id p.allocated_keys), p)

-- `register_allocation_hook`: the attribute may not exist.
unfoldable pub register_allocation_hook : Action (Unit {0})
register_allocation_hook p = elim p.hooks [
  | none ↦ (err attribute_error, p)
  | some hs ↦ (ok tt, record p { hooks = some (hs ++ [] ∷ []) })
]

-- `entry.expires_at and entry.expires_at < now`
abbrev pub is_expired : ℕ → KeyEntry → Bool
is_expired now entry = elim entry.expires_at [ none ↦ false | some t ↦ ltb t now ]

-- The comprehension `expired`, and the loop over it.
unfoldable pub expired_keys : ℕ → Dict KeyEntry → Dict KeyEntry
expired_keys now [] = []
expired_keys now ((k, e) ∷ d) =
    let rest = expired_keys now d in if is_expired now e then (k, e) ∷ rest else rest

unfoldable pub release_all : Dict KeyEntry → Pool → Pool
unfolding release
release_all [] p = p
release_all ((k, e) ∷ d) p = release_all d (log "EXPIRE" k (release k e p))

-- `for entry in self._allocated_keys.values(): self._zeroize_key(entry)`
unfoldable pub zeroize_values : Dict KeyEntry → Dict KeyEntry
unfolding zeroize_key
zeroize_values [] = []
zeroize_values ((k, e) ∷ d) = (k, zeroize_key e) ∷ zeroize_values d

pub record PoolStats : Type 0 where
  pub otp_available : ℕ
  pub otp_total : ℕ
  pub otp_used : ℕ
  pub aes_available : ℤ
  pub total_allocated : ℕ
  pub total_consumed : ℕ
  pub keys_in_memory : ℕ

-- `self._stats[k]`
abbrev counter : String → Pool → Result ℕ
counter k p = elim (lookup k p.stats) [ none ↦ err key_error | some v ↦ ok v ]

-- `get_stats`, without the two flags that only copy the configuration and the entropy check.
unfoldable pub get_stats : Action PoolStats
get_stats = do
  allocated ← (λ p. (counter "total_allocated" p, p))
  used ← (λ p. (counter "total_consumed" p, p))
  λ p. (
    ok (record {
      otp_available = length p.otp_pool - p.otp_offset;
      otp_total = length p.otp_pool;
      otp_used = p.otp_offset;
      aes_available = p.aes_key_count;
      total_allocated = allocated;
      total_consumed = used;
      keys_in_memory = length p.allocated_keys;
    }),
    p,
  )

-- `get_user_stats`: how many keys of the user are held, and how many of them are consumed.
count_user : String → Dict KeyEntry → ℕ × ℕ
count_user user_id [] = (0, 0)
count_user user_id ((k, e) ∷ d) =
    let (held, used) = count_user user_id d in
    if str_eq e.user_id user_id
    then (held + 1, (if e.consumed then used + 1 else used))
    else (held, used)

unfoldable pub get_user_stats : String → Action (ℕ × ℕ)
unfolding count_user
get_user_stats user_id p = (ok (count_user user_id p.allocated_keys), p)

-- `self._persistent_store.initialize()`, where the store has data: a new file, or one that cannot be
-- read, gives empty data.
abbrev pub stored_data : Pool → Option Snapshot
stored_data p = elim p.persistent_store [ none ↦ none | some store ↦ store.saved ]

module _ (codec : Codec) where
  unfoldable pub cleanup_expired : ℕ → Action ℕ
  unfolding persist release_all expired_keys
  cleanup_expired now p =
      let expired = expired_keys now p.allocated_keys in
      let q = release_all expired p in
      (ok (length expired), elim expired [ [] ↦ q | e ∷ es ↦ persist codec q ])

  unfoldable pub shutdown : Action (Unit {0})
  unfolding persist zeroize_values
  shutdown = do
    modify (persist codec)
    modify (λ p. record p {
      otp_pool = map (λ b. 0) p.otp_pool;
      allocated_keys = zeroize_values p.allocated_keys;
    })

  -- The keys of the store: one that cannot be read is skipped.
  unfoldable pub restore_keys : Dict KeyDict → Dict KeyEntry → Dict KeyEntry
  restore_keys [] held = held
  restore_keys ((k, d) ∷ ds) held =
      restore_keys ds (elim (from_dict codec d) [ ok e ↦ insert k e held | err _ ↦ held ])

  -- The generating half of `initialize`, which ends by creating the list of hooks.
  unfoldable pub generate_pool : RandomSource → ℕ → ℕ → Action (Unit {0})
  unfolding persist
  generate_pool src otp_bytes aes_keys = do
    material ← lift (src.draw (pos otp_bytes))
    modify (λ p. record p { otp_pool = material; otp_offset = 0; aes_key_count = pos aes_keys })
    modify (persist codec)
    modify (λ p. record p { hooks = some [] })

  -- `initialize`. A store that holds keys is restored; where it also holds an OTP pool, the method
  -- returns before it creates the hooks.
  unfoldable pub initialize : RandomSource → ℕ → ℕ → Action (Unit {0})
  unfolding generate_pool restore_keys
  initialize src otp_bytes aes_keys p = elim (stored_data p) [
    | none ↦ generate_pool src otp_bytes aes_keys p
    | some data_saved ↦ elim data_saved.keys [
      | [] ↦ generate_pool src otp_bytes aes_keys p
      | d ∷ ds ↦
          (let q : Pool = record p {
            allocated_keys = restore_keys (d ∷ ds) p.allocated_keys;
            stats = data_saved.stats;
          } in
            if str_eq data_saved.otp_pool_b64 ""
            then generate_pool src otp_bytes aes_keys q
            else elim (codec.b64decode data_saved.otp_pool_b64) [
              | none ↦ (err value_error, q)
              | some material ↦ (
                ok tt,
                record q {
                  otp_pool = material;
                  otp_offset = data_saved.otp_offset;
                  aes_key_count = data_saved.aes_key_count;
                },
              )
            ])
    ]
  ]
