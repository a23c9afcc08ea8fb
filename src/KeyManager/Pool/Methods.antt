-- ===== src/KeyManager/Pool/Methods.antt =====
-- The methods of `KeyPool`.
use qu_mail.Prelude.{
  ℕ, ◌+◌, ◌*◌, max, String, Bool, true, false, none, some, List, [], ◌∷◌, ◌++◌, Bytes, length, take,
  drop, map, ltb, str_eq, if◌then◌else◌,
}
use qu_mail.Prelude.Int.{ℤ, pos, negsuc, ◌+ℤ◌, leb_ℤ}
use qu_mail.Result.{ok, err, attribute_error}
use qu_mail.Dict.{lookup, insert, contains}
use qu_mail.KeyManager.KeyEntry.{KeyEntry, Codec}
use qu_mail.KeyManager.Pool.{
  RandomSource, Action, ◌>>=◌, ◌>>◌, pure, lift, modify, bump, log, persist, update_user_quota,
  release,
}

abbrev pub otp_type : String
otp_type = "otp"

-- `timedelta(days=1)`
abbrev pub one_day : ℕ
one_day = 86400 * 1000000

-- `_trigger hooks`: every hook is called; an exception in one is logged and dropped.
abbrev run_hooks : String → String → Action (Unit {0})
run_hooks peer_id key_id p = elim p.hooks [
  | none ↦ (err attribute_error, p)
  | some hs ↦ (
    ok tt,
    record p {
      hooks = some (map (λ (h : List (String × String)). h ++ (peer_id, key_id) ∷ []) hs);
    },
  )
]

abbrev pub new_entry : String → ℕ → String → String → String → Bytes → KeyEntry
new_entry uuid now peer_id key_type user_id key_material = record {
  key_id = uuid;
  key_material = key_material;
  peer_id = peer_id;
  key_type = key_type;
  created_at = now;
  user_id = user_id;
  expires_at = some (now + one_day);
  consumed = false;
  consumed_at = none;
}

module _ (codec : Codec) where
  -- The OTP branch of `allocate_key`: it replenishes the pool when it is short, and cuts the next
  -- `size` bytes off it.
  unfoldable pub replenish_otp : RandomSource → ℕ → Action (Unit {0})
  unfolding persist
  replenish_otp src size p =
      if ltb (length p.otp_pool) (p.otp_offset + size)
      then (do
        new_material ← lift (src.draw (pos (max (size * 2) 10240)))
        modify (λ q. persist codec (record q { otp_pool = q.otp_pool ++ new_material })))
          p
      else (ok tt, p)

  unfoldable pub cut_otp : ℕ → Action Bytes
  unfolding bump
  cut_otp size p =
      let key_material = take size (drop p.otp_offset p.otp_pool) in
      (do
        modify (λ q. record q { otp_offset = q.otp_offset + size })
        bump "otp_bytes_used" size
        pure key_material)
        p

  -- The other branch: a fresh key, counted against the AES keys.
  unfoldable pub draw_aes : RandomSource → ℕ → Action Bytes
  unfolding bump
  draw_aes src size = do
    modify (λ q. if leb_ℤ q.aes_key_count (pos 0) then record q { aes_key_count = pos 1000 } else q)
    key_material ← lift (src.draw (pos size))
    modify (λ q. record q { aes_key_count = q.aes_key_count +ℤ negsuc 0 })
    bump "aes_keys_used" 1
    pure key_material

  -- The rest of `allocate_key`: from the entry on.
  unfoldable pub enter_key : KeyEntry → Action KeyEntry
  unfolding bump persist update_user_quota
  enter_key entry = do
    modify (λ q. record q { allocated_keys = insert entry.key_id entry q.allocated_keys })
    bump "total_allocated" 1
    modify (update_user_quota entry.user_id entry.key_type 1)
    modify (persist codec)
    modify (log "ALLOCATE" entry.key_id)
    run_hooks entry.peer_id entry.key_id
    pure entry

  unfoldable pub allocate_key :
      RandomSource → String → ℕ → String → ℕ → String → String → Action KeyEntry
  unfolding replenish_otp cut_otp draw_aes enter_key
  allocate_key src uuid now peer_id size key_type user_id = do
    key_material ←
        (if str_eq key_type otp_type
          then replenish_otp src size >> cut_otp size
          else draw_aes src size)
    enter_key (new_entry uuid now peer_id key_type user_id key_material)

  unfoldable pub inject_key : KeyEntry → Action (Unit {0})
  unfolding bump persist
  inject_key entry p =
      if contains entry.key_id p.allocated_keys
      then (ok tt, p)
      else (do
        modify (λ q. record q { allocated_keys = insert entry.key_id entry q.allocated_keys })
        bump "total_allocated" 1
        modify (persist codec)
        modify (log "INJECT" entry.key_id))
          p

  unfoldable pub consume_key : ℕ → String → Action Bool
  unfolding bump persist
  consume_key now key_id p = elim (lookup key_id p.allocated_keys) [
    | none ↦ (ok false, p)
    | some entry ↦
        if entry.consumed
        then (ok false, p)
        else (do
          modify (λ q. record q {
            allocated_keys =
                insert key_id (record entry { consumed = true; consumed_at = some now })
                  q.allocated_keys;
          })
          bump "total_consumed" 1
          modify (persist codec)
          modify (log "CONSUME" key_id)
          pure true)
            p
  ]

  unfoldable pub delete_key : String → Action Bool
  unfolding persist release
  delete_key key_id p = elim (lookup key_id p.allocated_keys) [
    | none ↦ (ok false, p)
    | some entry ↦
        (do
          modify (release key_id entry)
          modify (persist codec)
          modify (log "DELETE" key_id)
          pure true)
          p
  ]

  unfoldable pub add_otp_material : RandomSource → ℤ → Action (Unit {0})
  unfolding persist
  add_otp_material src size = do
    new_material ← lift (src.draw size)
    modify (λ q. persist codec (record q { otp_pool = q.otp_pool ++ new_material }))

  unfoldable pub add_aes_keys : ℤ → Action (Unit {0})
  unfolding persist
  add_aes_keys count =
      modify (λ q. persist codec (record q { aes_key_count = q.aes_key_count +ℤ count }))
