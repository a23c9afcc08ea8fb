-- ===== src/KeyManager/Pool/Preservation.antt =====
-- The invariant across the methods of the pool, with the outcome of each method on each branch.
use qu_mail.Result.{Result-cases, Error}
use qu_mail.Dict.{Dict, lookup, insert}
use qu_mail.Prelude.{
  [], ◌∷◌, refl, ℕ, String, Bool-cases, Option-cases, arith, inl, str_eq, inr, ◌≡◌, some, none, ◌+◌,
  false, true, Bytes, ◌++◌,
}
use qu_mail.Prelude.Int.{ℤ}
use qu_mail.KeyManager.KeyEntry.{KeyEntry, Codec}
use qu_mail.KeyManager.Pool.{
  Pool, RandomSource, log, persist, zeroize_key, release, Action, ◌>>◌, continue, Outcome, ok,
  String, Dict, err, some, none, Bytes, Error,
}
use qu_mail.KeyManager.Pool.Counters.{
  set_allocated, set_consumed, live-insert_le, live-insert_consumed, live-erase_le,
}
use qu_mail.KeyManager.Pool.Methods.{
  replenish_otp, cut_otp, draw_aes, enter_key, allocate_key, inject_key, consume_key, delete_key,
  add_otp_material, add_aes_keys, otp_type, new_entry,
}
use qu_mail.KeyManager.Pool.Maintenance.{cleanup_expired, release_all, expired_keys}
use qu_mail.KeyManager.Pool.Invariant.{
  IsValid, grow, enter_key-IsValid, otp_material_lem, draw_aes-IsValid,
}

bind-IsValid :
    {A B : Type 0} (f : A → Action B) (x : Outcome A)
    → ((a : A) (q : Pool) → IsValid q → IsValid (f a q).1)
    → IsValid x.1
    → IsValid (continue f x).1
bind-IsValid f (ok a, q) keep v = keep a q v
bind-IsValid f (err e, q) keep v = v

module _ (codec : Codec) where
  otp_material-IsValid :
      (src : RandomSource) (size : ℕ) (p : Pool)
      → IsValid p
      → IsValid ((replenish_otp codec src size >> cut_otp codec size) p).1
  otp_material-IsValid src size p v =
      let (more, q, e, same, moved, keys, fits, valid) = otp_material_lem codec src size p v in
      rw e valid

  pub allocate_key-IsValid :
      (src : RandomSource) (uuid : String) (now : ℕ) (peer_id : String) (size : ℕ)
      (key_type user_id : String) (p : Pool)
      → IsValid p
      → IsValid (allocate_key codec src uuid now peer_id size key_type user_id p).1
  unfolding allocate_key
  allocate_key-IsValid src uuid now peer_id size key_type user_id p v =
      let enter =
        λ (bs : Bytes). enter_key codec (new_entry uuid now peer_id key_type user_id bs) in
      let keep =
        λ (bs : Bytes). enter_key-IsValid codec (new_entry uuid now peer_id key_type user_id bs) in
      elim (Bool-cases (str_eq key_type otp_type)) [
        | inl otp ↦ rw otp (
            bind-IsValid enter ((replenish_otp codec src size >> cut_otp codec size) p) keep
              (otp_material-IsValid src size p v))
        | inr other ↦ rw other (
            bind-IsValid enter (draw_aes codec src size p) keep
              (draw_aes-IsValid codec src size p v))
      ]

  pub known_lem :
      (entry e : KeyEntry) (p : Pool)
      → lookup entry.key_id p.allocated_keys ≡ some e
      → inject_key codec entry p ≡ (ok tt, p)
  unfolding inject_key
  known_lem entry e p held = ground arith

  pub injected_lem :
      (entry : KeyEntry) (p : Pool) (v : IsValid p)
      → lookup entry.key_id p.allocated_keys ≡ none
      → inject_key codec entry p ≡ (
        ok tt,
        log "INJECT" entry.key_id (
            persist codec (record p {
              allocated_keys = insert entry.key_id entry p.allocated_keys;
              stats = insert "total_allocated" (v.allocated + 1) p.stats;
            })),
      )
  unfolding inject_key
  injected_lem entry p v missing = ground arith

  pub inject_key-IsValid :
      (entry : KeyEntry) (p : Pool) → IsValid p → IsValid (inject_key codec entry p).1
  inject_key-IsValid entry p v = elim (Option-cases (lookup entry.key_id p.allocated_keys)) [
    | inr (e, held) ↦ rw (known_lem entry e p held) v
    | inl missing ↦ rw (injected_lem entry p v missing) (
        unfold persist in
        record {
          allocated = v.allocated + 1;
          consumed = v.consumed;
          aes = v.aes;
          offset_in_pool = v.offset_in_pool;
          counters = set_allocated v.counters (v.allocated + 1);
          balance = omega (arith, v.balance, live-insert_le entry.key_id entry p.allocated_keys);
          zeroized = v.zeroized;
          hooked = v.hooked;
        })
  ]

  pub consumed_lem :
      (now : ℕ) (k : String) (e : KeyEntry) (p : Pool) (v : IsValid p)
      → lookup k p.allocated_keys ≡ some e
      → e.consumed ≡ false
      → consume_key codec now k p ≡ (
        ok true,
        log "CONSUME" k (
            persist codec (record p {
              allocated_keys =
                  insert k (record e { consumed = true; consumed_at = some now }) p.allocated_keys;
              stats = insert "total_consumed" (v.consumed + 1) p.stats;
            })),
      )
  unfolding consume_key
  consumed_lem now k e p v held fresh = ground arith

  pub refused_lem :
      (now : ℕ) (k : String) (e : KeyEntry) (p : Pool)
      → lookup k p.allocated_keys ≡ some e
      → e.consumed ≡ true
      → consume_key codec now k p ≡ (ok false, p)
  unfolding consume_key
  refused_lem now k e p held used = ground arith

  pub absent_lem :
      (now : ℕ) (k : String) (p : Pool)
      → lookup k p.allocated_keys ≡ none
      → consume_key codec now k p ≡ (ok false, p)
  unfolding consume_key
  absent_lem now k p missing = ground arith

  pub consume_key-IsValid :
      (now : ℕ) (k : String) (p : Pool) → IsValid p → IsValid (consume_key codec now k p).1
  consume_key-IsValid now k p v = elim (Option-cases (lookup k p.allocated_keys)) [
    | inl missing ↦ rw (absent_lem now k p missing) v
    | inr (e, held) ↦ elim (Bool-cases e.consumed) [
      | inl used ↦ rw (refused_lem now k e p held used) v
      | inr fresh ↦ rw (consumed_lem now k e p v held fresh) (
          unfold persist in
          record {
            allocated = v.allocated;
            consumed = v.consumed + 1;
            aes = v.aes;
            offset_in_pool = v.offset_in_pool;
            counters = set_consumed v.counters (v.consumed + 1);
            balance = omega (
              arith,
              v.balance,
              live-insert_consumed k e (record e { consumed = true; consumed_at = some now })
                  p.allocated_keys held fresh refl,
            );
            zeroized = v.zeroized;
            hooked = v.hooked;
          })
    ]
  ]

  release-IsValid : (k : String) (e : KeyEntry) (p : Pool) → IsValid p → IsValid (release k e p)
  unfolding release zeroize_key
  release-IsValid k e p v = record {
    allocated = v.allocated;
    consumed = v.consumed;
    aes = v.aes;
    offset_in_pool = v.offset_in_pool;
    counters = v.counters;
    balance = omega (arith, v.balance, live-erase_le k p.allocated_keys);
    zeroized = (refl, v.zeroized);
    hooked = v.hooked;
  }

  persist-IsValid : (p : Pool) → IsValid p → IsValid (persist codec p)
  unfolding persist
  persist-IsValid p v = v

  pub deleted_lem :
      (k : String) (e : KeyEntry) (p : Pool)
      → lookup k p.allocated_keys ≡ some e
      → delete_key codec k p ≡ (ok true, log "DELETE" k (persist codec (release k e p)))
  unfolding delete_key
  deleted_lem k e p held = ground arith

  pub nothing_lem :
      (k : String) (p : Pool)
      → lookup k p.allocated_keys ≡ none
      → delete_key codec k p ≡ (ok false, p)
  unfolding delete_key
  nothing_lem k p missing = ground arith

  pub delete_key-IsValid : (k : String) (p : Pool) → IsValid p → IsValid (delete_key codec k p).1
  delete_key-IsValid k p v = elim (Option-cases (lookup k p.allocated_keys)) [
    | inl missing ↦ rw (nothing_lem k p missing) v
    | inr (e, held) ↦ rw (deleted_lem k e p held) (unfold persist in release-IsValid k e p v)
  ]

  release_all-IsValid : (d : Dict KeyEntry) (p : Pool) → IsValid p → IsValid (release_all d p)
  unfolding release_all
  release_all-IsValid [] p v = v
  release_all-IsValid ((k, e) ∷ d) p v =
      release_all-IsValid d (log "EXPIRE" k (release k e p)) (release-IsValid k e p v)

  pub cleanup_expired-IsValid :
      (now : ℕ) (p : Pool) → IsValid p → IsValid (cleanup_expired codec now p).1
  unfolding cleanup_expired
  cleanup_expired-IsValid now p v =
      persist_if (expired_keys now p.allocated_keys)
        (release_all (expired_keys now p.allocated_keys) p)
        (release_all-IsValid (expired_keys now p.allocated_keys) p v)
    where
      persist_if :
          (d : Dict KeyEntry) (q : Pool)
          → IsValid q
          → IsValid (elim d [ [] ↦ q | e ∷ es ↦ persist codec q ])
      persist_if [] q w = w
      persist_if (x ∷ xs) q w = persist-IsValid q w

  pub provisioned_lem :
      (src : RandomSource) (size : ℤ) (bs : Bytes) (p : Pool)
      → src.draw size ≡ ok bs
      → add_otp_material codec src size p
        ≡ (ok tt, persist codec (record p { otp_pool = p.otp_pool ++ bs }))
  unfolding add_otp_material
  provisioned_lem src size bs p drawn = ground arith

  pub unprovisioned_lem :
      (src : RandomSource) (size : ℤ) (e : Error) (p : Pool)
      → src.draw size ≡ err e
      → add_otp_material codec src size p ≡ (err e, p)
  unfolding add_otp_material
  unprovisioned_lem src size e p failed = ground arith

  pub add_otp_material-IsValid :
      (src : RandomSource) (size : ℤ) (p : Pool)
      → IsValid p
      → IsValid (add_otp_material codec src size p).1
  unfolding add_otp_material
  add_otp_material-IsValid src size p v = elim (Result-cases (src.draw size)) [
    | inl (bs, drawn) ↦ rw drawn (unfold persist in grow p bs v)
    | inr (e, failed) ↦ rw failed v
  ]

  pub add_aes_keys-IsValid :
      (count : ℤ) (p : Pool) → IsValid p → IsValid (add_aes_keys codec count p).1
  unfolding add_aes_keys
  add_aes_keys-IsValid count p v = v
