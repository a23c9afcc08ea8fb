-- ===== src/KeyManager/Pool/Invariant.antt =====
-- The invariant of the key pool, and the parts of `allocate_key` under it.
use qu_mail.Prelude.{
  zero, ℕ, ◌+◌, ◌≤◌, String, ◌≡◌, ◌≢◌, refl, Option, some, none, [], ◌∷◌, List, length, arith,
  length-append, Option-cases, inl, inr, Bool-cases, take, ltb, drop, max, ◌*◌, ◌++◌, if◌then◌else◌,
  append-nil, ltb→le, suc, ◌<◌, ◌∙◌,
}
use qu_mail.Prelude.Int.{leb_ℤ, ◌+ℤ◌, negsuc}
use qu_mail.Result.{ok, err, Result-cases, Error}
use qu_mail.Dict.{insert, Dict}
use qu_mail.KeyManager.KeyEntry.{KeyEntry, Codec}
use qu_mail.KeyManager.Pool.{
  Pool, RandomSource, bind_ok, log, ◌>>◌, log, persist, update_user_quota, Bytes, Store, pos, map,
  negsuc, suc,
}
use qu_mail.KeyManager.Pool.Counters.{
  Counters, set_allocated, set_otp, set_aes, live, live-insert_le,
}
use qu_mail.KeyManager.Pool.Methods.{replenish_otp, cut_otp, draw_aes, enter_key}

-- No key material is left in an object.
abbrev pub AllZeroized : List KeyEntry → Type 0
AllZeroized [] = Unit
AllZeroized (e ∷ es) = (e.key_material ≡ []) × AllZeroized es

-- The offset lies in the pool and is the number of OTP bytes used; the four counters exist; no more
-- keys were consumed, or could still be, than were allocated; every key object that has left the pool
-- is zeroized; the list of hooks exists.
pub record Consistent (size offset : ℕ) (stats : Dict ℕ) (keys : Dict KeyEntry)
    (released : List KeyEntry) (hooks : Option (List (List (String × String)))) : Type 0 where
  pub allocated : ℕ
  pub consumed : ℕ
  pub aes : ℕ
  pub offset_in_pool : offset ≤ size
  pub counters : Counters stats allocated consumed offset aes
  pub balance : consumed + live keys ≤ allocated
  pub zeroized : AllZeroized released
  pub hooked : hooks ≢ none

abbrev pub IsValid : Pool → Type 0
IsValid p = Consistent (length p.otp_pool) p.otp_offset p.stats p.allocated_keys p.released p.hooks

-- A draw of a positive size succeeds.
pub draw-pos : (src : RandomSource) (n : ℕ) → 0 < n → src.draw (pos n) ≡ ok (src.some_bytes n)
draw-pos src zero h = absurd (omega arith)
draw-pos src (suc n) h = src.draw_positive n

-- More OTP bytes, at the end of the pool.
pub grow :
    (p : Pool) (bs : Bytes)
    → IsValid p
    → Consistent
        (length (p.otp_pool ++ bs))
        p.otp_offset
        p.stats
        p.allocated_keys
        p.released
        p.hooks
grow p bs v = record {
  allocated = v.allocated;
  consumed = v.consumed;
  aes = v.aes;
  offset_in_pool = omega (arith, length-append p.otp_pool bs, v.offset_in_pool);
  counters = v.counters;
  balance = v.balance;
  zeroized = v.zeroized;
  hooked = v.hooked;
}

module _ (codec : Codec) where
  replenish_otp-IsValid :
      (src : RandomSource) (size : ℕ) (p : Pool)
      → IsValid p
      → IsValid (replenish_otp codec src size p).1
  unfolding replenish_otp
  replenish_otp-IsValid src size p v =
      elim (Bool-cases (ltb (length p.otp_pool) (p.otp_offset + size))) [
        | inr enough ↦ rw enough v
        | inl short ↦ rw short (elim (Result-cases (src.draw (pos (max (size * 2) 10240)))) [
          | inl (bs, drawn) ↦ rw drawn (unfold persist in grow p bs v)
          | inr (e, failed) ↦ rw failed v
        ])
      ]

  -- The replenished pool holds the bytes that are asked for.
  pub replenish_otp_lem :
      (src : RandomSource) (size : ℕ) (p : Pool)
      → IsValid p
      → (more : Bytes) × (store : Option Store) × (replenish_otp codec src size p
          ≡ (ok tt, record p { otp_pool = p.otp_pool ++ more; persistent_store = store }))
        × (p.otp_offset + size ≤ length (p.otp_pool ++ more))
  unfolding replenish_otp
  replenish_otp_lem src size p v =
      elim (Bool-cases (ltb (length p.otp_pool) (p.otp_offset + size))) [
        | inr enough ↦ (
          [],
          p.persistent_store,
          rw enough (rw append-nil),
          rw append-nil (omega (arith, ltb→le (length p.otp_pool) (p.otp_offset + size) enough)),
        )
        | inl short ↦
            (let n = max (size * 2) 10240 in
              let drawn = draw-pos src n (omega arith) in
              (
                src.some_bytes n,
                (persist codec
                    (record p { otp_pool = p.otp_pool ++ src.some_bytes n })).persistent_store,
                rw short (rw drawn),
                omega (
                  arith,
                  length-append p.otp_pool (src.some_bytes n),
                  src.length-some_bytes n,
                  v.offset_in_pool,
                ),
              ))
      ]

  -- The bytes that are cut off are the next `size` of the pool.
  cut_otp_lem :
      (size : ℕ) (p : Pool)
      → IsValid p
      → cut_otp codec size p ≡ (
        ok (take size (drop p.otp_offset p.otp_pool)),
        record p {
          otp_offset = p.otp_offset + size;
          stats = insert "otp_bytes_used" (p.otp_offset + size) p.stats;
        },
      )
  unfolding cut_otp
  cut_otp_lem size p v = ground arith

  cut_otp-IsValid :
      (size : ℕ) (p : Pool)
      → p.otp_offset + size ≤ length p.otp_pool
      → IsValid p
      → IsValid (cut_otp codec size p).1
  cut_otp-IsValid size p fits v = rw (cut_otp_lem size p v) (record {
    allocated = v.allocated;
    consumed = v.consumed;
    aes = v.aes;
    offset_in_pool = fits;
    counters = set_otp v.counters (p.otp_offset + size);
    balance = v.balance;
    zeroized = v.zeroized;
    hooked = v.hooked;
  })

  -- The pool after an AES key was drawn.
  abbrev pub aes_drawn : ℕ → Pool → Pool
  aes_drawn n p = record p {
    aes_key_count =
        (if leb_ℤ p.aes_key_count (pos 0) then pos 1000 else p.aes_key_count) +ℤ negsuc 0;
    stats = insert "aes_keys_used" (n + 1) p.stats;
  }

  pub draw_aes_lem :
      (src : RandomSource) (size : ℕ) (p : Pool) (bs : Bytes)
      → (v : IsValid p) → src.draw (pos size) ≡ ok bs
      → draw_aes codec src size p ≡ (ok bs, aes_drawn v.aes p)
  unfolding draw_aes
  draw_aes_lem src size p bs v drawn = ground arith

  pub draw_aes_failed :
      (src : RandomSource) (size : ℕ) (p : Pool) (e : Error)
      → src.draw (pos size) ≡ err e
      → draw_aes codec src size p ≡ (
        err e,
        record p {
          aes_key_count = if leb_ℤ p.aes_key_count (pos 0) then pos 1000 else p.aes_key_count;
        },
      )
  unfolding draw_aes
  draw_aes_failed src size p e failed = ground arith

  pub draw_aes-IsValid :
      (src : RandomSource) (size : ℕ) (p : Pool) → IsValid p → IsValid (draw_aes codec src size p).1
  draw_aes-IsValid src size p v = elim (Result-cases (src.draw (pos size))) [
    | inl (bs, drawn) ↦ rw (draw_aes_lem src size p bs v drawn) (record {
      allocated = v.allocated;
      consumed = v.consumed;
      aes = v.aes + 1;
      offset_in_pool = v.offset_in_pool;
      counters = set_aes v.counters (v.aes + 1);
      balance = v.balance;
      zeroized = v.zeroized;
      hooked = v.hooked;
    })
    | inr (e, failed) ↦ rw (draw_aes_failed src size p e failed) v
  ]

  -- The pool after a key was entered.
  abbrev pub entered : KeyEntry → ℕ → List (List (String × String)) → Pool → Pool
  entered e n hs p =
      let q : Pool = record p {
        allocated_keys = insert e.key_id e p.allocated_keys;
        stats = insert "total_allocated" (n + 1) p.stats;
      } in
      record (log "ALLOCATE" e.key_id
        (persist codec (update_user_quota e.user_id e.key_type 1 q))) {
          hooks = some (map (λ (h : List (String × String)). h ++ (e.peer_id, e.key_id) ∷ []) hs);
        }

  pub enter_key_lem :
      (e : KeyEntry) (p : Pool) (hs : List (List (String × String)))
      → (v : IsValid p) → p.hooks ≡ some hs
      → enter_key codec e p ≡ (ok e, entered e v.allocated hs p)
  unfolding enter_key
  enter_key_lem e p hs v h = ground arith

  pub enter_key-IsValid : (e : KeyEntry) (p : Pool) → IsValid p → IsValid (enter_key codec e p).1
  enter_key-IsValid e p v = elim (Option-cases p.hooks) [
    | inl absent ↦ absurd (v.hooked absent)
    | inr (hs, present) ↦ rw (enter_key_lem e p hs v present) (
        unfold persist update_user_quota in
        record {
          allocated = v.allocated + 1;
          consumed = v.consumed;
          aes = v.aes;
          offset_in_pool = v.offset_in_pool;
          counters = set_allocated v.counters (v.allocated + 1);
          balance = omega (arith, v.balance, live-insert_le e.key_id e p.allocated_keys);
          zeroized = v.zeroized;
          hooked = λ h. cc;
        })
  ]

  -- An OTP request on a valid pool gets the next `size` bytes of the pool, which may have grown.
  pub otp_material_lem :
      (src : RandomSource) (size : ℕ) (p : Pool)
      → IsValid p
      → (more : Bytes) × (q : Pool) × ((replenish_otp codec src size >> cut_otp codec size) p
          ≡ (ok (take size (drop p.otp_offset (p.otp_pool ++ more))), q))
        × (q.otp_pool ≡ p.otp_pool ++ more)
        × (q.otp_offset ≡ p.otp_offset + size)
        × (q.allocated_keys ≡ p.allocated_keys)
        × (p.otp_offset + size ≤ length (p.otp_pool ++ more))
        × IsValid q
  otp_material_lem src size p v =
      let (more, store, e, fits) = replenish_otp_lem src size p v in
      let v' = grow p more v in
      let p' : Pool = record p { otp_pool = p.otp_pool ++ more; persistent_store = store } in
      let cut = cut_otp_lem size p' v' in
      (
        more,
        record p' {
          otp_offset = p.otp_offset + size;
          stats = insert "otp_bytes_used" (p.otp_offset + size) p.stats;
        },
        bind_ok (replenish_otp codec src size) (λ _. cut_otp codec size) e ∙ cut,
        refl,
        refl,
        refl,
        fits,
        rw cut at (cut_otp-IsValid size p' fits v'),
      )
  -- An AES request of a positive size on a valid pool gets the bytes that are drawn.
