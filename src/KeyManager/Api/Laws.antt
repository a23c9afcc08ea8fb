-- ===== src/KeyManager/Api/Laws.antt =====
-- Proofs about the handlers of key_manager/api/keys.py.
use qu_mail.Result.{ok}
use qu_mail.Dict.{lookup, insert, lookup-insert}
use qu_mail.Prelude.{
  ℕ, String, ◌<◌, ◌≡◌, Option, ◌≤◌, ◌≢◌, some, true, arith, length, Bool-cases, false, refl, none,
  str_eq, inl, ap, eq_iff, inr, Option-cases, ◌+◌, eq_refl,
}
use qu_mail.Prelude.Int.{pos, negsuc}
use qu_mail.KeyManager.KeyEntry.{KeyEntry, Codec}
use qu_mail.KeyManager.Pool.Methods.{allocate_key}
use qu_mail.KeyManager.Pool.Maintenance.{get_key}
use qu_mail.KeyManager.Pool.{persist, log, Pool, RandomSource}
use qu_mail.KeyManager.Pool.Invariant.{IsValid}
use qu_mail.KeyManager.Pool.Service.{allocate_key-get_key}
use qu_mail.KeyManager.Pool.Preservation.{consumed_lem, refused_lem, absent_lem}
use qu_mail.KeyManager.Api.{
  ExchangeKeyBody, request_key, handle_get, handle_consume, exchange_key, provision_keys,
  full_response, answer, http, Option, some, true, false, none, str_eq, ok,
}

get_key-lookup :
    (k : String) (e : KeyEntry) (q : Pool)
    → get_key k q ≡ (ok (some e), q)
    → lookup k q.allocated_keys ≡ some e
unfolding get_key
get_key-lookup k e q h = ground arith

module _ (codec : Codec) where
  pub get_held_lem :
      (k : String) (e : KeyEntry) (p : Pool)
      → lookup k p.allocated_keys ≡ some e
      → e.consumed ≡ false
      → handle_get codec k p
        ≡ (answer (record (full_response codec e) { expires_at = none; user_id = "default" }), p)
  unfolding handle_get
  get_held_lem k e p held fresh = ground arith

  get_gone_lem :
      (k : String) (e : KeyEntry) (p : Pool)
      → lookup k p.allocated_keys ≡ some e
      → e.consumed ≡ true
      → handle_get codec k p ≡ (http 410, p)
  unfolding handle_get
  get_gone_lem k e p held used = ground arith

  consume_gone_lem :
      (now answered : ℕ) (k : String) (e : KeyEntry) (p : Pool)
      → lookup k p.allocated_keys ≡ some e
      → e.consumed ≡ true
      → handle_consume codec now answered k p ≡ (http 410, p)
  unfolding handle_consume
  consume_gone_lem now answered k e p held used =
      ground (arith, refused_lem codec now k e p held used)

  absent_reply :
      (now answered : ℕ) (k : String) (p : Pool)
      → lookup k p.allocated_keys ≡ none
      → handle_consume codec now answered k p ≡ (http 404, p)
  unfolding handle_consume
  absent_reply now answered k p missing = ground (arith, absent_lem codec now k p missing)

  consumed_reply :
      (now answered : ℕ) (k : String) (e : KeyEntry) (p : Pool) (v : IsValid p)
      → lookup k p.allocated_keys ≡ some e
      → e.consumed ≡ false
      → (handle_consume codec now answered k p).1
        ≡ log "CONSUME" k (
            persist codec (record p {
              allocated_keys =
                  insert k (record e { consumed = true; consumed_at = some now }) p.allocated_keys;
              stats = insert "total_consumed" (v.consumed + 1) p.stats;
            }))
  unfolding handle_consume
  consumed_reply now answered k e p v held fresh = rw (consumed_lem codec now k e p v held fresh)

  pub consumed_answer :
      (now answered : ℕ) (k : String) (e : KeyEntry) (p : Pool) (v : IsValid p)
      → lookup k p.allocated_keys ≡ some e
      → e.consumed ≡ false
      → (handle_consume codec now answered k p).0 ≡ answer (true, codec.isoformat answered)
  unfolding handle_consume
  consumed_answer now answered k e p v held fresh =
      rw (consumed_lem codec now k e p v held fresh) refl

  -- A request of a size in bounds is answered with the key that the pool allocates.
  pub request_lem :
      (src : RandomSource) (uuid : String) (now : ℕ) (peer : String) (size : ℕ) (kind user : String)
      (p q : Pool) (e : KeyEntry)
      → allocate_key codec src uuid now peer size kind user p ≡ (ok e, q)
      → 0 < size
      → size ≤ 1048576
      → request_key codec src uuid now peer (pos size) kind user p
        ≡ (answer (full_response codec e), q)
  unfolding request_key
  request_lem src uuid now peer size kind user p q e got positive fits = rw got (ground arith)

  -- On a valid pool, a request for 1 byte to 1 MiB is answered with key material of that many bytes, and
  -- a `GET` of the key then answers with the same material, under the same id.
  pub request_key-handle_get :
      (src : RandomSource) (uuid : String) (now : ℕ) (peer : String) (size : ℕ) (kind user : String)
      (p : Pool)
      → IsValid p
      → 0 < size
      → size ≤ 1048576
      → (e : KeyEntry) × (q : Pool) × (request_key codec src uuid now peer (pos size) kind user p
          ≡ (answer (full_response codec e), q))
        × (length e.key_material ≡ size)
        × (handle_get codec uuid q ≡ (
          answer (record (full_response codec e) { expires_at = none; user_id = "default" }),
          q,
        ))
  request_key-handle_get src uuid now peer size kind user p v positive fits =
      let (e, q, got, (size_ok, fresh, found), valid) =
        allocate_key-get_key codec src uuid now peer size kind user p v positive in
      (
        e,
        q,
        request_lem src uuid now peer size kind user p q e got positive fits,
        size_ok,
        get_held_lem uuid e q (get_key-lookup uuid e q found) fresh,
      )

  -- On a valid pool, once the consumption of a key was answered with success, a `GET` of the key and a
  -- second consumption are answered with 410.
  pub handle_consume-once :
      (now answered later answered_later : ℕ) (k : String) (p : Pool)
      → IsValid p
      → (handle_consume codec now answered k p).0 ≡ answer (true, codec.isoformat answered)
      → (q : Pool) × ((handle_consume codec now answered k p).1 ≡ q)
        × (handle_get codec k q ≡ (http 410, q))
        × (handle_consume codec later answered_later k q ≡ (http 410, q))
  handle_consume-once now answered later answered_later k p v h =
      elim (Option-cases (lookup k p.allocated_keys)) [
        | inl missing ↦ absurd (ground (arith, absent_reply now answered k p missing))
        | inr (e, held) ↦ elim (Bool-cases e.consumed) [
          | inl used ↦ absurd (ground (arith, consume_gone_lem now answered k e p held used))
          | inr fresh ↦
              (let q = log "CONSUME" k (
                  persist codec (record p {
                    allocated_keys =
                        insert k (record e { consumed = true; consumed_at = some now })
                          p.allocated_keys;
                    stats = insert "total_consumed" (v.consumed + 1) p.stats;
                  })) in
                let held' : lookup k q.allocated_keys
                    ≡ some (record e { consumed = true; consumed_at = some now }) =
                  unfold persist in rw lookup-insert (rw eq_refl refl) in
                (
                  q,
                  consumed_reply now answered k e p v held fresh,
                  get_gone_lem k (record e { consumed = true; consumed_at = some now }) q held'
                      refl,
                  consume_gone_lem later answered_later k
                      (record e { consumed = true; consumed_at = some now }) q held' refl,
                ))
        ]
      ]

  -- Without the secret of the link, a key exchange is refused with 403 and leaves the pool as it is.
  pub exchange_key-unauthorized :
      (secret : String) (header : Option String) (body : ExchangeKeyBody) (p : Pool)
      → header ≢ some secret
      → exchange_key codec secret header body p ≡ (http 403, p)
  unfolding exchange_key
  exchange_key-unauthorized secret none body p h = refl
  exchange_key-unauthorized secret (some x) body p h = elim (Bool-cases (str_eq x secret)) [
    | inl same ↦ absurd (h (ap some ((eq_iff x secret).0 same)))
    | inr other ↦ rw other (ground arith)
  ]

  -- A provision of AES keys is answered with success whatever the number is: a negative one takes away
  -- from the count.
  pub provision_keys-negative :
      (src : RandomSource) (n : ℕ) (p : Pool)
      → p.aes_key_count ≡ pos n
      → (q : Pool) × (provision_keys codec src "aes" (negsuc n) p ≡ (answer (true, negsuc n), q))
        × (q.aes_key_count ≡ negsuc 0)
  unfolding provision_keys
  provision_keys-negative src n p h = (_, refl, (unfold persist in rw h (ground arith)))
