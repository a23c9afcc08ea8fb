-- ===== src/QkdClient/EndToEnd.antt =====
-- The client against the handlers of the Key Manager.
use qu_mail.Prelude.{ℕ, String, Bool, some, ◌≡◌, none, true, arith, ◌<◌, refl, ◌≤◌, length, ap, ◌∙◌}
use qu_mail.Prelude.Int.{pos}
use qu_mail.Result.{ok, err, key_exhausted}
use qu_mail.KeyManager.KeyEntry.{KeyEntry, Codec}
use qu_mail.KeyManager.Pool.{Pool, RandomSource}
use qu_mail.KeyManager.Pool.Invariant.{IsValid}
use qu_mail.KeyManager.Api.{Reply, KeyResponse, answer, http, internal_error, full_response}
use qu_mail.KeyManager.Api.{handle_get, handle_consume, request_key as handle_request}
use qu_mail.KeyManager.Api.Laws.{request_key-handle_get, handle_consume-once}
use qu_mail.QkdClient.{Transported, response, KeyData, ClientKey, request_key, get_key, consume_key}

-- What the client gets of a reply that reaches it.
abbrev pub delivered : {A B : Type 0} → (A → B) → Reply A → Transported B
delivered f (answer a) = response 200 (some (f a))
delivered f (http n) = response n none
delivered f internal_error = response 500 none

abbrev pub key_data : KeyResponse → KeyData
key_data r = record {
  key_id = some r.key_id;
  key_material = some r.key_material;
  peer_id = some r.peer_id;
  key_type = some r.key_type;
  created_at = some r.created_at;
}

module _ (codec : Codec) (is_time : String → Bool) where
  abbrev pub client_key : KeyEntry → String → String → ClientKey
  client_key e peer kind = record {
    key_id = e.key_id;
    key_material = e.key_material;
    peer_id = peer;
    key_type = kind;
  }

  pub request_answered :
      (e : KeyEntry) (peer kind : String)
      → is_time (codec.isoformat e.created_at) ≡ true
      → request_key codec.b64decode is_time peer kind
          (delivered key_data (answer (full_response codec e)))
        ≡ ok (client_key e peer kind)
  unfolding request_key
  request_answered e peer kind timed = ground (arith, codec.decode-encode e.key_material)

  pub get_answered :
      (e : KeyEntry)
      → get_key codec.b64decode is_time (
          delivered key_data
            (answer (record (full_response codec e) { expires_at = none; user_id = "default" })))
        ≡ ok (client_key e e.peer_id e.key_type)
  unfolding get_key
  get_answered e = ground (arith, codec.decode-encode e.key_material)

  -- Both ends of a link get the same key. On a valid pool, and where the ISO text of a time is read as
  -- a time, a client that requests 1 byte to 1 MiB gets a key of that many bytes, and a client that then
  -- asks for the key's id gets the same bytes.
  pub request_key-get_key :
      (src : RandomSource) (uuid : String) (now : ℕ) (peer : String) (size : ℕ) (kind user : String)
      (p : Pool)
      → ((t : ℕ) → is_time (codec.isoformat t) ≡ true)
      → IsValid p
      → 0 < size
      → size ≤ 1048576
      → (k other : ClientKey) × (q : Pool) × (request_key codec.b64decode is_time peer kind
            (delivered key_data (handle_request codec src uuid now peer (pos size) kind user p).0)
          ≡ ok k)
        × ((handle_request codec src uuid now peer (pos size) kind user p).1 ≡ q)
        × (get_key codec.b64decode is_time (delivered key_data (handle_get codec uuid q).0)
            ≡ ok other)
        × (length k.key_material ≡ size)
        × (other.key_material ≡ k.key_material)
  request_key-get_key src uuid now peer size kind user p timed v positive fits =
      let (e, q, requested, sized, held) =
        request_key-handle_get codec src uuid now peer size kind user p v positive fits in
      (
        client_key e peer kind,
        client_key e e.peer_id e.key_type,
        q,
        ap (λ x. request_key codec.b64decode is_time peer kind (delivered key_data x.0)) requested
            ∙ request_answered e peer kind (timed e.created_at),
        ap (λ x. x.1) requested,
        ap (λ x. get_key codec.b64decode is_time (delivered key_data x.0)) held ∙ get_answered e,
        sized,
        refl,
      )

  -- One-time use as the client sees it. On a valid pool, once a client's consumption was answered with
  -- success, a second client that consumes the key or asks for it is told that it is exhausted.
  pub consume_key-once :
      (now answered later answered_later : ℕ) (key_id : String) (p : Pool)
      → IsValid p
      → (handle_consume codec now answered key_id p).0 ≡ answer (true, codec.isoformat answered)
      → (q : Pool) × ((handle_consume codec now answered key_id p).1 ≡ q)
        × (consume_key (delivered (λ x. x) (handle_consume codec later answered_later key_id q).0)
            ≡ err key_exhausted)
        × (get_key codec.b64decode is_time (delivered key_data (handle_get codec key_id q).0)
            ≡ err key_exhausted)
  consume_key-once now answered later answered_later key_id p v h =
      let (q, left, got, again) =
        handle_consume-once codec now answered later answered_later key_id p v h in
      (q, left, (unfold consume_key in rw again refl), (unfold get_key in rw got refl))
