-- ===== src/KeyManager/Api.antt =====
-- The handlers of key_manager/api/keys.py over the pool. FastAPI parses the bodies; the time, the UUID
-- and the random bytes of a call are arguments.
pub mod Laws
use qu_mail.Prelude.{
  ℕ, String, Bool, List, Option, ltb, if◌then◌else◌, none, ◌&&◌, true, some, str_eq, leb, ◌||◌, ◌*◌,
  not, false,
}
use qu_mail.Prelude.Int.{ℤ, pos, negsuc}
use qu_mail.Result.{◌>>=◌, Result, ok, err, value_error}
use qu_mail.KeyManager.KeyEntry.{KeyEntry, Codec, or_value_error, iso_or_none, time_or_none}
use qu_mail.KeyManager.Pool.{Pool, RandomSource}
use qu_mail.KeyManager.Pool.Methods.{
  allocate_key, consume_key, inject_key, delete_key, add_otp_material, add_aes_keys, otp_type,
}
use qu_mail.KeyManager.Pool.Maintenance.{get_key}

-- What a client gets: the body of the answer, an HTTP error, or the 500 of an exception.
pub data Reply (A : Type 0) : Type 0 where
  answer : A → Reply A
  http : ℕ → Reply A
  internal_error : Reply A

abbrev pub Handler : Type 0 → Type 0
Handler A = Pool → Reply A × Pool

pub record KeyResponse : Type 0 where
  pub key_id : String
  pub key_material : String
  pub peer_id : String
  pub key_type : String
  pub created_at : String
  pub expires_at : Option String
  pub user_id : String

pub record ExchangeKeyBody : Type 0 where
  pub key_id : String
  pub key_material_b64 : String
  pub peer_id : String
  pub key_type : String
  pub user_id : String
  pub created_at : String
  pub expires_at : Option String

-- `Field(gt=0, le=1024 * 1024)`
abbrev pub valid_size : ℤ → Bool
valid_size (pos n) = ltb 0 n && leb n (1024 * 1024)
valid_size (negsuc n) = false

-- `not auth_header or auth_header != expected_secret`
abbrev pub unauthorized : Option String → String → Bool
unauthorized none expected = true
unauthorized (some h) expected = str_eq h "" || not (str_eq h expected)

abbrev pub after : {A B : Type 0} → Result A × Pool → (A → Pool → Reply B × Pool) → Reply B × Pool
after x f = elim x.0 [ ok a ↦ f a x.1 | err e ↦ (internal_error, x.1) ]

module _ (codec : Codec) where
  abbrev pub full_response : KeyEntry → KeyResponse
  full_response e = record {
    key_id = e.key_id;
    key_material = codec.b64encode e.key_material;
    peer_id = e.peer_id;
    key_type = e.key_type;
    created_at = codec.isoformat e.created_at;
    expires_at = iso_or_none codec e.expires_at;
    user_id = e.user_id;
  }

  -- `POST /request`, from the validation of the size on.
  unfoldable pub request_key :
      RandomSource → String → ℕ → String → ℤ → String → String → Handler KeyResponse
  unfolding allocate_key
  request_key src uuid now peer_id size key_type user_id p =
      let n = elim size as (λ (s : ℤ). ℕ) [ pos m ↦ m | negsuc m ↦ 0 ] in
      let (r, q) = allocate_key codec src uuid now peer_id n key_type user_id p in
      if valid_size size
      then elim r [
        | ok e ↦ (answer (full_response e), q)
        | err x ↦ (elim x [ value_error ↦ http 503 | _ ↦ internal_error ], q)
      ]
      else (http 422, p)

  -- `GET /{key_id}`: the answer leaves the expiry and the user at their defaults.
  pub handle_get : String → Handler KeyResponse
  unfolding get_key
  handle_get key_id p = after (get_key key_id p) (λ found q. elim found [
    | none ↦ (http 404, q)
    | some e ↦
        if e.consumed
        then (http 410, q)
        else (answer (record (full_response e) { expires_at = none; user_id = "default" }), q)
  ])

  -- `POST /{key_id}/consume`: the answer has the time, which a second clock reading gives.
  unfoldable pub handle_consume : ℕ → ℕ → String → Handler (Bool × String)
  unfolding consume_key get_key
  handle_consume now answered key_id p = after (consume_key codec now key_id p) (λ success q.
      if success
      then (answer (true, codec.isoformat answered), q)
      else after (get_key key_id q)
          (λ found q'. elim found [ none ↦ (http 404, q') | some e ↦ (http 410, q') ]))

  abbrev pub entry_of : ExchangeKeyBody → Result KeyEntry
  entry_of body = do
    key_material ← or_value_error (codec.b64decode body.key_material_b64)
    created_at ← or_value_error (codec.fromisoformat body.created_at)
    expires_at ← time_or_none codec (some body.expires_at)
    ok (record {
      key_id = body.key_id;
      key_material = key_material;
      peer_id = body.peer_id;
      key_type = body.key_type;
      created_at = created_at;
      user_id = body.user_id;
      expires_at = expires_at;
      consumed = false;
      consumed_at = none;
    })

  -- `POST /exchange`
  pub exchange_key : String → Option String → ExchangeKeyBody → Handler Bool
  unfolding inject_key
  exchange_key expected_secret auth_header body p =
      if unauthorized auth_header expected_secret then (http 403, p) else elim (entry_of body) [
        | err x ↦ (http 400, p)
        | ok entry ↦
            (let (r, q) = inject_key codec entry p in
              (elim r [ ok _ ↦ answer true | err x ↦ http 400 ], q))
      ]

  -- `DELETE /{key_id}`
  unfoldable handle_delete : ℕ → String → Handler (Bool × String)
  unfolding delete_key
  handle_delete answered key_id p =
      after (delete_key codec key_id p) (λ success q.
        if success then (answer (true, codec.isoformat answered), q) else (http 404, q))

  -- `POST /provision`: success, and the number of keys added.
  pub provision_keys : RandomSource → String → ℤ → Handler (Bool × ℤ)
  unfolding add_otp_material add_aes_keys
  provision_keys src key_type size p =
      if str_eq key_type "otp"
      then after (add_otp_material codec src size p) (λ _ q. (answer (true, size), q))
      else if str_eq key_type "aes"
      then after (add_aes_keys codec size p) (λ _ q. (answer (true, size), q))
      else (answer (true, pos 0), p)
