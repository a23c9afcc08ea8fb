-- ===== src/QkdClient.antt =====
-- qkd_client/client.py. What httpx gives for a request is an argument: a response, or one of the two
-- exceptions that the code catches. Settings, headers and log lines are left out.
pub mod EndToEnd
use qu_mail.Prelude.{
  ℕ, String, Bool, List, Option, Bytes, if◌then◌else◌, false, some, ◌==◌, not, true, none,
}
use qu_mail.Prelude.Int.{ℤ, pos}
use qu_mail.Result.{
  ◌>>=◌, ◌>>◌, Result, ok, err, key_error, value_error, key_request_error, key_not_found,
  key_exhausted, http_error,
}

-- A response has a status and, if its text is JSON, a body.
pub data Transported (A : Type 0) : Type 0 where
  response : ℕ → Option A → Transported A
  connect_error timed_out : Transported A

-- The body of an answer with a key; an absent member is `none`.
pub record KeyData : Type 0 where
  pub key_id : Option String
  pub key_material : Option String
  pub peer_id : Option String
  pub key_type : Option String
  pub created_at : Option String

pub record StatusData : Type 0 where
  pub otp_bytes_available : Option ℕ
  pub aes_keys_available : Option ℤ
  pub pqc_keys_available : Option ℤ

-- `KeyResponse` of models.py, without the time that it was made and the flag `used`, which the client
-- only copies.
pub record ClientKey : Type 0 where
  pub key_id : String
  pub key_material : Bytes
  pub peer_id : String
  pub key_type : String

-- The dict of `get_key_status`, without the time and the text of an error.
pub record ClientStatus : Type 0 where
  pub connected : Bool
  pub otp_bytes : ℕ
  pub aes_keys : ℤ
  pub pqc_keys : ℤ

abbrev pub needed : {A : Type 0} → Option A → Result A
needed none = err key_error
needed (some a) = ok a

abbrev pub decoded : {A : Type 0} → Option A → Result A
decoded none = err value_error
decoded (some a) = ok a

abbrev pub text_or : Option String → String → String
text_or none d = d
text_or (some s) d = s

-- `data["key_id"]` and `base64.b64decode(data["key_material"])`, of a body that is JSON
abbrev pub key_of : (String → Option Bytes) → Option KeyData → Result (String × Bytes × KeyData)
key_of b64decode body = do
  d ← decoded body
  b64 ← needed d.key_material
  key_material ← decoded (b64decode b64)
  key_id ← needed d.key_id
  ok (key_id, key_material, d)

module _ (b64decode : String → Option Bytes) (is_time : String → Bool) where
  -- `datetime.fromisoformat(data.get("created_at", …))`
  abbrev pub check_time : Option String → Result (Unit {0})
  check_time none = ok tt
  check_time (some s) = if is_time s then ok tt else err value_error

  -- `request_key`: the key is answered with the peer and the type that were asked for.
  unfoldable pub request_key : String → String → Transported KeyData → Result ClientKey
  request_key peer_id key_type (response status body) =
      if status == 503
      then err key_exhausted
      else if not (status == 200)
      then err key_request_error
      else (do
        found ← key_of b64decode body
        check_time found.2.created_at
        ok (record {
          key_id = found.0;
          key_material = found.1;
          peer_id = peer_id;
          key_type = key_type;
        }))
  request_key peer_id key_type connect_error = err key_request_error
  request_key peer_id key_type timed_out = err key_request_error

  -- `get_key`
  unfoldable pub get_key : Transported KeyData → Result ClientKey
  get_key (response status body) =
      if status == 404
      then err key_not_found
      else if status == 410
      then err key_exhausted
      else if not (status == 200)
      then err key_request_error
      else (do
        found ← key_of b64decode body
        ok (record {
          key_id = found.0;
          key_material = found.1;
          peer_id = text_or found.2.peer_id "";
          key_type = text_or found.2.key_type "aes_seed";
        }))
  get_key connect_error = err key_request_error
  get_key timed_out = err key_request_error

-- `consume_key`
unfoldable pub consume_key : {A : Type 0} → Transported A → Result Bool
consume_key (response status body) =
    if status == 410
    then err key_exhausted
    else if not (status == 200)
    then err key_request_error
    else ok true
consume_key connect_error = err key_request_error
consume_key timed_out = err key_request_error

abbrev pub disconnected : ClientStatus
disconnected = record { connected = false; otp_bytes = 0; aes_keys = pos 0; pqc_keys = pos 0 }

-- `get_key_status`: a body that is no JSON is caught too.
unfoldable pub get_key_status : Transported StatusData → ClientStatus
get_key_status (response status body) = if not (status == 200) then disconnected else elim body [
  | none ↦ disconnected
  | some d ↦ record {
    connected = true;
    otp_bytes = elim d.otp_bytes_available [ none ↦ 0 | some n ↦ n ];
    aes_keys = elim d.aes_keys_available [ none ↦ pos 0 | some n ↦ n ];
    pqc_keys = elim d.pqc_keys_available [ none ↦ pos 0 | some n ↦ n ];
  }
]
get_key_status connect_error = disconnected
get_key_status timed_out = disconnected

abbrev added : Option ℤ → ℤ
added none = pos 0
added (some n) = n

-- `request_key_refresh`: the `keys_added` of the answer, if it is JSON. A timeout is not caught there.
unfoldable pub request_key_refresh : Transported (Option ℤ) → Result ℤ
request_key_refresh (response status body) =
    if not (status == 200) then err key_request_error else decoded body >>= λ n. ok (added n)
request_key_refresh connect_error = err key_request_error
request_key_refresh timed_out = err http_error
