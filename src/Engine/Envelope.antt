-- ===== src/Engine/Envelope.antt =====
-- The dicts that backend/crypto_engine/__init__.py builds and reads, and the encodings that they travel
-- in. The codecs of Python's library (`base64`, `json`, UTF-8) are a parameter.
use qu_mail.Dict.{Dict}
use qu_mail.Result.{Result, err, ◌>>=◌, ok, key_error, value_error}
use qu_mail.Crypto.Otp.{IsBytes}
use qu_mail.Prelude.{ℕ, String, Bool, Option, none, Bytes, ◌≡◌, some, refl}

-- A metadata or envelope dict: a member that is absent is `none`, and members have the types that the
-- code writes.
pub record Fields : Type 0 where
  pub version : Option String
  pub security_level : Option ℕ
  pub algorithm : Option String
  pub key_id : Option String
  pub body_length : Option ℕ
  pub recipient_key_ids : Option (Dict String)
  pub signed : Option Bool
  pub ciphertext : Option String
  pub nonce : Option String
  pub tag : Option String
  pub encapsulated_key : Option String
  pub signature : Option String
  pub sender_encap : Option String
  pub sender_enc_ck : Option String
  pub integrity : Option (Dict String)
  pub plaintext_hash : Option String

abbrev pub no_fields : Fields
no_fields = record {
  version = none;
  security_level = none;
  algorithm = none;
  key_id = none;
  body_length = none;
  recipient_key_ids = none;
  signed = none;
  ciphertext = none;
  nonce = none;
  tag = none;
  encapsulated_key = none;
  signature = none;
  sender_encap = none;
  sender_enc_ck = none;
  integrity = none;
  plaintext_hash = none;
}

-- `b64encode(b).decode("ascii")` and `b64decode(text)`, the same from bytes to bytes, `json.dumps(d)
-- .encode()` and `json.loads(b)`, `s.encode("utf-8")` and `b.decode("utf-8", errors="replace")`; `none` is
-- a ValueError. The Base64 text of a JSON object begins with a letter, so it is no JSON text itself.
pub record Codecs : Type 0 where
  pub b64encode : Bytes → String
  pub b64decode : String → Option Bytes
  pub b64encode_bytes : Bytes → Bytes
  pub b64decode_bytes : Bytes → Option Bytes
  pub dumps : Fields → Bytes
  pub loads : Bytes → Option Fields
  pub utf8_encode : String → Bytes
  pub utf8_decode : Bytes → String
  pub decode-encode : (bs : Bytes) → b64decode (b64encode bs) ≡ some bs
  pub decode-encode_bytes : (bs : Bytes) → b64decode_bytes (b64encode_bytes bs) ≡ some bs
  pub loads-dumps : (d : Fields) → loads (dumps d) ≡ some d
  pub loads-encode : (d : Fields) → loads (b64encode_bytes (dumps d)) ≡ none
  pub decode-utf8 : (s : String) → utf8_decode (utf8_encode s) ≡ s
  pub utf8_encode-IsBytes : (s : String) → IsBytes (utf8_encode s)

-- `d["…"]`
abbrev pub member {ℓ} : {A : Type ℓ} → Option A → Result A
member none = err key_error
member (some a) = ok a

-- `d.get("…", default)`
abbrev pub get_or {ℓ} : {A : Type ℓ} → A → Option A → A
get_or a none = a
get_or a (some b) = b

abbrev pub or_value_error {ℓ} : {A : Type ℓ} → Option A → Result A
or_value_error none = err value_error
or_value_error (some a) = ok a

abbrev and_then : (Bytes → Option Fields) → Option Bytes → Option Fields
and_then f none = none
and_then f (some bs) = f bs

abbrev or_else : Option Fields → Option Fields → Option Fields
or_else none d = d
or_else (some c) d = some c

module _ (codecs : Codecs) where
  -- `base64.b64decode(envelope["…"])`
  abbrev pub decoded_member : Option String → Result Bytes
  decoded_member m = member m >>= λ text. or_value_error (codecs.b64decode text)

  -- `base64.b64encode(b).decode("ascii")`, as the value of a member
  abbrev pub encoded : Bytes → Option String
  encoded bs = some (codecs.b64encode bs)

  -- `base64.b64encode(json.dumps(envelope).encode()).decode("ascii")`
  abbrev pub seal_text : Fields → String
  seal_text envelope = codecs.b64encode (codecs.dumps envelope)

  -- `json.loads(base64.b64decode(text))`
  abbrev pub open_text : String → Result Fields
  open_text text = or_value_error (codecs.b64decode text) >>= λ bs. or_value_error (codecs.loads bs)

  -- The same for the bytes of an attachment, which may also be JSON as they are.
  abbrev pub seal_bytes : Fields → Bytes
  seal_bytes envelope = codecs.b64encode_bytes (codecs.dumps envelope)

  abbrev pub open_bytes : Bytes → Option Fields
  open_bytes content =
      or_else (codecs.loads content) (and_then codecs.loads (codecs.b64decode_bytes content))

  pub open-seal : (d : Fields) → open_text (seal_text d) ≡ ok d
  open-seal d = rw codecs.decode-encode (rw codecs.loads-dumps refl)

  pub open-seal_bytes : (d : Fields) → open_bytes (seal_bytes d) ≡ some d
  open-seal_bytes d = rw codecs.loads-encode (rw codecs.decode-encode_bytes (codecs.loads-dumps d))

  pub decoded-encoded : (bs : Bytes) → decoded_member (encoded bs) ≡ ok bs
  decoded-encoded bs = rw codecs.decode-encode refl
