-- ===== src/EmailService/Mime/Parser.antt =====
-- backend/email_service/mime_parser.py: what is read of a message that carries an encrypted e-mail.
use qu_mail.EmailService.Mime.{
  MimeEnvelope, MimeCodec, MimePart, MimeContent, multipart, single, MimeMessage,
}
use qu_mail.Prelude.{
  ℕ, String, Bool, Bytes, List, [], ◌∷◌, ◌++◌, Option, none, some, str_eq, if◌then◌else◌, not,
}
use qu_mail.Dict.{Dict, lookup, contains}
use qu_mail.Result.{Result, ok, ◌>>=◌}
use qu_mail.Engine.Envelope.{get_or, or_value_error}

pub record Metadata : Type 0 where
  pub version : String
  pub security_level : ℕ
  pub key_id : Option String
  pub algorithm : Option String
  pub subject : Option String

-- `encrypted` is always True and `content_type` is fixed.
pub record ParsedAttachment : Type 0 where
  pub id : String
  pub filename : String
  pub size : ℕ
  pub content : Bytes

pub record Parsed : Type 0 where
  pub encrypted_body : Option String
  pub body : String
  pub metadata : Metadata
  pub attachments : List ParsedAttachment

-- `result["metadata"].update(…)`
abbrev pub updated : Metadata → MimeEnvelope → Metadata
updated m e = record m {
  version = get_or m.version e.version;
  security_level = get_or m.security_level e.security_level;
  subject = elim e.subject [ none ↦ m.subject | some s ↦ some s ];
}

-- A payload that is not an envelope stands as the body itself.
abbrev pub with_envelope : Parsed → String → Option MimeEnvelope → Parsed
with_envelope r text none = record r { encrypted_body = some text }
with_envelope r text (some e) = record r {
  encrypted_body = some (get_or text e.body);
  metadata = updated r.metadata e;
}

-- `hash_text` is `str(hash(…))`.
module _ (codec : MimeCodec) (hash_text : String → String) where
  abbrev pub loaded : Option Bytes → Option MimeEnvelope
  loaded none = none
  loaded (some b) = codec.loads b

  abbrev pub read_payload : Parsed → Bytes → Option String → Result Parsed
  read_payload r payload none = or_value_error none
  read_payload r payload (some text) = ok (with_envelope r text (loaded (codec.b64decode payload)))

  abbrev pub parse_envelope : Parsed → Bytes → Result Parsed
  parse_envelope r [] = ok r
  parse_envelope r (b ∷ bs) = read_payload r (b ∷ bs) (codec.utf8_strict (b ∷ bs))

  abbrev pub parse_attachment : Parsed → MimePart → Result Parsed
  parse_attachment r part =
      let original_name = get_or "attachment" (lookup "X-QuMail-Original-Name" part.headers) in
      or_value_error (codec.int (get_or "0" (lookup "X-QuMail-Original-Size" part.headers)))
      >>= λ original_size. ok (record r {
        attachments =
            r.attachments
            ++ (record {
              id = hash_text original_name;
              filename = original_name;
              size = original_size;
              content = part.payload;
            })
              ∷ [];
      })

  unfoldable pub parse_part : Parsed → MimePart → Result Parsed
  parse_part r part =
      if str_eq part.content_type "application/x-qumail-envelope"
      then parse_envelope r part.payload
      else if str_eq part.content_type "application/x-qumail-attachment"
      then parse_attachment r part
      else ok r

  unfoldable pub parse_parts : List MimePart → Parsed → Result Parsed
  parse_parts [] r = ok r
  parse_parts (p ∷ ps) r = parse_part r p >>= parse_parts ps

  abbrev pub parse_content : MimeContent → Parsed → Result Parsed
  parse_content (multipart parts) r = parse_parts parts r
  parse_content (single []) r = ok r
  parse_content (single (b ∷ bs)) r = or_value_error (codec.utf8_strict (b ∷ bs)) >>= λ text.
      ok (record r { encrypted_body = some text })

  abbrev pub metadata_of : Dict String → ℕ → Metadata
  metadata_of headers level = record {
    version = get_or "1.0" (lookup "X-QuMail-Version" headers);
    security_level = level;
    key_id = lookup "X-QuMail-Key-ID" headers;
    algorithm = lookup "X-QuMail-Algorithm" headers;
    subject = none;
  }

  unfoldable pub parse_qumail_message : MimeMessage → Result Parsed
  parse_qumail_message msg =
      or_value_error (codec.int (get_or "4" (lookup "X-QuMail-Security-Level" msg.headers)))
      >>= λ level. parse_content msg.content (record {
        encrypted_body = none;
        body = "";
        metadata = metadata_of msg.headers level;
        attachments = [];
      })

-- `is_qumail_message`
abbrev pub is_qumail_message : MimeMessage → Bool
is_qumail_message msg = contains "X-QuMail-Version" msg.headers

unfoldable pub get_security_level : MimeCodec → MimeMessage → ℕ
get_security_level codec msg =
    if not (is_qumail_message msg)
    then 4
    else get_or 4 (codec.int (get_or "4" (lookup "X-QuMail-Security-Level" msg.headers)))

abbrev pub get_key_id : MimeMessage → Option String
get_key_id msg = lookup "X-QuMail-Key-ID" msg.headers
