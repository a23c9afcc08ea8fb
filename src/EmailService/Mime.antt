-- ===== src/EmailService/Mime.antt =====
-- backend/email_service/mime_builder.py: the message that carries an encrypted e-mail. The
-- message classes of Python's `email` are not modelled: a part is its content type, its headers and what
-- `get_payload(decode=True)` gives of it, and a multipart message is its headers and the parts that `walk`
-- visits below it. Header names are compared as they are written here.
pub mod Parser
pub mod Transport
pub mod Headers
pub mod RoundTrip
mod Tests
use Prim.Native.String.{◌++◌ as append_text}
use qu_mail.Prelude.{
  ℕ, String, Bool, true, false, Bytes, List, [], ◌∷◌, ◌++◌, Option, none, some, map, str_eq, length,
  ◌==◌, if◌then◌else◌, ◌≡◌, ◌≢◌, not,
}
use qu_mail.Dict.{Dict, lookup, contains}
use qu_mail.Result.{Result, ok, err, ◌>>=◌}
use qu_mail.Engine.Envelope.{get_or, or_value_error}

-- The JSON object inside the envelope; a member that is absent is `none`, and members have the types
-- that the code writes.
pub record MimeEnvelope : Type 0 where
  pub subject : Option String
  pub body : Option String
  pub version : Option String
  pub security_level : Option ℕ

-- `str(n)` and `int(text)`, UTF-8, `json` and `base64`; `none` is an exception. The Base64 of a JSON object is
-- ASCII text, and not empty.
pub record MimeCodec : Type 0 where
  pub str : ℕ → String
  pub int : String → Option ℕ
  pub utf8_encode : String → Bytes
  pub utf8_strict : Bytes → Option String
  pub dumps : MimeEnvelope → Bytes
  pub loads : Bytes → Option MimeEnvelope
  pub b64encode : Bytes → Bytes
  pub b64decode : Bytes → Option Bytes
  pub int-str : (n : ℕ) → int (str n) ≡ some n
  pub loads-dumps : (d : MimeEnvelope) → loads (dumps d) ≡ some d
  pub dumps_text :
      (d : MimeEnvelope) → (text : String) × (utf8_strict (b64encode (dumps d)) ≡ some text)
  pub dumps_nonempty : (d : MimeEnvelope) → b64encode (dumps d) ≢ []
  pub decode-encode : (bs : Bytes) → b64decode (b64encode bs) ≡ some bs

pub record MimePart : Type 0 where
  pub content_type : String
  pub headers : Dict String
  pub payload : Bytes

pub data MimeContent : Type 0 where
  multipart : List MimePart → MimeContent
  single : Bytes → MimeContent

pub record MimeMessage : Type 0 where
  pub headers : Dict String
  pub content : MimeContent

pub record OutgoingAttachment : Type 0 where
  pub filename : String
  pub content : Bytes
  pub original_size : Option ℕ

-- `sep.join(texts)`
abbrev pub join_texts : String → List String → String
join_texts sep [] = ""
join_texts sep (x ∷ []) = x
join_texts sep (x ∷ y ∷ ys) = append_text x (append_text sep (join_texts sep (y ∷ ys)))

-- `algorithm_map.get(security_level, "UNKNOWN")`
unfoldable pub algorithm_of : ℕ → String
algorithm_of level =
    if level == 1
    then "OTP-XOR"
    else if level == 2
    then "AES-256-GCM"
    else if level == 3
    then "KYBER-768-AES-256-GCM"
    else "UNKNOWN"

-- A key id that is truthy.
abbrev pub truthy : Option String → Option String
truthy none = none
truthy (some k) = if str_eq k "" then none else some k

abbrev pub key_header : Option String → Dict String
key_header none = []
key_header (some k) = ("X-QuMail-Key-ID", k) ∷ []

abbrev pub cc_header : List String → Dict String
cc_header [] = []
cc_header (x ∷ xs) = ("Cc", join_texts ", " (x ∷ xs)) ∷ []

module _ (codec : MimeCodec) where
  -- The visible text.
  abbrev pub body_text : String → ℕ → Option String → String
  body_text encrypted_body level key_id = join_texts "\n" (
      "-----BEGIN QUMAIL ENCRYPTED MESSAGE-----"
      ∷ "Version: 1.0"
      ∷ append_text "Security-Level: " (codec.str level)
      ∷ append_text "Algorithm: " (algorithm_of level)
      ∷ append_text "Key-ID: " (get_or "N/A" (truthy key_id))
      ∷ ""
      ∷ encrypted_body
      ∷ "-----END QUMAIL ENCRYPTED MESSAGE-----"
      ∷ ""
      ∷ "This email is secured by QuMail. Do not alter this content."
      ∷ ""
      ∷ [])

  abbrev pub attachment_part : OutgoingAttachment → MimePart
  attachment_part a = record {
    content_type = "application/x-qumail-attachment";
    headers =
        (
          "Content-Disposition",
          append_text "attachment; filename=\"" (append_text a.filename ".enc\""),
        )
        ∷ ("X-QuMail-Original-Name", a.filename)
        ∷ ("X-QuMail-Original-Size", codec.str (get_or (length a.content) a.original_size))
        ∷ ("Content-Transfer-Encoding", "base64")
        ∷ [];
    payload = a.content;
  }

  abbrev pub envelope_part : String → String → ℕ → MimePart
  envelope_part subject encrypted_body level = record {
    content_type = "application/x-qumail-envelope";
    headers = ("Content-Transfer-Encoding", "base64") ∷ [];
    payload = codec.b64encode (
        codec.dumps (record {
          subject = some subject;
          body = some encrypted_body;
          version = some "1.0";
          security_level = some level;
        }));
  }

  abbrev pub text_part : String → ℕ → Option String → MimePart
  text_part encrypted_body level key_id = record {
    content_type = "text/plain";
    headers = [];
    payload = codec.utf8_encode (body_text encrypted_body level key_id);
  }

  abbrev pub mime_headers : String → List String → List String → ℕ → Option String → Dict String
  mime_headers from_addr to_addrs cc_addrs level key_id =
      ("From", from_addr) ∷ ("To", join_texts ", " to_addrs) ∷ cc_header cc_addrs
      ++ ("Subject", "New Encrypted Message")
        ∷ ("X-QuMail-Version", "1.0")
        ∷ ("X-QuMail-Security-Level", codec.str level)
        ∷ key_header key_id
      ++ ("X-QuMail-Algorithm", algorithm_of level) ∷ []

  unfoldable pub build_encrypted_mime :
      String
      → List String
      → List String
      → String
      → String
      → ℕ
      → Option String
      → List OutgoingAttachment
      → MimeMessage
  build_encrypted_mime from_addr to_addrs cc_addrs subject encrypted_body level key_id attachments =
      record {
        headers = mime_headers from_addr to_addrs cc_addrs level (truthy key_id);
        content = multipart (
            envelope_part subject encrypted_body level
            ∷ text_part encrypted_body level key_id
            ∷ map attachment_part attachments);
      }
