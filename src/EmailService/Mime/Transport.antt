-- ===== src/EmailService/Mime/Transport.antt =====
-- The way of a message to its receiver: serialized, sent, fetched over IMAP and parsed by
-- `message_from_bytes` (backend/email_service/imap_handler.py). Python's `email` package and the servers are
-- a parameter: what comes back of the headers of a message or a part. A value that is not ASCII comes back
-- as an encoded word, a long one folded; the payloads are in Base64 and come back.
use Prim.Native.Char.{code}
use qu_mail.Prelude.{
  String, Bool, true, ◌&&◌, ltb, str_eq, take_text, text_length, map, none, some, ◌≡◌, ◌+◌, ◌≤◌,
}
use qu_mail.Dict.{Dict, lookup}
use qu_mail.EmailService.Mime.{MimePart, MimeContent, multipart, single, MimeMessage}

-- Visible ASCII characters only.
abbrev pub is_visible : String → Bool
is_visible String.[] = true
is_visible (String.◌∷◌ c s) = ltb 32 (code c) && (ltb (code c) 127 && is_visible s)

-- A header of the program with a value that no serialization has to encode or to fold: the line has at most
-- 78 characters.
abbrev pub Travels : String → String → Type 0
Travels name value = (is_visible value ≡ true) × (text_length name + text_length value ≤ 76)

abbrev pub is_own : String → Bool
is_own name = str_eq (take_text 9 name) "X-QuMail-"

pub record MimeTransport : Type 0 where
  pub carry : Dict String → Dict String
  pub lookup-carry :
      (headers : Dict String) (name value : String)
      → is_own name ≡ true
      → lookup name headers ≡ some value
      → Travels name value
      → lookup name (carry headers) ≡ some value
  pub carry-absent :
      (headers : Dict String) (name : String)
      → is_own name ≡ true
      → lookup name headers ≡ none
      → lookup name (carry headers) ≡ none

module _ (transport : MimeTransport) where
  abbrev pub received_part : MimePart → MimePart
  received_part p = record p { headers = transport.carry p.headers }

  abbrev pub received_content : MimeContent → MimeContent
  received_content (multipart parts) = multipart (map received_part parts)
  received_content (single payload) = single payload

  -- What `message_from_bytes` gives of a message that was sent.
  abbrev pub received : MimeMessage → MimeMessage
  received m = record { headers = transport.carry m.headers; content = received_content m.content }
