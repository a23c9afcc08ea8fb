-- ===== src/MailApi/Chat.antt =====
-- The endpoints of backend/api/chat.py. The identity that `get_current_user_email` gives is not used by
-- them and left out, texts for people are too. UUIDs and the time are arguments, `isoformat` is the
-- identity.
pub mod Sending
mod Tests
use qu_mail.Prelude.{ℕ, String, Bool, true, Bytes, List, [], ◌∷◌, Option, none, some, map, str_eq}
use qu_mail.Prelude.Int.{ℤ, pos, negsuc}
use qu_mail.Result.{Result, ok, err, Error, key_exhausted, key_request_error, key_not_found}
use qu_mail.KeyManager.Api.{Reply, answer, http, internal_error}
use qu_mail.Engine.Services.{Library, Services}
use qu_mail.Extensions.Base.{SecurityLevel, level_of, level_value, Message, EncryptedMessage}
use qu_mail.Extensions.Chat.{
  ChatSession, ChatExtension, create_session, get_session, list_active_sessions, add_message,
  encrypt_message, decrypt_message,
}

pub record SendMessageRequest : Type 0 where
  pub content : String
  pub security_level : ℤ

pub record SessionResponse : Type 0 where
  pub id : String
  pub peer_id : String
  pub security_level : ℕ
  pub created_at : ℕ
  pub is_active : Bool

pub record MessageResponse : Type 0 where
  pub id : String
  pub sender : String
  pub recipient : String
  pub content : String
  pub timestamp : ℕ
  pub security_level : ℕ
  pub is_self : Bool

-- `SecurityLevel(request.security_level)`
abbrev pub requested_level : ℤ → Option SecurityLevel
requested_level (pos n) = level_of n
requested_level (negsuc n) = none

abbrev pub session_response : ChatSession → SessionResponse
session_response s = record {
  id = s.id;
  peer_id = s.peer_id;
  security_level = level_value s.security_level;
  created_at = s.created_at;
  is_active = s.is_active;
}

-- The answer about a message whose content is the text.
abbrev pub message_response : Message → Bool → String → MessageResponse
message_response m is_self text = record {
  id = m.id;
  sender = m.sender;
  recipient = m.recipient;
  content = text;
  timestamp = m.timestamp;
  security_level = level_value m.security_level;
  is_self = is_self;
}

unfoldable pub list_sessions : ChatExtension → List SessionResponse
list_sessions c = map session_response (list_active_sessions c)

abbrev pub created : ChatSession × ChatExtension → Reply SessionResponse × ChatExtension
created (session, c) = (answer (session_response session), c)

-- `create_session`, whose request has a level that is any int.
unfoldable pub post_session :
    String → ℕ → String → ℤ → ChatExtension → Reply SessionResponse × ChatExtension
post_session uuid now peer_id level c = elim (requested_level level) [
  | none ↦ (http 400, c)
  | some l ↦ created (create_session uuid now peer_id l c)
]

-- `get_session`
unfoldable pub read_session : String → ChatExtension → Reply SessionResponse
read_session session_id c = elim (get_session session_id c) [
  | none ↦ http 404
  | some session ↦ answer (session_response session)
]

-- `except KeyExhaustedError`, then `except KeyRequestError` with its subclasses
abbrev pub refusal : {A : Type 0} → Error → Reply A
refusal key_exhausted = http 503
refusal key_request_error = http 400
refusal key_not_found = http 400
refusal _ = internal_error

abbrev pub own_response : Message → Option String → Option MessageResponse
own_response m none = none
own_response m (some text) = some (message_response m true text)

abbrev pub next_response :
    Message → Option String → Option (List MessageResponse) → Option (List MessageResponse)
next_response m (some text) (some rest) =
    some (message_response m (str_eq m.sender "self") text ∷ rest)
next_response m (some text) none = none
next_response m none rest = none

abbrev pub or_internal_error : {A : Type 0} → Option A → Reply A
or_internal_error none = internal_error
or_internal_error (some a) = answer a

module _ (strict : Bytes → Option String) where
  -- The loop of `get_messages`; `none` is the exception of `decode`.
  unfoldable pub responses : List Message → Option (List MessageResponse)
  responses [] = some []
  responses (m ∷ ms) = next_response m (strict m.content) (responses ms)

  abbrev pub messages_of : Option ChatSession → Reply (List MessageResponse)
  messages_of none = http 404
  messages_of (some session) = or_internal_error (responses session.messages)

  unfoldable pub get_messages : String → ChatExtension → Reply (List MessageResponse)
  get_messages session_id c = messages_of (get_session session_id c)

  module _ (lib : Library) {S : Type 0} (sv : Services S) where
    -- `session.add_message`, and the answer.
    abbrev pub answer_view :
        String → ChatExtension → Result Message × S → Reply MessageResponse × ChatExtension × S
    answer_view session_id c (err x, s) = (internal_error, c, s)
    answer_view session_id c (ok m, s) =
        (or_internal_error (own_response m (strict m.content)), add_message m session_id c, s)

    -- The message is decrypted again for the sender's view of it.
    abbrev pub view_sent :
        String
        → ℕ
        → ChatExtension
        → Result EncryptedMessage × S
        → Reply MessageResponse × ChatExtension × S
    view_sent session_id now c (err x, s) = (refusal x, c, s)
    view_sent session_id now c (ok m, s) =
        answer_view session_id c (decrypt_message lib strict sv now m s)

    abbrev pub send_at :
        String
        → String
        → ℕ
        → String
        → ChatExtension
        → S
        → ChatSession
        → Option SecurityLevel
        → Reply MessageResponse × ChatExtension × S
    send_at session_id uuid now content c s session none = (http 400, c, s)
    send_at session_id uuid now content c s session (some level) = view_sent session_id now c (
        encrypt_message lib strict sv uuid (lib.codecs.utf8_encode content) session.peer_id level s)

    abbrev pub send_in :
        String
        → String
        → ℕ
        → SendMessageRequest
        → ChatExtension
        → S
        → Option ChatSession
        → Reply MessageResponse × ChatExtension × S
    send_in session_id uuid now request c s none = (http 404, c, s)
    send_in session_id uuid now request c s (some session) =
        send_at session_id uuid now request.content c s session
          (requested_level request.security_level)

    -- What the request is answered, and the sessions and the surroundings that it leaves.
    unfoldable pub send_message :
        String
        → String
        → ℕ
        → SendMessageRequest
        → ChatExtension
        → S
        → Reply MessageResponse × ChatExtension × S
    send_message session_id uuid now request c s =
        send_in session_id uuid now request c s (get_session session_id c)
