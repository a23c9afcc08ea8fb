-- ===== src/Extensions/Chat.antt =====
-- SecureChatExtension of backend/extensions/chat.py. UUIDs and the time are arguments; a session is found
-- through the dict of sessions alone.
pub mod Sessions
pub mod RoundTrip
pub mod Tests
use qu_mail.Prelude.{
  ℕ, String, Bool, false, true, ◌++◌, List, none, Bytes, [], Option, ◌∷◌, some, if◌then◌else◌,
}
use qu_mail.Dict.{Dict, lookup, insert}
use qu_mail.Result.{Result, ok, err, value_error}
use qu_mail.Engine.Action.{Action, ◌>>=◌, pure, lift}
use qu_mail.Engine.Envelope.{or_value_error, get_or, no_fields}
use qu_mail.Engine.Services.{Library, Services}
use qu_mail.Engine.Encrypt.{Encrypted}
use qu_mail.Engine.Send.{encrypt_email}
use qu_mail.Engine.Decrypt.{Email}
use qu_mail.Engine.Receive.{decrypt_email}
use qu_mail.Extensions.Base.{
  SecurityLevel, otp, aes, pqc, plain, level_value, Message, EncryptedMessage,
}

pub record ChatSession : Type 0 where
  pub id : String
  pub peer_id : String
  pub security_level : SecurityLevel
  pub created_at : ℕ
  pub messages : List Message
  pub is_active : Bool

pub record ChatExtension : Type 0 where
  pub initialized : Bool
  pub sessions : Dict ChatSession
  pub message_queue : List EncryptedMessage

-- `__init__`
abbrev pub new_extension : ChatExtension
new_extension = record { initialized = false; sessions = []; message_queue = [] }

unfoldable pub initialize : ChatExtension → ChatExtension
initialize c = record c { initialized = true }

abbrev pub new_session : String → ℕ → String → SecurityLevel → ChatSession
new_session uuid now peer_id security_level = record {
  id = uuid;
  peer_id = peer_id;
  security_level = security_level;
  created_at = now;
  messages = [];
  is_active = true;
}

unfoldable pub create_session :
    String → ℕ → String → SecurityLevel → ChatExtension → ChatSession × ChatExtension
create_session uuid now peer_id security_level c =
    let session = new_session uuid now peer_id security_level in
    (session, record c { sessions = insert uuid session c.sessions })

unfoldable pub get_session : String → ChatExtension → Option ChatSession
get_session session_id c = lookup session_id c.sessions

-- A change of the session with the id, where there is one.
abbrev pub change_session :
    (ChatSession → ChatSession) → String → ChatExtension → Option ChatSession → ChatExtension
change_session f session_id c none = c
change_session f session_id c (some session) = record c {
  sessions = insert session_id (f session) c.sessions;
}

-- `ChatSession.close` and `ChatSession.add_message`
abbrev pub closed : ChatSession → ChatSession
closed session = record session { is_active = false }

abbrev pub with_message : Message → ChatSession → ChatSession
with_message message session = record session { messages = session.messages ++ message ∷ [] }

unfoldable pub close_session : String → ChatExtension → ChatExtension
close_session session_id c = change_session closed session_id c (lookup session_id c.sessions)

unfoldable pub add_message : Message → String → ChatExtension → ChatExtension
add_message message session_id c =
    change_session (with_message message) session_id c (lookup session_id c.sessions)

unfoldable pub active_of : Dict ChatSession → List ChatSession
active_of [] = []
active_of ((k, session) ∷ more) =
    let rest = active_of more in if session.is_active then session ∷ rest else rest

unfoldable pub list_active_sessions : ChatExtension → List ChatSession
list_active_sessions c = active_of c.sessions

-- `cleanup`: the sessions are closed, and forgotten.
unfoldable pub cleanup : ChatExtension → ChatExtension
cleanup c = record { initialized = false; sessions = []; message_queue = [] }

-- The e-mail that the engine is given of an encrypted message.
abbrev pub email_of : String → EncryptedMessage → Email
email_of text m = record {
  security_level = some (level_value m.security_level);
  body = none;
  encrypted_body = some text;
  key_id = m.key_id;
  encryption_metadata = some (get_or no_fields m.metadata);
  sender = none;
}

abbrev pub plain_message : ℕ → EncryptedMessage → Message
plain_message now m = record {
  id = m.id;
  sender = m.sender;
  recipient = m.recipient;
  content = m.ciphertext;
  timestamp = now;
  security_level = m.security_level;
  key_id = none;
}

abbrev pub sealed_message : Library → String → String → SecurityLevel → Encrypted → EncryptedMessage
sealed_message lib uuid recipient level x = record {
  id = uuid;
  sender = "self";
  recipient = recipient;
  ciphertext = lib.codecs.utf8_encode x.ciphertext;
  key_id = x.key_id;
  security_level = level;
  metadata = some x.metadata;
}

-- `strict` is `.decode("utf-8")`, whose failure is a ValueError.
module _ (lib : Library) (strict : Bytes → Option String) {S : Type 0} (sv : Services S) where
  unfoldable pub seal_message : String → Bytes → String → SecurityLevel → Action S EncryptedMessage
  seal_message uuid content recipient level = lift (or_value_error (strict content)) >>= λ body.
      encrypt_email lib sv body (level_value level) (recipient ∷ []) [] >>= λ x.
      pure (sealed_message lib uuid recipient level x)

  unfoldable pub encrypt_message :
      String → Bytes → String → SecurityLevel → Action S EncryptedMessage
  encrypt_message uuid content recipient plain = pure (record {
    id = uuid;
    sender = "self";
    recipient = recipient;
    ciphertext = content;
    key_id = some "";
    security_level = plain;
    metadata = none;
  })
  encrypt_message uuid content recipient otp = seal_message uuid content recipient otp
  encrypt_message uuid content recipient aes = seal_message uuid content recipient aes
  encrypt_message uuid content recipient pqc = seal_message uuid content recipient pqc

  unfoldable pub open_message : ℕ → EncryptedMessage → Action S Message
  open_message now m = lift (or_value_error (strict m.ciphertext)) >>= λ text.
      decrypt_email lib sv (email_of text m) >>= λ d.
      pure (record (plain_message now m) {
        content = lib.codecs.utf8_encode d.body;
        key_id = m.key_id;
      })

  abbrev pub decrypt_at : ℕ → EncryptedMessage → SecurityLevel → Action S Message
  decrypt_at now m plain = pure (plain_message now m)
  decrypt_at now m otp = open_message now m
  decrypt_at now m aes = open_message now m
  decrypt_at now m pqc = open_message now m

  unfoldable pub decrypt_message : ℕ → EncryptedMessage → Action S Message
  decrypt_message now m = decrypt_at now m m.security_level
