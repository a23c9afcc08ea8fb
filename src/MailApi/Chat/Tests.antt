-- ===== src/MailApi/Chat/Tests.antt =====
-- Witnesses for the chat endpoints: a session with one message, and a second one sent.
use qu_mail.Dict.{lookup}
use qu_mail.Prelude.{[], ◌∷◌, some, none, ◌≡◌, refl, arith, ap, true}
use qu_mail.Prelude.Int.{pos}
use qu_mail.KeyManager.Api.{answer}
use qu_mail.Engine.Tests.{lib, alice, of, start, start-IsReady}
use qu_mail.Engine.Tests.Wire.{codecs}
use qu_mail.Engine.World.{World}
use qu_mail.Extensions.Base.{otp, aes, Message, level_of}
use qu_mail.Extensions.Chat.{ChatSession, ChatExtension, get_session}
use qu_mail.Extensions.Chat.Tests.{strict, utf8, alice_keeps}
use qu_mail.MailApi.Chat.{send_message, get_messages, next_response, responses}
use qu_mail.MailApi.Chat.Sending.{shown, get_messages-send_message}

abbrev earlier : Message
earlier = record {
  id = "m";
  sender = "self";
  recipient = "bob";
  content = codecs.utf8_encode "yo";
  timestamp = 1;
  security_level = aes;
  key_id = none;
}

abbrev session : ChatSession
session = record {
  id = "s";
  peer_id = "bob";
  security_level = aes;
  created_at = 0;
  messages = earlier ∷ [];
  is_active = true;
}

abbrev chats : ChatExtension
chats = record { initialized = true; sessions = ("s", session) ∷ []; message_queue = [] }

get_messages-send_message_example :
    (later : ChatExtension) × (t : World) × (send_message strict lib
        (of alice)
        "s"
        "n"
        9
        (record { content = "hi"; security_level = pos 1 })
        chats
        start
      ≡ (answer (shown "n" 9 "hi" "bob" otp), later, t))
    × (get_messages strict "s" later
        ≡ answer (shown "m" 1 "yo" "bob" aes ∷ shown "n" 9 "hi" "bob" otp ∷ []))
unfolding get_session lookup responses level_of
get_messages-send_message_example =
    get_messages-send_message lib strict utf8 alice_keeps "s" "n" "hi" 9 (pos 1) otp session
      (shown "m" 1 "yo" "bob" aes ∷ []) chats start refl
      (ap (λ o. next_response earlier o (some [])) (utf8.strict-encode "yo")) refl
      (λ e. ground arith) (omega arith, omega arith) start-IsReady
