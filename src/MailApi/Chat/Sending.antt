-- ===== src/MailApi/Chat/Sending.antt =====
-- Proofs about backend/api/chat.py: what is sent is answered, and listed.
use qu_mail.Prelude.{
  ℕ, String, Bytes, Option, some, none, List, ◌++◌, ◌∷◌, [], true, ◌≡◌, ◌≢◌, ap, refl, ◌∙◌, str_eq,
  eq_refl, if◌then◌else◌,
}
use qu_mail.Prelude.Int.{ℤ}
use qu_mail.Dict.{lookup}
use qu_mail.KeyManager.Api.{answer}
use qu_mail.Engine.Services.{Library, Services}
use qu_mail.Engine.Guarantees.{View, Guarantees, kept_refl}
use qu_mail.Engine.RoundTrip.Email.{Fits}
use qu_mail.Extensions.Base.{SecurityLevel, pqc, level_value, Message}
use qu_mail.Extensions.Chat.{ChatSession, ChatExtension, get_session, add_message, with_message}
use qu_mail.Extensions.Chat.RoundTrip.{StrictUtf8, chat_round_trip}
use qu_mail.Extensions.Chat.Sessions.{lookup-change, changed}
use qu_mail.MailApi.Chat.{
  MessageResponse, message_response, own_response, requested_level, responses, next_response,
  get_messages, messages_of, or_internal_error, send_message, send_in, send_at, view_sent,
  answer_view,
}

-- What the sender is shown of a message.
abbrev pub shown : String → ℕ → String → String → SecurityLevel → MessageResponse
shown uuid now text recipient level = record {
  id = uuid;
  sender = "self";
  recipient = recipient;
  content = text;
  timestamp = now;
  security_level = level_value level;
  is_self = true;
}

module _ (strict : Bytes → Option String) where
  joined :
      Option (List MessageResponse) → Option (List MessageResponse) → Option (List MessageResponse)
  joined (some xs) (some ys) = some (xs ++ ys)
  joined (some xs) none = none
  joined none ys = none

  joined_nil : (ys : Option (List MessageResponse)) → ys ≡ joined (some []) ys
  unfolding joined
  joined_nil none = refl
  joined_nil (some ys) = refl

  joined_next :
      (m : Message) (text : Option String) (xs ys : Option (List MessageResponse))
      → next_response m text (joined xs ys) ≡ joined (next_response m text xs) ys
  unfolding joined
  joined_next m none none ys = refl
  joined_next m none (some xs) ys = refl
  joined_next m (some text) none ys = refl
  joined_next m (some text) (some xs) none = refl
  joined_next m (some text) (some xs) (some ys) = refl

  responses-append :
      (ms ns : List Message)
      → responses strict (ms ++ ns) ≡ joined (responses strict ms) (responses strict ns)
  unfolding responses
  responses-append [] ns = joined_nil (responses strict ns)
  responses-append (m ∷ ms) ns =
      ap (next_response m (strict m.content)) (responses-append ms ns)
      ∙ joined_next m (strict m.content) (responses strict ms) (responses strict ns)

-- A message with these fields is shown so.
shown_lem :
    (m : Message) (uuid text recipient : String) (now : ℕ) (level : SecurityLevel)
    → m.id ≡ uuid
    → m.sender ≡ "self"
    → m.recipient ≡ recipient
    → m.security_level ≡ level
    → m.timestamp ≡ now
    → message_response m true text ≡ shown uuid now text recipient level
shown_lem m uuid text recipient now level p q r l t = cc

-- The message that was added is found at the end of the session.
session_after :
    (m : Message) (session_id : String) (c : ChatExtension) (session : ChatSession)
    → get_session session_id c ≡ some session
    → get_session session_id (add_message m session_id c) ≡ some (with_message m session)
unfolding get_session add_message
session_after m session_id c session found =
    lookup-change (with_message m) session_id session_id c (lookup session_id c.sessions) refl
    ∙ ap
        (λ b.
          if b
          then changed (with_message m) (lookup session_id c.sessions)
          else lookup session_id c.sessions)
        (eq_refl session_id)
    ∙ ap (changed (with_message m)) found

module _ (strict : Bytes → Option String) where
  -- The answer about a message that the device itself sent, in a list.
  self_response :
      (m : Message) (text : String)
      → m.sender ≡ "self"
      → strict m.content ≡ some text
      → responses strict (m ∷ []) ≡ some (message_response m true text ∷ [])
  unfolding responses
  self_response m text own decoded =
      ap (λ o. next_response m o (some [])) decoded
      ∙ ap (λ b. some (message_response m b text ∷ []))
          (ap (λ x. str_eq x "self") own ∙ eq_refl "self")

module _ (lib : Library) (strict : Bytes → Option String) (utf8 : StrictUtf8 lib strict)
    {S : Type 0} {view : View S} {sv : Services S} (g : Guarantees view sv) where
  -- In a session that exists, whose messages so far are shown, and at a level that exists and is not PQC, a
  -- text of 1 byte to 1 MiB of UTF-8 is sent: the answer has the text and the peer, and from then on the message stands, shown in the same way, at the
  -- end of the messages of the session.
  pub get_messages-send_message :
      (session_id uuid text : String) (now : ℕ) (number : ℤ) (level : SecurityLevel)
      (session : ChatSession) (before : List MessageResponse) (c : ChatExtension) (s : S)
      → get_session session_id c ≡ some session
      → responses strict session.messages ≡ some before
      → requested_level number ≡ some level
      → level ≢ pqc
      → Fits (lib.codecs.utf8_encode text)
      → view.Ready s
      → (later : ChatExtension) × (t : S) × (send_message strict lib sv session_id uuid now
            (record { content = text; security_level = number })
            c
            s
          ≡ (answer (shown uuid now text session.peer_id level), later, t))
        × (get_messages strict session_id later
            ≡ answer (before ++ shown uuid now text session.peer_id level ∷ []))
  unfolding send_message get_messages joined
  get_messages-send_message session_id uuid text now number level session before c s found old at
        other fits ready =
      let sealed =
        chat_round_trip lib strict utf8 g g level uuid (lib.codecs.utf8_encode text) text
          session.peer_id now s (utf8.strict-encode text) other fits ready in
      let (same, named, kept, reads) = sealed.holds in
      let opened = reads sealed.after (kept_refl kept.ready) in
      let m = opened.value in
      let (content, id, own, peer, l, time) = opened.holds in
      let decoded = ap strict content ∙ utf8.strict-encode text in
      let seen = shown_lem m uuid text session.peer_id now level id own peer l time in
      let c' = add_message m session_id c in
      (
        c',
        opened.after,
        ap
              (send_in strict lib sv session_id uuid now
                (record { content = text; security_level = number }) c s)
              found
            ∙ ap (send_at strict lib sv session_id uuid now text c s session) at
            ∙ ap (view_sent strict lib sv session_id now c) sealed.outcome
            ∙ ap (answer_view strict lib sv session_id c) opened.outcome
            ∙ ap (λ o. (or_internal_error (own_response m o), c', opened.after)) decoded
            ∙ ap (λ r. (answer r, c', opened.after)) seen,
        ap (messages_of strict) (session_after m session_id c session found)
            ∙ ap (or_internal_error) (
                responses-append strict session.messages (m ∷ [])
                ∙ ap (λ o. joined strict o (responses strict (m ∷ []))) old
                ∙ ap (joined strict (some before)) (self_response strict m text own decoded))
            ∙ ap (λ r. answer (before ++ r ∷ [])) seen,
      )
