-- ===== src/Extensions/Chat/RoundTrip.antt =====
-- Proofs about backend/extensions/chat.py: what one device encrypts another one decrypts.
use qu_mail.Prelude.{
  ℕ, Bytes, Option, String, ◌≡◌, ◌≤◌, some, ap, refl, [], none, ◌∙◌, subst, arith, sym, ◌≢◌,
}
use qu_mail.Result.{Result, Error, err, key_exhausted}
use qu_mail.Engine.Action.{
  continue, pure, lift, ◌>>=◌, gives_weaken, Action, Gives, gives_bind, gives_lift, gives_step,
  fails_bind,
}
use qu_mail.Engine.Envelope.{or_value_error}
use qu_mail.Engine.Services.{Library, Services}
use qu_mail.Engine.Guarantees.{View, Kept, kept_refl, Guarantees}
use qu_mail.Engine.RoundTrip.Email.{Fits}
use qu_mail.Engine.RoundTrip.Levels.{decrypt_email-encrypt_email, decrypt_email-once}
use qu_mail.Extensions.Base.{
  SecurityLevel, otp, aes, pqc, plain, level_value, Message, EncryptedMessage,
}
use qu_mail.Engine.Decrypt.{Decrypted}
use qu_mail.Engine.Receive.{decrypt_email}
use qu_mail.Extensions.Chat.{
  email_of, plain_message, sealed_message, decrypt_at, seal_message, encrypt_message, open_message,
  decrypt_message, Bytes, Option, String, some, [], none,
}

-- `.decode("utf-8")` accepts exactly what `.encode("utf-8")` gives.
pub record StrictUtf8 (lib : Library) (strict : Bytes → Option String) : Type 0 where
  pub strict-encode : (s : String) → strict (lib.codecs.utf8_encode s) ≡ some s
  pub encode-strict : (b : Bytes) (s : String) → strict b ≡ some s → lib.codecs.utf8_encode s ≡ b

module _ (lib : Library) (strict : Bytes → Option String) (utf8 : StrictUtf8 lib strict)
    {S : Type 0} {view : View S} {a b : Services S} (ga : Guarantees view a)
    (gb : Guarantees view b) where
  -- What the recipient gets of a message.
  abbrev pub Arrives : ℕ → Bytes → String → String → SecurityLevel → Message → Type 0
  Arrives now content uuid recipient level msg =
      (msg.content ≡ content)
      × (msg.id ≡ uuid)
      × (msg.sender ≡ "self")
      × (msg.recipient ≡ recipient)
      × (msg.security_level ≡ level)
      × (msg.timestamp ≡ now)

  sealed_round_trip :
      (level : SecurityLevel) (uuid : String) (content : Bytes) (text recipient : String) (now : ℕ)
      (s : S)
      → 1 ≤ level_value level
      → level_value level ≤ 2
      → strict content ≡ some text
      → Fits content
      → view.Ready s
      → Gives (seal_message lib strict a uuid content recipient level) s (λ m t.
        (m.recipient ≡ recipient)
        × (m.security_level ≡ level)
        × Kept view s t
        × ((u : S)
            → Kept view t u
            → Gives
                (open_message lib strict b now m)
                u
                (λ msg v. Arrives now content uuid recipient level msg)))
  unfolding seal_message open_message
  sealed_round_trip level uuid content text recipient now s low high decoded fits ready =
      let same = utf8.encode-strict content text decoded in
      gives_step _ text (ap or_value_error decoded) (
        gives_bind
          (decrypt_email-encrypt_email lib ga gb (level_value level) text recipient [] none [] s low
            high (rw same fits) tt ready)
          (λ x t (kept, readable, all). gives_lift _ refl (
            refl,
            refl,
            kept,
            (λ u later.
                gives_step _ x.ciphertext (ap or_value_error (utf8.strict-encode x.ciphertext)) (
                  gives_bind (readable u later) (λ d v (body, verified).
                    gives_lift _ refl
                      (ap lib.codecs.utf8_encode body ∙ same, refl, refl, refl, refl, refl)))),
          )))

  -- A level at which messages are opened by the engine.
  as_sealed :
      (level : SecurityLevel) (uuid : String) (content : Bytes) (text recipient : String) (now : ℕ)
      (s : S)
      → 1 ≤ level_value level
      → level_value level ≤ 2
      → strict content ≡ some text
      → Fits content
      → view.Ready s
      → ((m : EncryptedMessage)
          → decrypt_at lib strict b now m level ≡ open_message lib strict b now m)
      → Gives (seal_message lib strict a uuid content recipient level) s (λ m t.
        (m.recipient ≡ recipient)
        × (m.security_level ≡ level)
        × Kept view s t
        × ((u : S)
            → Kept view t u
            → Gives
                (decrypt_message lib strict b now m)
                u
                (λ msg v. Arrives now content uuid recipient level msg)))
  unfolding decrypt_message
  as_sealed level uuid content text recipient now s low high decoded fits ready opens =
      gives_weaken
        (sealed_round_trip level uuid content text recipient now s low high decoded fits ready)
        (λ m t (same, at, kept, readable). (
          same,
          at,
          kept,
          (λ u later.
              subst (λ act. Gives act u (λ msg v. Arrives now content uuid recipient level msg))
                (sym (ap (decrypt_at lib strict b now m) at ∙ opens m)) (readable u later)),
        ))

  -- At every level but PQC, a message of 1 byte to 1 MiB of UTF-8 text that one device encrypts to a peer is
  -- decrypted by the other in every later state in which the keys are held: the content, the id, the
  -- recipient and the level are those that were sent.
  pub chat_round_trip :
      (level : SecurityLevel) (uuid : String) (content : Bytes) (text recipient : String) (now : ℕ)
      (s : S)
      → strict content ≡ some text
      → level ≢ pqc
      → Fits content
      → view.Ready s
      → Gives (encrypt_message lib strict a uuid content recipient level) s (λ m t.
        (m.recipient ≡ recipient)
        × (m.security_level ≡ level)
        × Kept view s t
        × ((u : S)
            → Kept view t u
            → Gives
                (decrypt_message lib strict b now m)
                u
                (λ msg v. Arrives now content uuid recipient level msg)))
  unfolding encrypt_message decrypt_message
  chat_round_trip plain uuid content text recipient now s decoded other fits ready =
      gives_lift _ refl (
        refl,
        refl,
        kept_refl ready,
        (λ u later. gives_lift _ refl (refl, refl, refl, refl, refl, refl)),
      )
  chat_round_trip otp uuid content text recipient now s decoded other fits ready =
      as_sealed otp uuid content text recipient now s (omega arith) (omega arith) decoded fits ready
        (λ m. refl)
  chat_round_trip aes uuid content text recipient now s decoded other fits ready =
      as_sealed aes uuid content text recipient now s (omega arith) (omega arith) decoded fits ready
        (λ m. refl)
  chat_round_trip pqc uuid content text recipient now s decoded other fits ready =
      absurd (other refl)

  refused_again :
      {e : Error} (now : ℕ) (m : EncryptedMessage) (text : String) (v : S)
      → strict m.ciphertext ≡ some text
      → decrypt_email lib b (email_of text m) v ≡ (err e, v)
      → open_message lib strict b now m v ≡ (err e, v)
  unfolding open_message ◌>>=◌ lift
  refused_again now m text v decoded refused =
      let view_of : Decrypted → Action S Message = λ d. pure (record (plain_message now m) {
        content = lib.codecs.utf8_encode d.body;
        key_id = m.key_id;
      }) in
      let reads : Result String → Result Message × S =
        λ r. continue (λ body. decrypt_email lib b (email_of body m) >>= view_of) (r, v) in
      ap (λ o. reads (or_value_error o)) decoded
      ∙ fails_bind (decrypt_email lib b (email_of text m)) view_of refused

  -- A chat message at level OTP is read once: after a device has decrypted it, decrypting it again, there or
  -- anywhere with the same services, is refused as the key is exhausted.
  pub decrypt_message-once :
      (uuid : String) (content : Bytes) (text recipient : String) (now later : ℕ) (s : S)
      → strict content ≡ some text
      → Fits content
      → view.Ready s
      → Gives (encrypt_message lib strict a uuid content recipient otp) s (λ m t.
        (u : S)
        → Kept view t u
        → Gives (decrypt_message lib strict b now m) u (λ msg v.
          (msg.content ≡ content)
          × (decrypt_message lib strict b later m v ≡ (err key_exhausted, v))))
  unfolding encrypt_message seal_message decrypt_message open_message
  decrypt_message-once uuid content text recipient now later s decoded fits ready =
      let same = utf8.encode-strict content text decoded in
      gives_step _ text (ap or_value_error decoded) (
        gives_bind (decrypt_email-once lib ga gb text recipient [] none s (rw same fits) ready)
          (λ x t opens. gives_lift _ refl (λ u kept.
            gives_step _ x.ciphertext (ap or_value_error (utf8.strict-encode x.ciphertext)) (
              gives_bind (opens u kept) (λ d v (body, gone). gives_lift _ refl (
                ap lib.codecs.utf8_encode body ∙ same,
                refused_again later (sealed_message lib uuid recipient otp x) x.ciphertext v
                    (utf8.strict-encode x.ciphertext) gone,
              ))))))
