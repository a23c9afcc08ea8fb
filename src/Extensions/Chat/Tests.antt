-- ===== src/Extensions/Chat/Tests.antt =====
-- Witnesses for the chat extension.
use qu_mail.Prelude.{
  ◌∷◌, [], refl, arith, ◌≡◌, Bool, Bytes, String, Option, some, ap, none, true, sym, false, ◌∙◌,
}
use qu_mail.Result.{err, key_exhausted}
use qu_mail.Dict.{}
use qu_mail.Crypto.Examples.{oqs}
use qu_mail.Crypto.Otp.{same_bytes}
use qu_mail.Crypto.Otp.Laws.{same_bytes_refl, same_bytes→eq}
use qu_mail.KeyManager.Tests.Data.{codec}
use qu_mail.Engine.Action.{Gives}
use qu_mail.Engine.Guarantees.{Guarantees, Kept}
use qu_mail.Engine.World.{World}
use qu_mail.Engine.World.Laws.{device-Guarantees}
use qu_mail.Engine.Tests.{lib, any_text, supply, alice, bob, start, start-IsReady, of, view}
use qu_mail.Engine.Tests.Wire.{codecs}
use qu_mail.Extensions.Base.{aes, otp}
use qu_mail.Extensions.Chat.{
  encrypt_message, decrypt_message, new_extension, close_session, get_session, Bool, Bytes, String,
  Option, some, none, true,
}
use qu_mail.Extensions.Chat.RoundTrip.{StrictUtf8, Arrives, chat_round_trip, decrypt_message-once}
use qu_mail.Extensions.Chat.Sessions.{create, close, run, Ended, closed_stays_closed}

-- The decoder that accepts what the toy encoding gives.
abbrev accept : Bool → String → Option String
accept false s = none
accept true s = some s

accepted : (t : Bool) (s r : String) → accept t s ≡ some r → (t ≡ true) × (s ≡ r)
accepted false s r h = absurd (ground arith)
accepted true s r h = (refl, ground arith)

abbrev pub strict : Bytes → Option String
strict b = accept (same_bytes (codecs.utf8_encode (codecs.utf8_decode b)) b) (codecs.utf8_decode b)

strict_self : (s : String) → strict (codecs.utf8_encode s) ≡ some s
strict_self s = rw codecs.decode-utf8 (rw same_bytes_refl refl)

strict_sound : (b : Bytes) (s : String) → strict b ≡ some s → codecs.utf8_encode s ≡ b
strict_sound b s h =
    let (same, text) = accepted _ (codecs.utf8_decode b) s h in
    ap codecs.utf8_encode (sym text) ∙ same_bytes→eq _ b same

pub utf8 : StrictUtf8 lib strict
utf8 = record { strict-encode = strict_self; encode-strict = strict_sound }

pub alice_keeps : Guarantees view (of alice)
alice_keeps = device-Guarantees codec any_text supply oqs alice (λ t. refl)

abbrev bob_keeps : Guarantees view (of bob)
bob_keeps = device-Guarantees codec any_text supply oqs bob (λ t. refl)

chat_round_trip_example :
    Gives
      (encrypt_message lib strict (of alice) "m" (codecs.utf8_encode "hi") "bob" aes)
      start
      (λ m t.
        (m.recipient ≡ "bob")
        × (m.security_level ≡ aes)
        × Kept view start t
        × ((u : World)
            → Kept view t u
            → Gives (decrypt_message lib strict (of bob) 9 m) u (λ msg v.
              Arrives lib strict utf8 alice_keeps bob_keeps 9
                (codecs.utf8_encode "hi")
                "m"
                "bob"
                aes
                msg)))
chat_round_trip_example =
    chat_round_trip lib strict utf8 alice_keeps bob_keeps aes "m" (codecs.utf8_encode "hi") "hi"
      "bob" 9 start (strict_self "hi") (λ e. ground arith) (omega arith, omega arith) start-IsReady

decrypt_message-once_example :
    Gives
      (encrypt_message lib strict (of alice) "m" (codecs.utf8_encode "hi") "bob" otp)
      start
      (λ m t.
        (u : World)
        → Kept view t u
        → Gives (decrypt_message lib strict (of bob) 9 m) u (λ msg v.
          (msg.content ≡ codecs.utf8_encode "hi")
          × (decrypt_message lib strict (of bob) 10 m v ≡ (err key_exhausted, v))))
decrypt_message-once_example =
    decrypt_message-once lib strict utf8 alice_keeps bob_keeps "m" (codecs.utf8_encode "hi") "hi"
      "bob" 9 10 start (strict_self "hi") (omega arith, omega arith) start-IsReady

closed_stays_closed_example : Ended (
    get_session "s"
      (run (create "t" 3 "bob" aes ∷ close "s" ∷ []) (close_session "s" new_extension)))
closed_stays_closed_example =
    closed_stays_closed (create "t" 3 "bob" aes ∷ close "s" ∷ []) "s" new_extension (refl, tt)
