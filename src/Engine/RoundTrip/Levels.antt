-- ===== src/Engine/RoundTrip/Levels.antt =====
-- Proofs about backend/crypto_engine/__init__.py: `encrypt_email` and `decrypt_email` at the security levels.
use qu_mail.Result.{err, key_exhausted}
use qu_mail.Prelude.{
  ℕ, String, List, ◌≤◌, Option, Bytes, ◌∷◌, suc, ◌≡◌, [], none, arith, zero, refl,
}
use qu_mail.Engine.Action.{Gives, gives_bind, gives_lift, gives_weaken, fails_bind}
use qu_mail.Crypto.Otp.{IsBytes}
use qu_mail.Engine.Envelope.{get_or}
use qu_mail.Engine.Services.{Library, Services}
use qu_mail.Engine.Guarantees.{View, Kept, Guarantees}
use qu_mail.Engine.Encrypt.{Attachment}
use qu_mail.Engine.Send.{encrypt_body, encrypt_attachment, encrypt_email, add_attachments}
use qu_mail.Engine.Receive.{decrypt_body, decrypt_email, checked}
use qu_mail.Engine.RoundTrip.Otp.{otp_body, otp_attachment}
use qu_mail.Engine.RoundTrip.Aes.{aes_body, aes_attachment}
use qu_mail.Engine.RoundTrip.Email.{
  received, Fits, AllFit, Readable, AllReadable, BodyReadable, email_lem, or_text_lem,
}

module _ (lib : Library) {S : Type 0} {view : View S} {a b : Services S} (ga : Guarantees view a)
    (gb : Guarantees view b) where
  attachment-Readable :
      (level : ℕ) (r : String) (rs : List String)
      → 1 ≤ level
      → level ≤ 2
      → (content : Bytes) (s : S) → IsBytes content
      → Fits content
      → view.Ready s
      → Gives
          (encrypt_attachment lib a content level (r ∷ rs))
          s
          (λ c t. Kept view s t × Readable lib view b level content c t)
  unfolding encrypt_attachment
  attachment-Readable (suc zero) r rs low high content s is_bytes (positive, small) ready =
      otp_attachment lib ga gb content r rs none s is_bytes ready positive small
  attachment-Readable (suc (suc zero)) r rs low high content s is_bytes fits ready =
      aes_attachment lib gb ga content r rs none s ready
  attachment-Readable zero r rs low high content s is_bytes fits ready = absurd (omega arith)
  attachment-Readable (suc (suc (suc n))) r rs low high content s is_bytes fits ready =
      absurd (omega arith)

  body_readable :
      (level : ℕ) (body r : String) (rs : List String) (sender : Option String) (s : S)
      → 1 ≤ level
      → level ≤ 2
      → Fits (lib.codecs.utf8_encode body)
      → view.Ready s
      → Gives (encrypt_body lib a body level (r ∷ rs)) s (λ x t.
        (x.attachments ≡ none)
        × Kept view s t
        × ((u : S)
            → Kept view t u
            → Gives
                (decrypt_body lib b level x.ciphertext x.key_id sender)
                u
                (λ plain v. plain ≡ body)))
  unfolding encrypt_body decrypt_body
  body_readable (suc zero) body r rs sender s low high (positive, small) ready =
      gives_weaken (otp_body lib ga gb body r rs s ready positive small) (λ x t (bare, kept, opens).
        (bare, kept, (λ u later. gives_weaken (opens u later) (λ p v q. q.0))))
  body_readable (suc (suc zero)) body r rs sender s low high fits ready =
      gives_weaken (aes_body lib gb ga body r rs s ready) (λ x t (bare, kept, opens).
        (bare, kept, (λ u later. gives_weaken (opens u later) (λ p v q. q.0))))
  body_readable zero body r rs sender s low high fits ready = absurd (omega arith)
  body_readable (suc (suc (suc n))) body r rs sender s low high fits ready = absurd (omega arith)

  -- End to end. Let two devices share a Key Manager that keeps its guarantees. At the levels 1 and 2, what
  -- one device encrypts to at least one recipient, body and attachments of 1 byte to 1 MiB, the other device
  -- decrypts in every later state in which the keys are still held: the body comes back, its integrity
  -- verified, and every attachment under its name.
  pub decrypt_email-encrypt_email :
      (level : ℕ) (body r : String) (rs : List String) (sender : Option String)
      (xs : List Attachment) (s : S)
      → 1 ≤ level
      → level ≤ 2
      → Fits (lib.codecs.utf8_encode body)
      → AllFit xs
      → view.Ready s
      → Gives (encrypt_email lib a body level (r ∷ rs) xs) s (λ x t.
        Kept view s t
        × BodyReadable lib view b level body sender x t
        × AllReadable lib view b level xs (get_or [] x.attachments) t)
  decrypt_email-encrypt_email level body r rs sender xs s low high fits all ready =
      email_lem lib view b a level (r ∷ rs) (attachment-Readable level r rs low high) body sender xs
        s (ground arith) all (body_readable level body r rs sender s low high fits ready)

  -- A message at level 1 is read once: with the same guarantees, after a device has read the body that was
  -- encrypted with a one-time pad, reading it again is refused as the key is exhausted.
  pub decrypt_email-once :
      (body r : String) (rs : List String) (sender : Option String) (s : S)
      → Fits (lib.codecs.utf8_encode body)
      → view.Ready s
      → Gives (encrypt_email lib a body 1 (r ∷ rs) []) s (λ x t.
        (u : S)
        → Kept view t u
        → Gives (decrypt_email lib b (received 1 sender x)) u (λ d v.
          (d.body ≡ body) × (decrypt_email lib b (received 1 sender x) v ≡ (err key_exhausted, v))))
  unfolding encrypt_email encrypt_body add_attachments decrypt_email decrypt_body checked
  decrypt_email-once body r rs sender s (positive, small) ready =
      gives_bind (otp_body lib ga gb body r rs s ready positive small) (λ x t (bare, kept, opens).
        gives_lift _ refl (λ u later. rw or_text_lem (
          gives_bind (opens u later)
            (λ plain v (same, gone). gives_lift _ refl (same, fails_bind _ _ gone)))))
