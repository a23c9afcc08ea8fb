-- ===== src/Engine/RoundTrip/Email.antt =====
-- Proofs about backend/crypto_engine/__init__.py: whole e-mails, with their attachments.
use qu_mail.Prelude.{
  ℕ, String, List, Option, some, Bytes, ◌∷◌, none, ◌≡◌, ◌<◌, ◌==◌, [], arith, length, true, false,
  refl, eq_iff, ◌≤◌, ap,
}
use qu_mail.Crypto.Otp.{IsBytes}
use qu_mail.Crypto.Integrity.Laws.{verify-create}
use qu_mail.Engine.Action.{Gives, gives_bind, gives_lift, gives_weaken}
use qu_mail.Engine.Envelope.{get_or}
use qu_mail.Engine.Services.{Library, Services}
use qu_mail.Engine.Guarantees.{View, Kept, kept_trans, kept_refl}
use qu_mail.Engine.Encrypt.{Encrypted, Attachment}
use qu_mail.Engine.Send.{
  encrypt_body, encrypt_attachment, encrypt_attachments, add_attachments, encrypt_email,
}
use qu_mail.Engine.Decrypt.{Email, or_text}
use qu_mail.Engine.Receive.{decrypt_body, checked, decrypt_email, decrypt_attachment}

-- The e-mail that carries what encryption gave.
abbrev pub received : ℕ → Option String → Encrypted → Email
received level sender x = record {
  security_level = some level;
  body = none;
  encrypted_body = some x.ciphertext;
  key_id = x.key_id;
  encryption_metadata = some x.metadata;
  sender = sender;
}

pub or_text_lem : (t : String) → or_text (some t) "" ≡ t
or_text_lem t = ground (arith, eq_iff t "")

-- Contents that one request of key material covers.
abbrev pub Fits : Bytes → Type 0
Fits bs = (0 < length bs) × (length bs ≤ 1048576)

abbrev pub AllFit : List Attachment → Type 0
AllFit [] = Unit
AllFit (x ∷ xs) = IsBytes x.content × Fits x.content × AllFit xs

module _ (lib : Library) {S : Type 0} (view : View S) (b : Services S) where
  -- Whenever keys are still held, the device gives the contents back.
  abbrev pub Readable : ℕ → Bytes → Bytes → S → Type 0
  Readable level content c t =
      (u : S)
      → Kept view t u
      → Gives (decrypt_attachment lib b c none level) u
          (λ plain v. (plain ≡ content) × Kept view u v)

  -- The attachments of an e-mail, one by one, under their names.
  abbrev pub AllReadable : ℕ → List Attachment → List Attachment → S → Type 0
  AllReadable level [] [] t = Unit
  AllReadable level [] (y ∷ ys) t = ⊥
  AllReadable level (x ∷ xs) [] t = ⊥
  AllReadable level (x ∷ xs) (y ∷ ys) t =
      (y.filename ≡ x.filename) × Readable level x.content y.content t × AllReadable level xs ys t

  abbrev pub BodyReadable : ℕ → String → Option String → Encrypted → S → Type 0
  BodyReadable level body sender x t =
      (u : S)
      → Kept view t u
      → Gives (decrypt_email lib b (received level sender x)) u
          (λ d v. (d.body ≡ body) × (d.integrity_verified ≡ some true))

  module _ (a : Services S) (level : ℕ) (recipients : List String)
      (one : (content : Bytes) (s : S)
        → IsBytes content
        → Fits content
        → view.Ready s
        → Gives
            (encrypt_attachment lib a content level recipients)
            s
            (λ c t. Kept view s t × Readable level content c t)) where
    attachments_lem :
        (xs : List Attachment) (s : S)
        → AllFit xs
        → view.Ready s
        → Gives
            (encrypt_attachments lib a xs level recipients)
            s
            (λ ys t. Kept view s t × AllReadable level xs ys t)
    unfolding encrypt_attachments
    attachments_lem [] s fit ready = gives_lift [] refl (kept_refl ready, tt)
    attachments_lem (x ∷ xs) s (is_bytes, fits, fit) ready =
        gives_bind (one x.content s is_bytes fits ready) (λ c t (k₁, readable).
          gives_bind (attachments_lem xs t fit k₁.ready) (λ ys u (k₂, rest).
            gives_lift _ refl
              (kept_trans k₁ k₂, (refl, (λ v later. readable v (kept_trans k₂ later)), rest))))

    added_lem :
        (xs : List Attachment) (x : Encrypted) (s : S)
        → x.attachments ≡ none
        → AllFit xs
        → view.Ready s
        → Gives (add_attachments lib a xs level recipients x) s (λ y t.
          Kept view s t
          × (y.ciphertext ≡ x.ciphertext)
          × (y.key_id ≡ x.key_id)
          × (y.metadata ≡ x.metadata)
          × AllReadable level xs (get_or [] y.attachments) t)
    unfolding add_attachments
    added_lem [] x s bare fit ready =
        gives_lift x refl (kept_refl ready, refl, refl, refl, rw bare tt)
    added_lem (z ∷ zs) x s bare fit ready =
        gives_bind (attachments_lem (z ∷ zs) s fit ready)
          (λ ys t (kept, all). gives_lift _ refl (kept, refl, refl, refl, all))

    -- A body that decrypts makes an e-mail that does, with its attachments and its digest.
    pub email_lem :
        (body : String) (sender : Option String) (xs : List Attachment) (s : S)
        → (level == 4) ≡ false
        → AllFit xs
        → Gives (encrypt_body lib a body level recipients) s (λ x t.
          (x.attachments ≡ none)
          × Kept view s t
          × ((u : S)
              → Kept view t u
              → Gives
                  (decrypt_body lib b level x.ciphertext x.key_id sender)
                  u
                  (λ plain v. plain ≡ body)))
        → Gives (encrypt_email lib a body level recipients xs) s (λ x t.
          Kept view s t
          × BodyReadable level body sender x t
          × AllReadable level xs (get_or [] x.attachments) t)
    unfolding encrypt_email decrypt_email checked
    email_lem body sender xs s other fit encrypted = rw other (
        gives_bind encrypted (λ x t (bare, k₁, opens).
          gives_weaken (added_lem xs _ t bare fit k₁.ready)
            (λ y u (k₂, same_text, same_id, same_metadata, all). (
              kept_trans k₁ k₂,
              (λ v later.
                  rw (same_text, same_id, same_metadata)
                    (rw or_text_lem (
                      gives_bind (opens v (kept_trans k₂ later)) (λ plain w same.
                        gives_lift _ refl
                          (same, ap some (rw same ((verify-create lib.sha _ _).1 refl))))))),
              all,
            ))))
