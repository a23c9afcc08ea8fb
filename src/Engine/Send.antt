-- ===== src/Engine/Send.antt =====
-- Encryption of backend/crypto_engine/__init__.py: attachments, and `encrypt_email`. The audit lines are
-- left out.
use qu_mail.Result.{err, value_error}
use qu_mail.Prelude.{ℕ, String, List, Bytes, ◌∷◌, if◌then◌else◌, length, ◌==◌, some, none, [], ◌++◌}
use qu_mail.Engine.Action.{Action, ◌>>=◌, pure, lift}
use qu_mail.Engine.Envelope.{no_fields, encoded, seal_bytes}
use qu_mail.Engine.Services.{Library, Services}
use qu_mail.Engine.Encrypt.{
  Attachment, Encrypted, first, public_key_of, attachment_context, hybrid_context, seal, wrap_key,
  encrypt_otp, encrypt_aes, encrypt_pqc,
}
use qu_mail.Crypto.Otp.{otp_encrypt}
use qu_mail.Crypto.KeyDerivation.{derive_key}
use qu_mail.Crypto.Integrity.{compute_hash, create_integrity_envelope}

module _ (lib : Library) {S : Type 0} (sv : Services S) where
  -- `_encrypt_attachment`, level by level.
  unfoldable pub attach_otp : Bytes → List String → Action S Bytes
  attach_otp content recipients = lift (first recipients) >>= λ recipient.
      sv.request_key recipient (length content) "otp" >>= λ key_response.
      lift (otp_encrypt content key_response.key_material) >>= λ ciphertext. pure (
        seal_bytes lib.codecs (record no_fields {
          version = some "1.0";
          security_level = some 1;
          key_id = some key_response.key_id;
          ciphertext = encoded lib.codecs ciphertext;
        }))

  unfoldable pub attach_aes : Bytes → List String → Action S Bytes
  attach_aes content recipients = lift (first recipients) >>= λ recipient.
      sv.request_key recipient 32 "aes_seed" >>= λ key_response.
      lift (derive_key lib.hkdf key_response.key_material attachment_context 32 []) >>= λ aes_key.
      seal lib sv content aes_key >>= λ sealed. pure (
        seal_bytes lib.codecs (record no_fields {
          version = some "1.0";
          security_level = some 2;
          key_id = some key_response.key_id;
          nonce = encoded lib.codecs sealed.1;
          tag = encoded lib.codecs sealed.2;
          ciphertext = encoded lib.codecs sealed.0;
        }))

  unfoldable pub attach_pqc : Bytes → List String → Action S Bytes
  attach_pqc content recipients = lift (first recipients) >>= λ r.
      sv.get_known_recipient r >>= λ recipient. sv.get_public_key "pqc" >>= λ sender_pub_key.
      sv.pqc_encrypt (public_key_of recipient) >>= λ sent.
      sv.request_key r 32 "aes_seed" >>= λ key_response.
      lift (derive_key lib.hkdf (sent.1 ++ key_response.key_material) hybrid_context 32 [])
      >>= λ combined_key. seal lib sv content combined_key >>= λ sealed.
          wrap_key lib sv sender_pub_key combined_key (record no_fields {
            version = some "1.0";
            security_level = some 3;
            key_id = some key_response.key_id;
            encapsulated_key = encoded lib.codecs sent.0;
            nonce = encoded lib.codecs sealed.1;
            tag = encoded lib.codecs sealed.2;
            ciphertext = encoded lib.codecs sealed.0;
          })
          >>= λ envelope. pure (seal_bytes lib.codecs envelope)

  unfoldable pub encrypt_attachment : Bytes → ℕ → List String → Action S Bytes
  encrypt_attachment content security_level recipients =
      if security_level == 1
      then attach_otp content recipients
      else if security_level == 2
      then attach_aes content recipients
      else if security_level == 3
      then attach_pqc content recipients
      else pure content

  unfoldable pub encrypt_attachments :
      List Attachment → ℕ → List String → Action S (List Attachment)
  encrypt_attachments [] security_level recipients = pure []
  encrypt_attachments (a ∷ more) security_level recipients =
      encrypt_attachment a.content security_level recipients >>= λ content.
      encrypt_attachments more security_level recipients >>= λ rest.
      pure (record { filename = a.filename; content = content } ∷ rest)

  unfoldable pub encrypt_body : String → ℕ → List String → Action S Encrypted
  encrypt_body body security_level recipients =
      if security_level == 1
      then encrypt_otp lib sv body recipients
      else if security_level == 2
      then encrypt_aes lib sv body recipients
      else if security_level == 3
      then encrypt_pqc lib sv body recipients
      else lift (err value_error)

  -- `if attachments: …`
  unfoldable pub add_attachments :
      List Attachment → ℕ → List String → Encrypted → Action S Encrypted
  add_attachments [] security_level recipients result = pure result
  add_attachments (a ∷ more) security_level recipients result =
      encrypt_attachments (a ∷ more) security_level recipients >>= λ encrypted.
      pure (record result { attachments = some encrypted })

  unfoldable pub encrypt_email : String → ℕ → List String → List Attachment → Action S Encrypted
  encrypt_email body security_level recipients attachments =
      if security_level == 4
      then pure (record {
        ciphertext = body;
        key_id = none;
        metadata = record no_fields { security_level = some 4 };
        attachments = none;
      })
      else (let body_bytes = lib.codecs.utf8_encode body in
          encrypt_body body security_level recipients >>= λ result.
          add_attachments attachments security_level recipients (record result {
            metadata = record result.metadata {
              integrity = some (create_integrity_envelope lib.sha body_bytes);
              plaintext_hash = some (compute_hash lib.sha body_bytes);
            };
          }))
