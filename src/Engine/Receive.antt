-- ===== src/Engine/Receive.antt =====
-- Decryption of backend/crypto_engine/__init__.py: `decrypt_email` and `decrypt_attachment`. The audit
-- lines are left out.
use qu_mail.Result.{err, value_error}
use qu_mail.Prelude.{take_text, ℕ, String, Option, some, if◌then◌else◌, Bytes, ◌==◌, [], none}
use qu_mail.Engine.Action.{Action, ◌>>=◌, pure, lift}
use qu_mail.Engine.Envelope.{Fields, no_fields, get_or, decoded_member, open_bytes}
use qu_mail.Engine.Services.{Library, Services}
use qu_mail.Engine.Decrypt.{
  Email, Decrypted, or_text, actual_id, decrypt_otp, decrypt_aes, decrypt_pqc, open_aes, open_pqc,
}
use qu_mail.Engine.Encrypt.{attachment_context}
use qu_mail.Crypto.Otp.{otp_decrypt}
use qu_mail.Crypto.Integrity.{compute_hash, verify_integrity_envelope}

module _ (lib : Library) {S : Type 0} (sv : Services S) where
  unfoldable pub decrypt_body : ℕ → String → Option String → Option String → Action S String
  decrypt_body security_level encrypted_body key_id sender =
      if security_level == 1
      then decrypt_otp lib sv encrypted_body key_id
      else if security_level == 2
      then decrypt_aes lib sv encrypted_body key_id
      else if security_level == 3
      then decrypt_pqc lib sv encrypted_body key_id sender
      else lift (err value_error)

  -- What is returned of a plaintext: an envelope that is empty or missing counts as verified.
  unfoldable pub checked : Fields → String → Decrypted
  checked metadata plaintext = record {
    body = plaintext;
    preview = some (take_text 200 plaintext);
    integrity_verified = some (
        verify_integrity_envelope lib.sha (lib.codecs.utf8_encode plaintext)
          (get_or [] metadata.integrity));
    decrypted_hash = some (compute_hash lib.sha (lib.codecs.utf8_encode plaintext));
  }

  unfoldable pub decrypt_email : Email → Action S Decrypted
  decrypt_email email =
      let security_level = get_or 4 email.security_level in
      if security_level == 4
      then pure (record {
        body = get_or "" email.body;
        preview = none;
        integrity_verified = none;
        decrypted_hash = none;
      })
      else (decrypt_body security_level (or_text email.encrypted_body (get_or "" email.body))
            email.key_id email.sender
          >>= λ plaintext. pure (checked (get_or no_fields email.encryption_metadata) plaintext))

  -- The envelope of an attachment, with its level and the key that it names.
  unfoldable pub open_attachment : Bytes → Fields → Option String → ℕ → Action S Bytes
  open_attachment content envelope key_id att_level =
      if att_level == 1
      then (lift (decoded_member lib.codecs envelope.ciphertext) >>= λ ciphertext.
          sv.get_key (actual_id envelope key_id) >>= λ key_response.
          lift (otp_decrypt ciphertext key_response.key_material))
      else if att_level == 2
      then open_aes lib sv attachment_context envelope key_id
      else if att_level == 3
      then open_pqc lib sv envelope key_id
      else pure content

  -- Content that is no envelope is returned as it is.
  unfoldable pub decrypt_attachment : Bytes → Option String → ℕ → Action S Bytes
  decrypt_attachment content key_id security_level =
      if security_level == 4 then pure content else elim (open_bytes lib.codecs content) [
        | none ↦ pure content
        | some envelope ↦
            open_attachment content envelope key_id (get_or security_level envelope.security_level)
      ]
