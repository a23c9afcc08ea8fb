-- ===== src/Engine/Refusals.antt =====
-- Proofs about backend/crypto_engine/__init__.py: what is refused before anything is drawn or requested.
use qu_mail.Result.{err, index_error, value_error, attribute_error}
use qu_mail.Prelude.{ℕ, String, List, Option, [], ◌≡◌, ◌⊎◌, ◌<◌, arith, refl}
use qu_mail.Engine.Action.{◌>>=◌, lift}
use qu_mail.Engine.Services.{Library, Services}
use qu_mail.Engine.Encrypt.{
  Encrypted, Attachment, encrypt_otp, encrypt_aes, encrypt_pqc, request_keys,
}
use qu_mail.Engine.Send.{encrypt_body, encrypt_email}
use qu_mail.Engine.Receive.{decrypt_body, decrypt_email}
use qu_mail.Engine.RoundTrip.Email.{received}

module _ (lib : Library) {S : Type 0} (sv : Services S) where
  -- A level that is none of 1 to 4 is refused, by encryption and by decryption, with a ValueError, and
  -- nothing was requested, drawn or consumed.
  pub unknown_level_refused :
      (level : ℕ) (body : String) (recipients : List String) (xs : List Attachment)
      (sender : Option String) (x : Encrypted) (s : S)
      → (level ≡ 0) ⊎ (4 < level)
      → (encrypt_email lib sv body level recipients xs s ≡ (err value_error, s))
        × (decrypt_email lib sv (received level sender x) s ≡ (err value_error, s))
  unfolding encrypt_email encrypt_body decrypt_email decrypt_body ◌>>=◌ lift
  unknown_level_refused level body recipients xs sender x s out = (ground arith, ground arith)

  -- Without a recipient nothing is encrypted at the levels 1 to 3: an IndexError at 1 and 3 and an
  -- AttributeError at 2, and nothing was requested or drawn.
  pub no_recipient_refused :
      (body : String) (xs : List Attachment) (s : S)
      → (encrypt_email lib sv body 1 [] xs s ≡ (err index_error, s))
        × (encrypt_email lib sv body 2 [] xs s ≡ (err attribute_error, s))
        × (encrypt_email lib sv body 3 [] xs s ≡ (err index_error, s))
  unfolding encrypt_email encrypt_body encrypt_otp encrypt_aes encrypt_pqc request_keys ◌>>=◌ lift
  no_recipient_refused body xs s = (refl, refl, refl)
