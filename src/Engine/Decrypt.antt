-- ===== src/Engine/Decrypt.antt =====
-- Decryption of backend/crypto_engine/__init__.py, level by level. Log and audit lines are left out, and the keys that the functions return beside the plaintext,
-- which nobody uses.
use qu_mail.Result.{Result, err, ok, Error}
use qu_mail.Prelude.{
  ℕ, String, Bool, Option, Bytes, none, some, if◌then◌else◌, [], true, ◌++◌, str_eq, ◌==◌, false,
  ◌||◌, drop, take,
}
use qu_mail.Engine.Action.{Action, ◌>>=◌, pure, lift, catch}
use qu_mail.Engine.Envelope.{Fields, get_or, decoded_member, open_text}
use qu_mail.Storage.{KnownRecipient}
use qu_mail.Engine.Services.{Library, Services}
use qu_mail.Engine.Encrypt.{Sealed, aes_context, hybrid_context}
use qu_mail.Crypto.Otp.{otp_decrypt}
use qu_mail.Crypto.AesGcm.{aes_decrypt}
use qu_mail.Crypto.KeyDerivation.{derive_key}
use Prim.Native.Char.{code}

-- The dict that `decrypt_email` takes.
pub record Email : Type 0 where
  pub security_level : Option ℕ
  pub body : Option String
  pub encrypted_body : Option String
  pub key_id : Option String
  pub encryption_metadata : Option Fields
  pub sender : Option String

-- The dict that it returns.
pub record Decrypted : Type 0 where
  pub body : String
  pub preview : Option String
  pub integrity_verified : Option Bool
  pub decrypted_hash : Option String

-- `a or b`, of texts
abbrev pub or_text : Option String → String → String
or_text none b = b
or_text (some a) b = if str_eq a "" then b else a

-- A key's id as a part of the URL.
abbrev pub id_text : Option String → String
id_text none = "None"
id_text (some k) = k

-- `envelope.get("key_id", key_id)`
abbrev pub actual_id : Fields → Option String → String
actual_id envelope key_id = elim envelope.key_id [ some k ↦ k | none ↦ id_text key_id ]

abbrev pub is_none {ℓ} : {A : Type ℓ} → Option A → Bool
is_none none = true
is_none (some a) = false

-- The text before the first `>`.
abbrev until_close : String → Option String
until_close String.[] = none
until_close (String.◌∷◌ c s) =
    let rest = until_close s in
    if code c == 62 then some "" else elim rest [ none ↦ none | some t ↦ some (String.◌∷◌ c t) ]

-- `re.search(r"<([^>]+)>", s)`, and its group
abbrev bracketed : String → Option String
bracketed String.[] = none
bracketed (String.◌∷◌ c s) =
    let rest = bracketed s in
    if code c == 60
    then elim (until_close s) [ none ↦ rest | some t ↦ if str_eq t "" then rest else some t ]
    else rest

abbrev pub sender_email : String → String
sender_email sender = elim (bracketed sender) [ none ↦ sender | some t ↦ t ]

-- `sender_info.get("signing_key")`: the dict of a known recipient has no such member.
abbrev pub signing_key_of : Option KnownRecipient → Option Bytes
signing_key_of none = none
signing_key_of (some info) = none

abbrev pub unseal : Library → Sealed → Bytes → Result Bytes
unseal lib sealed key = aes_decrypt lib.aead sealed.0 key sealed.1 sealed.2 []

module _ (lib : Library) {S : Type 0} (sv : Services S) where
  unfoldable pub decrypt_pad : Result Fields → Option String → Action S String
  decrypt_pad (err e) key_id = pure ""
  decrypt_pad (ok envelope) key_id =
      lift (decoded_member lib.codecs envelope.ciphertext) >>= λ ct_bytes.
      sv.get_key (actual_id envelope key_id) >>= λ key_response.
      lift (otp_decrypt ct_bytes key_response.key_material) >>= λ plaintext_bytes.
      catch (sv.consume_key (actual_id envelope key_id)) (λ _. pure false) >>= λ _.
      pure (lib.codecs.utf8_decode plaintext_bytes)

  unfoldable pub decrypt_otp : String → Option String → Action S String
  decrypt_otp ciphertext_b64 key_id = decrypt_pad (open_text lib.codecs ciphertext_b64) key_id

  -- The members that `aes_decrypt` takes: the ciphertext, the nonce and the tag.
  unfoldable pub sealed_members : Fields → Action S Sealed
  sealed_members envelope = lift (decoded_member lib.codecs envelope.nonce) >>= λ nonce.
      lift (decoded_member lib.codecs envelope.tag) >>= λ tag.
      lift (decoded_member lib.codecs envelope.ciphertext) >>= λ ciphertext.
      pure (ciphertext, nonce, tag)

  unfoldable pub open_aes : Bytes → Fields → Option String → Action S Bytes
  open_aes context envelope key_id = sv.get_key (actual_id envelope key_id) >>= λ key_response.
      lift (derive_key lib.hkdf key_response.key_material context 32 []) >>= λ aes_key.
      sealed_members envelope >>= λ sealed. lift (unseal lib sealed aes_key)

  unfoldable pub decrypt_aes : String → Option String → Action S String
  decrypt_aes ciphertext_b64 key_id = lift (open_text lib.codecs ciphertext_b64) >>= λ envelope.
      open_aes aes_context envelope key_id >>= λ plaintext_bytes.
      pure (lib.codecs.utf8_decode plaintext_bytes)

  -- The known signing key of the sender, where the envelope is signed and the sender is known.
  unfoldable pub signer_of : Fields → Option String → Action S (Option Bytes)
  signer_of envelope sender =
      if str_eq (get_or "" envelope.signature) "" || str_eq (get_or "" sender) ""
      then pure none
      else (sv.get_known_recipient (sender_email (get_or "" sender)) >>= λ found.
          pure (signing_key_of found))

  -- The signature's verification; a failure is only logged.
  unfoldable pub check_signature : Fields → Option Bytes → Action S Bool
  check_signature envelope none = pure true
  check_signature envelope (some public_key) =
      lift (decoded_member lib.codecs envelope.ciphertext) >>= λ aes_ct.
      lift (decoded_member lib.codecs envelope.nonce) >>= λ nonce.
      lift (decoded_member lib.codecs envelope.tag) >>= λ tag.
      lift (decoded_member lib.codecs envelope.signature) >>= λ signature.
      sv.dilithium_verify (aes_ct ++ nonce ++ tag) signature public_key

  -- The sender's way in, after the first decryption failed with `e`.
  unfoldable pub open_own : Sealed → Bytes → Fields → Error → Action S Bytes
  open_own sealed private_key envelope e =
      if is_none envelope.sender_encap || is_none envelope.sender_enc_ck
      then lift (err e)
      else (lift (decoded_member lib.codecs envelope.sender_encap) >>= λ sender_encap.
          lift (decoded_member lib.codecs envelope.sender_enc_ck) >>= λ full.
          sv.pqc_decrypt sender_encap private_key >>= λ sender_ss.
          catch
            (lift (unseal lib (drop 28 full, take 12 full, take 16 (drop 12 full)) sender_ss)
              >>= λ combined_key. lift (unseal lib sealed combined_key))
            (λ _. lift (err e)))

  unfoldable pub open_pqc : Fields → Option String → Action S Bytes
  open_pqc envelope key_id =
      lift (decoded_member lib.codecs envelope.encapsulated_key) >>= λ encapsulated_key.
      sv.get_private_key "pqc" >>= λ private_key.
      sv.pqc_decrypt encapsulated_key private_key >>= λ shared_secret.
      sv.get_key (actual_id envelope key_id) >>= λ key_response.
      lift (derive_key lib.hkdf (shared_secret ++ key_response.key_material) hybrid_context 32 [])
      >>= λ combined_key. sealed_members envelope >>= λ sealed.
          catch (lift (unseal lib sealed combined_key)) (open_own sealed private_key envelope)

  unfoldable pub decrypt_pqc : String → Option String → Option String → Action S String
  decrypt_pqc ciphertext_b64 key_id sender =
      lift (open_text lib.codecs ciphertext_b64) >>= λ envelope.
      signer_of envelope sender >>= λ public_key. check_signature envelope public_key >>= λ _.
      open_pqc envelope key_id >>= λ plaintext_bytes. pure (lib.codecs.utf8_decode plaintext_bytes)
