-- ===== src/Engine/Encrypt.antt =====
-- Encryption of backend/crypto_engine/__init__.py: the body of an e-mail, level by level. Log lines are
-- left out. That every level's function also returns its key, which nobody uses, is left out too.
use qu_mail.Dict.{Dict, insert}
use qu_mail.Result.{Result, err, index_error, attribute_error, ok}
use qu_mail.Prelude.{
  String, List, Bytes, Option, length, [], some, ◌∷◌, none, if◌then◌else◌, ◌++◌, true,
}
use qu_mail.Engine.Action.{Action, ◌>>=◌, pure, lift, catch}
use qu_mail.Engine.Envelope.{Fields, no_fields, encoded, seal_text}
use qu_mail.Engine.Services.{Library, Services, PublicKey, text_key, raw_key}
use qu_mail.Storage.{KnownRecipient}
use qu_mail.QkdClient.{ClientKey}
use qu_mail.Crypto.Otp.{otp_encrypt}
use qu_mail.Crypto.AesGcm.{aes_encrypt, nonce_size}
use qu_mail.Crypto.KeyDerivation.{derive_key, ascii, is_empty}

-- An attachment as it is given, and as it is returned.
pub record Attachment : Type 0 where
  pub filename : String
  pub content : Bytes

-- The dict that `encrypt_email` returns.
pub record Encrypted : Type 0 where
  pub ciphertext : String
  pub key_id : Option String
  pub metadata : Fields
  pub attachments : Option (List Attachment)

-- `recipients[0]`
abbrev pub first : List String → Result String
first [] = err index_error
first (r ∷ rs) = ok r

-- The attributes of `primary_key_response`, which is None where there was no recipient.
abbrev pub primary : Option ClientKey → Result ClientKey
primary none = err attribute_error
primary (some k) = ok k

-- `recipient.get("public_key") if recipient else None`, the text of the table
abbrev pub public_key_of : Option KnownRecipient → Option PublicKey
public_key_of none = none
public_key_of (some r) = elim (r.public_key) [ none ↦ none | some t ↦ some (text_key t) ]

abbrev pub aes_context : Bytes
aes_context = ascii "qumail-aes-encryption"

abbrev pub attachment_context : Bytes
attachment_context = ascii "qumail-attachment"

abbrev pub hybrid_context : Bytes
hybrid_context = ascii "qumail-pqc-hybrid"

-- A ciphertext with its nonce and its tag.
abbrev pub Sealed : Type 0
Sealed = Bytes × Bytes × Bytes

abbrev pub keep_first : Option ClientKey → ClientKey → Option ClientKey
keep_first none k = some k
keep_first (some j) k = some j

module _ (lib : Library) {S : Type 0} (sv : Services S) where
  -- `aes_encrypt(plaintext, key)`, whose nonce is drawn by `os.urandom`.
  unfoldable pub seal : Bytes → Bytes → Action S Sealed
  seal plaintext key =
      sv.urandom nonce_size >>= λ nonce. lift (aes_encrypt lib.aead nonce plaintext key [])

  -- The loop that requests a key for every recipient; the first one is the primary key.
  unfoldable pub request_keys :
      List String → Dict String → Option ClientKey → Action S (Dict String × Option ClientKey)
  request_keys [] ids found = pure (ids, found)
  request_keys (r ∷ rs) ids found = sv.request_key r 32 "aes_seed" >>= λ key_response.
      request_keys rs (insert r key_response.key_id ids) (keep_first found key_response)

  unfoldable pub encrypt_otp : String → List String → Action S Encrypted
  encrypt_otp body recipients =
      let body_bytes = lib.codecs.utf8_encode body in
      let key_size = length body_bytes in
      lift (first recipients) >>= λ recipient.
      sv.request_key recipient key_size "otp" >>= λ key_response.
      lift (otp_encrypt body_bytes key_response.key_material) >>= λ ciphertext.
      let metadata : Fields = record no_fields {
        version = some "1.0";
        security_level = some 1;
        algorithm = some "OTP-XOR";
        key_id = some key_response.key_id;
        body_length = some key_size;
      } in
      pure (record {
        ciphertext =
            seal_text lib.codecs (record metadata { ciphertext = encoded lib.codecs ciphertext });
        key_id = some key_response.key_id;
        metadata = metadata;
        attachments = none;
      })

  unfoldable pub encrypt_aes : String → List String → Action S Encrypted
  encrypt_aes body recipients = request_keys recipients [] none >>= λ requested.
      lift (primary requested.1) >>= λ key_response.
      lift (derive_key lib.hkdf key_response.key_material aes_context 32 []) >>= λ aes_key.
      seal (lib.codecs.utf8_encode body) aes_key >>= λ sealed.
      let metadata : Fields = record no_fields {
        version = some "1.0";
        security_level = some 2;
        algorithm = some "AES-256-GCM";
        key_id = some key_response.key_id;
        recipient_key_ids = some requested.0;
      } in
      pure (record {
        ciphertext = seal_text lib.codecs (record metadata {
          nonce = encoded lib.codecs sealed.1;
          tag = encoded lib.codecs sealed.2;
          ciphertext = encoded lib.codecs sealed.0;
        });
        key_id = some key_response.key_id;
        metadata = metadata;
        attachments = none;
      })

  -- The key under which the sender encrypts the combined key to itself.
  unfoldable pub wrap_key : Bytes → Bytes → Fields → Action S Fields
  wrap_key sender_pub_key combined_key envelope =
      if is_empty sender_pub_key
      then pure envelope
      else (sv.pqc_encrypt (some (raw_key sender_pub_key)) >>= λ sent.
          seal combined_key sent.1 >>= λ wrapped. pure (record envelope {
            sender_encap = encoded lib.codecs sent.0;
            sender_enc_ck = encoded lib.codecs (wrapped.1 ++ wrapped.2 ++ wrapped.0);
          }))

  -- The private key that signs: the key store's, or a fresh one where that fails. (`get_private_key`
  -- never gives None.)
  unfoldable pub signing_key : Action S Bytes
  signing_key =
      catch (sv.get_private_key "dilithium")
        (λ _. sv.generate_dilithium_keypair >>= λ pair. pure pair.1)

  unfoldable pub encrypt_pqc : String → List String → Action S Encrypted
  encrypt_pqc body recipients = lift (first recipients) >>= λ r.
      sv.get_known_recipient r >>= λ recipient. sv.get_public_key "pqc" >>= λ sender_pub_key.
      sv.pqc_encrypt (public_key_of recipient) >>= λ sent.
      request_keys recipients [] none >>= λ requested.
      lift (primary requested.1) >>= λ key_response.
      lift (derive_key lib.hkdf (sent.1 ++ key_response.key_material) hybrid_context 32 [])
      >>= λ combined_key. seal (lib.codecs.utf8_encode body) combined_key >>= λ sealed.
          signing_key >>= λ signer.
          sv.dilithium_sign (sealed.0 ++ sealed.1 ++ sealed.2) signer >>= λ signature.
          let metadata : Fields = record no_fields {
            version = some "1.0";
            security_level = some 3;
            algorithm = some "KYBER-768-DILITHIUM3-AES-256-GCM";
            key_id = some key_response.key_id;
            recipient_key_ids = some requested.0;
            signed = some true;
          } in
          wrap_key sender_pub_key combined_key (record metadata {
            encapsulated_key = encoded lib.codecs sent.0;
            nonce = encoded lib.codecs sealed.1;
            tag = encoded lib.codecs sealed.2;
            ciphertext = encoded lib.codecs sealed.0;
            signature = encoded lib.codecs signature;
          })
          >>= λ envelope. pure (record {
            ciphertext = seal_text lib.codecs envelope;
            key_id = some key_response.key_id;
            metadata = metadata;
            attachments = none;
          })
