-- ===== src/MailApi/Security.antt =====
-- The endpoints of backend/api/security.py. What the client of the Key Manager gives, the table of known
-- recipients and the engine are those of the other modules; texts for people are left out.
pub mod Laws
pub mod Proofs
pub mod Registered
mod Tests
use Prim.Native.String.{◌++◌ as append_text}
use qu_mail.Prelude.{
  ℕ, List, Bool, if◌then◌else◌, String, true, some, ◌∷◌, ltb, Option, false, not, none, str_eq, leb,
  [], ◌||◌, text_length, ◌==◌, take_text,
}
use qu_mail.Prelude.Int.{ℤ, pos, negsuc, ltb_ℤ, leb_ℤ}
use qu_mail.Result.{Result, ok, err, key_request_error, Error}
use qu_mail.QkdClient.{ClientStatus}
use qu_mail.Storage.{Json, KnownRecipient, Database, get_known_recipient, store_known_recipient}
use qu_mail.Crypto.Integrity.{compute_hash}
use qu_mail.Engine.Action.{Action, ◌>>=◌, pure, lift, catch}
use qu_mail.Engine.Envelope.{get_or}
use qu_mail.Engine.Services.{Library, Services}
use qu_mail.Engine.Encrypt.{Encrypted}
use qu_mail.Engine.Send.{encrypt_email}
use qu_mail.Engine.Decrypt.{Email, Decrypted}
use qu_mail.Engine.Receive.{decrypt_email}

-- `sorted`
place : ℕ → List ℕ → List ℕ
place x [] = x ∷ []
place x (y ∷ ys) = let rest = place x ys in if leb x y then x ∷ y ∷ ys else y ∷ rest

unfoldable pub sorted : List ℕ → List ℕ
unfolding place
sorted [] = []
sorted (x ∷ xs) = place x (sorted xs)

pub record SecurityStatus : Type 0 where
  pub km_connected : Bool
  pub otp_bytes : ℕ
  pub aes_keys : ℤ
  pub pqc_keys : ℤ
  pub supported_levels : List ℕ

-- `if …: supported_levels.insert(0, level)`
abbrev pub insert_level : Bool → ℕ → List ℕ → List ℕ
insert_level test level levels = if test then level ∷ levels else levels

-- The levels that a Key Manager that is connected adds.
unfoldable pub levels_of : ClientStatus → List ℕ
levels_of s =
    insert_level (ltb_ℤ (pos 0) s.pqc_keys) 3
      (insert_level (ltb_ℤ (pos 0) s.aes_keys) 2 (insert_level (ltb 0 s.otp_bytes) 1 (4 ∷ [])))

-- `get_security_status`; the client's function never raises.
unfoldable pub get_security_status : ClientStatus → SecurityStatus
get_security_status s = record {
  km_connected = s.connected;
  otp_bytes = s.otp_bytes;
  aes_keys = s.aes_keys;
  pqc_keys = s.pqc_keys;
  supported_levels = sorted (if s.connected then levels_of s else 4 ∷ []);
}

pub record RecipientCapability : Type 0 where
  pub email : String
  pub is_qumail_user : Bool
  pub supported_levels : List ℕ
  pub public_key_fingerprint : Option String
  pub last_seen : Option ℕ

-- `check_recipient_capability`: whoever has a row counts as a user.
abbrev pub capability : String → Option KnownRecipient → RecipientCapability
capability email none = record {
  email = email;
  is_qumail_user = false;
  supported_levels = 4 ∷ [];
  public_key_fingerprint = none;
  last_seen = none;
}
capability email (some r) = record {
  email = email;
  is_qumail_user = true;
  supported_levels = r.supported_levels;
  public_key_fingerprint = r.public_key_fingerprint;
  last_seen = some r.last_seen;
}

abbrev pub capability_of : String → Result (Option KnownRecipient) → Result RecipientCapability
capability_of email (ok r) = ok (capability email r)
capability_of email (err e) = err e

-- `[2, 3, 4] if public_key else [4]`
abbrev pub registered_levels : Option String → List ℕ
registered_levels none = 4 ∷ []
registered_levels (some k) = if str_eq k "" then 4 ∷ [] else 2 ∷ 3 ∷ 4 ∷ []

module _ (json : Json (List ℕ)) where
  unfoldable pub check_recipient_capability : String → Database → Result RecipientCapability
  check_recipient_capability email db = capability_of email (get_known_recipient json email db)

  -- `register_recipient`
  unfoldable pub register_recipient :
      (String → String) → ℕ → String → Option String → Database → Database
  register_recipient digest now email public_key db =
      store_known_recipient json digest now email public_key (some (registered_levels public_key))
        db

-- An HTTPException with its status, or an answer.
pub data Reply (A : Type 0) : Type 0 where
  answer : A → Reply A
  http : ℕ → Reply A

pub record KeyRefresh : Type 0 where
  pub success : Bool
  pub keys_added : ℤ

abbrev pub refreshed : Result ℤ → KeyRefresh
refreshed (ok n) = record { success = true; keys_added = n }
refreshed (err e) = record { success = false; keys_added = pos 0 }

-- `refresh_keys`: the request, where it is let through, as a function of its type and size.
unfoldable pub refresh_keys : (String → ℕ → Result ℤ) → String → ℤ → Reply KeyRefresh
refresh_keys request key_type (negsuc n) = http 400
refresh_keys request key_type (pos size) =
    if not (str_eq key_type "otp" || (str_eq key_type "aes" || str_eq key_type "pqc"))
    then http 400
    else if size == 0 || ltb 1048576 size
    then http 400
    else answer (refreshed (request key_type size))

-- `VerifyEncryptionResponse`
pub record Proof : Type 0 where
  pub plaintext_hash : String
  pub ciphertext_sample : String
  pub decrypted_hash : String
  pub hashes_match : Bool
  pub ciphertext_differs_from_plaintext : Bool
  pub integrity_verified : Bool
  pub security_level_used : ℕ

-- `ciphertext[:80] + "..." if len(ciphertext) > 80 else ciphertext`
abbrev pub sample : String → String
sample c = if ltb 80 (text_length c) then append_text (take_text 80 c) "..." else c

-- The dict that is given to `decrypt_email`.
abbrev pub proof_email : ℕ → Encrypted → Email
proof_email level x = record {
  security_level = some level;
  body = none;
  encrypted_body = some x.ciphertext;
  key_id = x.key_id;
  encryption_metadata = some x.metadata;
  sender = none;
}

module _ (lib : Library) {S : Type 0} (sv : Services S) where
  abbrev pub proof_of : String → ℕ → Encrypted → Decrypted → Proof
  proof_of plaintext level x d =
      let plaintext_hash = compute_hash lib.sha (lib.codecs.utf8_encode plaintext) in
      record {
        plaintext_hash = plaintext_hash;
        ciphertext_sample = sample x.ciphertext;
        decrypted_hash = get_or "" d.decrypted_hash;
        hashes_match = str_eq plaintext_hash (get_or "" d.decrypted_hash);
        ciphertext_differs_from_plaintext = not (str_eq x.ciphertext plaintext);
        integrity_verified = get_or false d.integrity_verified;
        security_level_used = level;
      }

  unfoldable pub prove : String → ℕ → Action S (Reply Proof)
  prove plaintext level =
      encrypt_email lib sv plaintext level ("proof-test@qumail.local" ∷ []) [] >>= λ x.
      decrypt_email lib sv (proof_email level x) >>= λ d.
      pure (answer (proof_of plaintext level x d))

  -- `verify_encryption`: an exception of either step is answered with status 500.
  unfoldable pub verify_encryption : String → ℤ → Action S (Reply Proof)
  verify_encryption plaintext (negsuc n) = pure (http 400)
  verify_encryption plaintext (pos level) =
      if not (level == 1 || (level == 2 || level == 3))
      then pure (http 400)
      else catch (prove plaintext level) (λ e. pure (http 500))
