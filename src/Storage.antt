-- ===== src/Storage.antt =====
-- The tables of backend/storage/database.py that the program reads back. A table is a dict from its unique
-- column to the rest of the row, in the order of its ids; each function is one committed transaction.
-- Times are seconds, as CURRENT_TIMESTAMP has them. `json` and SHA-256 are parameters.
pub mod Laws
pub mod Recipients
mod Tests
use qu_mail.Prelude.{
  ℕ, String, Bool, [], Option, List, ◌∷◌, some, ◌+◌, map, ◌≡◌, true, none, if◌then◌else◌, false,
  str_eq, ltb, ◌++◌, take_text,
}
use Prim.Native.String.{◌++◌ as append_text}
use qu_mail.Dict.{Dict, lookup, insert, erase}
use qu_mail.Result.{Result, ok, err, value_error, runtime_error}
use qu_mail.Crypto.Primitives.{Sha256}

-- A row of `accounts`.
pub record AccountRow : Type 0 where
  pub provider : String
  pub access_token : String
  pub refresh_token : Option String
  pub expires_at : ℕ
  pub connected_at : ℕ

-- A row of `known_recipients`.
pub record RecipientRow : Type 0 where
  pub is_qumail_user : Bool
  pub public_key : Option String
  pub public_key_fingerprint : Option String
  pub supported_levels : String
  pub last_seen : ℕ
  pub created_at : ℕ

-- A row of `drafts`; the lists of addresses are JSON texts.
pub record DraftRow : Type 0 where
  pub to_addrs : String
  pub cc_addrs : String
  pub subject : String
  pub body : String
  pub security_level : ℕ
  pub created_at : ℕ
  pub updated_at : ℕ

-- A row of `settings`.
pub record SettingRow : Type 0 where
  pub value : String
  pub updated_at : ℕ

pub record Database : Type 0 where
  pub accounts : Dict AccountRow
  pub known_recipients : Dict RecipientRow
  pub drafts : Dict DraftRow
  pub settings : Dict SettingRow
  -- the time at which each state was saved
  pub oauth_states : Dict ℕ

-- The tables that `init_database` creates.
abbrev pub empty_database : Database
empty_database = record {
  accounts = [];
  known_recipients = [];
  drafts = [];
  settings = [];
  oauth_states = [];
}

-- `COALESCE(a, b)`
abbrev pub coalesce : Option String → Option String → Option String
coalesce none b = b
coalesce (some a) b = some a

-- `INSERT … ON CONFLICT(key) DO UPDATE SET …`: the update of the row that is there, or a new row.
abbrev pub or_row {ℓ} : {V : Type ℓ} → V → (V → V) → Option V → V
or_row new update none = new
or_row new update (some row) = update row

unfoldable pub upsert {ℓ} : {V : Type ℓ} → String → V → (V → V) → Dict V → Dict V
upsert k new update d = insert k (or_row new update (lookup k d)) d

unfoldable pub store_oauth_tokens :
    ℕ → String → String → Option String → ℕ → String → Database → Database
store_oauth_tokens now email access_token refresh_token expires_in provider db =
    let new : AccountRow = record {
      provider = provider;
      access_token = access_token;
      refresh_token = refresh_token;
      expires_at = now + expires_in;
      connected_at = now;
    } in
    record db {
      accounts =
          upsert email new
            (λ row. record row {
              provider = provider;
              access_token = access_token;
              refresh_token = coalesce refresh_token row.refresh_token;
              expires_at = now + expires_in;
            })
            db.accounts;
    }

-- The dict that `get_oauth_tokens` gives.
pub record Tokens : Type 0 where
  pub email : String
  pub access_token : String
  pub refresh_token : Option String
  pub expires_at : ℕ

abbrev pub tokens_of : String → Option AccountRow → Option Tokens
tokens_of email none = none
tokens_of email (some row) = some (record {
  email = email;
  access_token = row.access_token;
  refresh_token = row.refresh_token;
  expires_at = row.expires_at;
})

unfoldable pub get_oauth_tokens : String → Database → Option Tokens
get_oauth_tokens email db = tokens_of email (lookup email db.accounts)

-- `get_stored_accounts`: the email, the provider and the time of each.
unfoldable pub get_stored_accounts : Database → List (String × String × ℕ)
get_stored_accounts db =
    map (λ (x : String × AccountRow). (x.0, x.1.provider, x.1.connected_at)) db.accounts

-- What `json` does with a value of the type `J`: `json.loads` may raise JSONDecodeError.
pub record Json (J : Type 0) : Type 0 where
  pub dumps : J → String
  pub loads : String → Option J
  pub loads-dumps : (j : J) → loads (dumps j) ≡ some j

-- `public_key` is truthy
abbrev pub fingerprint : (String → String) → Option String → Option String
fingerprint digest none = none
fingerprint digest (some k) =
    if str_eq k "" then none else some (append_text "SHA256:" (take_text 16 (digest k)))

-- `supported_levels or [4]`
abbrev pub levels_or_plain : Option (List ℕ) → List ℕ
levels_or_plain none = 4 ∷ []
levels_or_plain (some []) = 4 ∷ []
levels_or_plain (some (l ∷ ls)) = l ∷ ls

-- The dict that `get_known_recipient` gives.
pub record KnownRecipient : Type 0 where
  pub email : String
  pub is_qumail_user : Bool
  pub public_key : Option String
  pub public_key_fingerprint : Option String
  pub supported_levels : List ℕ
  pub last_seen : ℕ

module _ (json : Json (List ℕ)) where
  -- `digest` is the hexadecimal SHA-256 of a text.
  unfoldable pub store_known_recipient :
      (String → String) → ℕ → String → Option String → Option (List ℕ) → Database → Database
  store_known_recipient digest now email public_key supported_levels db =
      let levels : String = json.dumps (levels_or_plain supported_levels) in
      let new : RecipientRow = record {
        is_qumail_user = true;
        public_key = public_key;
        public_key_fingerprint = fingerprint digest public_key;
        supported_levels = levels;
        last_seen = now;
        created_at = now;
      } in
      record db {
        known_recipients =
            upsert email new
              (λ row. record row {
                is_qumail_user = true;
                public_key = coalesce public_key row.public_key;
                public_key_fingerprint =
                    coalesce (fingerprint digest public_key) row.public_key_fingerprint;
                supported_levels = levels;
                last_seen = now;
              })
              db.known_recipients;
      }

  abbrev pub known : String → RecipientRow → Option (List ℕ) → Result (Option KnownRecipient)
  known email row none = err value_error
  known email row (some levels) = ok (
      some (record {
        email = email;
        is_qumail_user = row.is_qumail_user;
        public_key = row.public_key;
        public_key_fingerprint = row.public_key_fingerprint;
        supported_levels = levels;
        last_seen = row.last_seen;
      }))

  abbrev pub read_recipient : String → Option RecipientRow → Result (Option KnownRecipient)
  read_recipient email none = ok none
  read_recipient email (some row) = known email row (json.loads row.supported_levels)

  unfoldable pub get_known_recipient : String → Database → Result (Option KnownRecipient)
  get_known_recipient email db = read_recipient email (lookup email db.known_recipients)

module _ (json : Json (List String)) where
  unfoldable pub save_email_draft :
      ℕ → String → List String → List String → String → String → ℕ → Database → Database
  save_email_draft now draft_id to cc subject body security_level db =
      let new : DraftRow = record {
        to_addrs = json.dumps to;
        cc_addrs = json.dumps cc;
        subject = subject;
        body = body;
        security_level = security_level;
        created_at = now;
        updated_at = now;
      } in
      record db {
        drafts = upsert draft_id new (λ row. record new { created_at = row.created_at }) db.drafts;
      }

-- A setting is what its text parses to, or the text itself.
pub data Setting (J : Type 0) : Type 0 where
  parsed : J → Setting J
  raw : String → Setting J

module _ {J : Type 0} (json : Json J) where
  abbrev pub setting_of : String → Option J → Setting J
  setting_of s none = raw s
  setting_of s (some j) = parsed j

  abbrev pub read_setting : String → Setting J
  read_setting s = setting_of s (json.loads s)

  unfoldable pub read_settings : Dict SettingRow → Dict (Setting J) → Dict (Setting J)
  read_settings [] found = found
  read_settings ((key, row) ∷ more) found =
      read_settings more (insert key (read_setting row.value) found)

  -- `get_settings`, a dict that is filled row by row
  unfoldable pub get_settings : Database → Dict (Setting J)
  get_settings db = read_settings db.settings []

  unfoldable pub save_setting : ℕ → String → J → Database → Database
  save_setting now key value db =
      let new : SettingRow = record { value = json.dumps value; updated_at = now } in
      record db { settings = upsert key new (λ row. new) db.settings }

-- `save_oauth_state`: a state that is there already violates the primary key.
abbrev pub add_state : ℕ → String → Database → Option ℕ → Result Database
add_state now state db none = ok (record db { oauth_states = insert state now db.oauth_states })
add_state now state db (some t) = err runtime_error

unfoldable pub save_oauth_state : ℕ → String → Database → Result Database
save_oauth_state now state db = add_state now state db (lookup state db.oauth_states)

-- `'-10 minutes'`
abbrev pub ten_minutes : ℕ
ten_minutes = 600

abbrev pub take_state : ℕ → String → Database → Option ℕ → Bool × Database
take_state now state db none = (false, db)
take_state now state db (some created_at) =
    if ltb now (created_at + ten_minutes)
    then (true, record db { oauth_states = erase state db.oauth_states })
    else (false, db)

unfoldable pub get_and_delete_oauth_state : ℕ → String → Database → Bool × Database
get_and_delete_oauth_state now state db = take_state now state db (lookup state db.oauth_states)
