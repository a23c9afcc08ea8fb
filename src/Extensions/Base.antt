-- ===== src/Extensions/Base.antt =====
-- The types of backend/extensions/base.py, and the registry of extensions.
use qu_mail.Prelude.{ℕ, String, Option, List, map, if◌then◌else◌, Bytes, ◌==◌, some, none}
use qu_mail.Dict.{Dict, lookup, insert, erase}
use qu_mail.Engine.Envelope.{Fields}

pub data ExtensionType : Type 0 where
  chat voice video file_transfer : ExtensionType

-- `.value`
abbrev pub type_value : ExtensionType → String
type_value chat = "chat"
type_value voice = "voice"
type_value video = "video"
type_value file_transfer = "file_transfer"

pub data SecurityLevel : Type 0 where
  otp aes pqc plain : SecurityLevel

abbrev pub level_value : SecurityLevel → ℕ
level_value otp = 1
level_value aes = 2
level_value pqc = 3
level_value plain = 4

-- `SecurityLevel(value)`; `none` is a ValueError.
unfoldable pub level_of : ℕ → Option SecurityLevel
level_of n =
    if n == 1
    then some otp
    else if n == 2
    then some aes
    else if n == 3
    then some pqc
    else if n == 4
    then some plain
    else none

pub record Message : Type 0 where
  pub id : String
  pub sender : String
  pub recipient : String
  pub content : Bytes
  pub timestamp : ℕ
  pub security_level : SecurityLevel
  pub key_id : Option String

-- `nonce` and `tag` are never set.
pub record EncryptedMessage : Type 0 where
  pub id : String
  pub sender : String
  pub recipient : String
  pub ciphertext : Bytes
  pub key_id : Option String
  pub security_level : SecurityLevel
  pub metadata : Option Fields

-- ExtensionRegistry, over extensions of any kind with their type and their two hooks.
module _ {E : Type 0} (type_of : E → ExtensionType) (initialize cleanup : E → E) where
  unfoldable pub register : E → Dict E → Dict E
  register extension registry = insert (type_value (type_of extension)) extension registry

  unfoldable pub unregister : ExtensionType → Dict E → Dict E
  unregister kind registry = erase (type_value kind) registry

  unfoldable pub find_extension : ExtensionType → Dict E → Option E
  find_extension kind registry = lookup (type_value kind) registry

  unfoldable pub list_extensions : Dict E → List String
  list_extensions registry = map (λ (x : String × E). x.0) registry

  unfoldable pub initialize_all : Dict E → Dict E
  initialize_all registry = map (λ (x : String × E). (x.0, initialize x.1)) registry

  unfoldable pub cleanup_all : Dict E → Dict E
  cleanup_all registry = map (λ (x : String × E). (x.0, cleanup x.1)) registry
