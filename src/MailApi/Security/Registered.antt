-- ===== src/MailApi/Security/Registered.antt =====
-- Proofs about backend/api/security.py and the engine: a recipient that was registered with a public key.
use qu_mail.Prelude.{ℕ, String, Bool, List, ◌∷◌, some, ◌≡◌, refl}
use qu_mail.Result.{err, type_error}
use qu_mail.Crypto.Primitives.{Oqs}
use qu_mail.KeyManager.KeyEntry.{Codec}
use qu_mail.Storage.Recipients.{get-store_known_recipient}
use qu_mail.Engine.Services.{Library}
use qu_mail.Engine.Encrypt.{Attachment}
use qu_mail.Engine.Send.{encrypt_email}
use qu_mail.Engine.World.{World, Supply, Device, device_services}
use qu_mail.Engine.World.EndToEnd.{known_key_refused}
use qu_mail.MailApi.Security.{register_recipient, registered_levels}

-- The device after its user registered a recipient with a public key.
abbrev pub registered : (String → String) → ℕ → String → String → Device → Device
registered digest now email key d = record d {
  database = register_recipient d.json digest now email (some key) d.database;
}

-- Once a recipient is registered with a public key, nothing can be sent to it at level 3 where liboqs is
-- installed: whatever the database held before, `encrypt_email` with that first recipient raises a TypeError,
-- since liboqs gets the text of the key for bytes, and no key is drawn.
pub registered_key_refused :
    (lib : Library) (codec : Codec) (is_time : String → Bool) (supply : Supply) (oqs : Oqs)
    (digest : String → String) (now : ℕ) (email key body : String) (rs : List String)
    (xs : List Attachment) (d : Device) (w : World)
    → encrypt_email lib
        (device_services codec is_time supply oqs (registered digest now email key d))
        body
        3
        (email ∷ rs)
        xs
        w
      ≡ (err type_error, w)
unfolding register_recipient
registered_key_refused lib codec is_time supply oqs digest now email key body rs xs d w =
    let sender = registered digest now email key d in
    known_key_refused lib codec is_time supply oqs sender sender body email key rs xs _ w
      (get-store_known_recipient d.json digest now email (some key)
        (some (registered_levels (some key))) d.database)
      refl
