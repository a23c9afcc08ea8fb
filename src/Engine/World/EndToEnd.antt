-- ===== src/Engine/World/EndToEnd.antt =====
-- Proofs about whole e-mails between two devices and the Key Manager that they share.
use qu_mail.Result.{ok}
use qu_mail.Dict.{}
use qu_mail.Prelude.{ℕ, String, Bool, List, Option, ◌≡◌, true, [], some, ◌≤◌, ◌∷◌, refl}
use qu_mail.Crypto.Primitives.{Oqs}
use qu_mail.KeyManager.KeyEntry.{Codec}
use qu_mail.Engine.Action.{Gives, gives_weaken}
use qu_mail.Engine.Envelope.{get_or}
use qu_mail.Engine.Services.{Library, Services}
use qu_mail.Storage.{KnownRecipient, get_known_recipient}
use qu_mail.Engine.Encrypt.{encrypt_pqc}
use qu_mail.Engine.Send.{encrypt_body}
use qu_mail.Engine.Action.{◌>>=◌, lift}
use qu_mail.Result.{err, type_error}
use qu_mail.Engine.Encrypt.{Attachment}
use qu_mail.Engine.Send.{encrypt_email}
use qu_mail.Engine.World.{World, Supply, Device, device_services, Option, [], some}
use qu_mail.Engine.World.Laws.{IsReady, world_view, device-Guarantees}
use qu_mail.Engine.RoundTrip.Email.{Fits, AllFit, AllReadable, BodyReadable}
use qu_mail.Engine.RoundTrip.Levels.{decrypt_email-encrypt_email}

module _ (lib : Library) (codec : Codec) (is_time : String → Bool) (supply : Supply) (oqs : Oqs)
    (a b : Device) where
  abbrev pub of_device : Device → Services World
  of_device d = device_services codec is_time supply oqs d

  -- The program as a whole: the engine over the client over the Key Manager's handlers and pool. Where the
  -- pool is valid and every UUID is new, an e-mail at level 1 or 2 of contents of 1 byte to 1 MiB is
  -- encrypted, and the recipient's device decrypts it, body and attachments, as long as its keys are not
  -- consumed.
  pub device_round_trip :
      (level : ℕ) (body r : String) (rs : List String) (sender : Option String)
      (xs : List Attachment) (w : World)
      → ((t : ℕ) → is_time (codec.isoformat t) ≡ true)
      → 1 ≤ level
      → level ≤ 2
      → Fits (lib.codecs.utf8_encode body)
      → AllFit xs
      → IsReady codec is_time supply oqs w
      → Gives (encrypt_email lib (of_device a) body level (r ∷ rs) xs) w (λ x t.
        BodyReadable lib (world_view codec is_time supply oqs) (of_device b) level body sender x t
        × AllReadable lib
            (world_view codec is_time supply oqs)
            (of_device b)
            level
            xs
            (get_or [] x.attachments)
            t)
  device_round_trip level body r rs sender xs w timed low high fits all ready =
      gives_weaken
        (decrypt_email-encrypt_email lib (device-Guarantees codec is_time supply oqs a timed)
          (device-Guarantees codec is_time supply oqs b timed) level body r rs sender xs w low high
          fits all ready)
        (λ x t (kept, read, attached). (read, attached))

  -- Where the first recipient's row has a public key, its text is given to liboqs for bytes.
  pub known_key_refused :
      (body r text : String) (rs : List String) (xs : List Attachment) (known : KnownRecipient)
      (w : World)
      → get_known_recipient a.json r a.database ≡ ok (some known)
      → known.public_key ≡ some text
      → encrypt_email lib (of_device a) body 3 (r ∷ rs) xs w ≡ (err type_error, w)
  unfolding encrypt_email encrypt_body encrypt_pqc ◌>>=◌ lift
  known_key_refused body r text rs xs known w found theirs = rw found (rw theirs refl)
