-- ===== src/MailApi/Security/Tests.antt =====
-- Witnesses for the security endpoints.
use qu_mail.Dict.{lookup}
use qu_mail.KeyManager.Status.{KeyAvailability}
use qu_mail.QkdClient.{response, get_key_status}
use qu_mail.Prelude.{◌≡◌, refl, false, arith, some, ◌∷◌, []}
use qu_mail.Prelude.Int.{pos}
use qu_mail.Result.{ok, err, type_error}
use qu_mail.KeyManager.Status
use qu_mail.Dict.{lookup}
use qu_mail.KeyManager.Pool.Maintenance.{get_stats}
use qu_mail.KeyManager.Tests.Data.{pool}
use qu_mail.Crypto.Examples.{oqs}
use qu_mail.KeyManager.Tests.Data.{codec}
use qu_mail.Engine.Action.{Gives}
use qu_mail.Engine.Guarantees.{Guarantees}
use qu_mail.Engine.World.Laws.{device-Guarantees}
use qu_mail.Engine.Tests.{lib, any_text, supply, alice, start, start-IsReady, of, view}
use qu_mail.MailApi.Security.{verify_encryption, get_security_status, [], err}
use qu_mail.MailApi.Security.Laws.{has_level, status_data, level_three_unsupported}
use qu_mail.MailApi.Security.Registered.{registered, registered_key_refused}
use qu_mail.Engine.Send.{encrypt_email}
use qu_mail.Engine.World.{device_services}
use qu_mail.MailApi.Security.Proofs.{Verified, verify_encryption-Verified}

abbrev alice_keeps : Guarantees view (of alice)
alice_keeps = device-Guarantees codec any_text supply oqs alice (λ t. refl)

verify_encryption-Verified_example :
    Gives (verify_encryption lib (of alice) "hi" (pos 2)) start (λ r t. Verified 2 r)
verify_encryption-Verified_example =
    verify_encryption-Verified lib alice_keeps "hi" 2 start (omega arith, omega arith) start-IsReady
      (omega arith) (omega arith)

abbrev shown : KeyAvailability
shown = record { otp_bytes_available = 4; aes_keys_available = pos 4; pqc_keys_available = pos 0 }

shown_by_pool : (Status.get_key_status pool).0 ≡ ok shown
unfolding Status.get_key_status get_stats lookup
shown_by_pool = refl

level_three_unsupported_example :
    has_level 3
      (get_security_status
        (get_key_status (response 200 (some (status_data shown))))).supported_levels
    ≡ false
level_three_unsupported_example = level_three_unsupported pool shown shown_by_pool

registered_key_refused_example :
    encrypt_email lib
      (device_services codec any_text supply oqs (registered (λ t. t) 5 "bob" "AQ==" alice))
      "hi"
      3
      ("bob" ∷ "carol" ∷ [])
      []
      start
    ≡ (err type_error, start)
registered_key_refused_example =
    registered_key_refused lib codec any_text supply oqs (λ t. t) 5 "bob" "AQ==" "hi" ("carol" ∷ [])
      [] alice start
