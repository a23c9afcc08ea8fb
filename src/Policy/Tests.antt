-- ===== src/Policy/Tests.antt =====
-- Witnesses for the policy: a database that knows one recipient, who supports levels 2 and 4.
use qu_mail.Prelude.{
  ℕ, String, List, Option, some, ◌∷◌, [], ◌≡◌, true, if◌then◌else◌, ◌≢◌, ◌⊎◌, str_eq, refl, none,
}
use qu_mail.Policy.Fallback.{}
use qu_mail.Policy.Validator.{
  KnownRecipient, KeyStatus, validate_send_request, capabilities, unsupported_level,
}
use qu_mail.Policy.Laws.{supported_by_all}
use qu_mail.Policy.Sending.{never_unsupported, valid_at-IsSupported}

abbrev known : String → Option KnownRecipient
known email =
    if str_eq email "bob" then some (record { supported_levels = some (2 ∷ 4 ∷ []) }) else none

abbrev status : KeyStatus
status = record { connected = some true; available_otp_bytes = some 100 }

abbrev bob : List String
bob = "bob" ∷ []

never_unsupported_example : validate_send_request known status bob 1 10 [] ≢ unsupported_level bob 1
never_unsupported_example = never_unsupported known status bob 1 10 [] bob 1

abbrev adjusted : ℕ
adjusted = 2

valid_at-IsSupported_example :
    (adjusted ≡ 4) ⊎ (supported_by_all adjusted (capabilities known bob) ≡ true)
unfolding validate_send_request
valid_at-IsSupported_example = valid_at-IsSupported known status bob 1 10 [] adjusted true refl
