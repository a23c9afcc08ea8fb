-- ===== src/Policy/Validator.antt =====
-- policy_engine/validator.py. The recipients that the database knows and the status that the key manager
-- client reports are arguments.
use qu_mail.Prelude.{
  ℕ, String, Bool, List, Option, ◌∷◌, if◌then◌else◌, none, some, ◌+◌, false, ◌==◌, [], ◌&&◌, ltb,
  ◌||◌, not, true,
}
use qu_mail.Policy.Fallback.{Capability, get_fallback_level, member, supported}

-- A row of `get_known_recipient`, of which the supported levels are read.
pub record KnownRecipient : Type 0 where
  pub supported_levels : Option (List ℕ)

-- The dict of `qkd_client.get_key_status`.
pub record KeyStatus : Type 0 where
  pub connected : Option Bool
  pub available_otp_bytes : Option ℕ

pub data Verdict : Type 0 where
  invalid_security_level : ℕ → Verdict
  unsupported_level : List String → ℕ → Verdict
  insufficient_otp : ℕ → ℕ → Verdict
  key_manager_not_connected : Verdict
  -- valid, at the adjusted level; the flag is that of a warning of a downgrade
  valid_at : ℕ → Bool → Verdict

-- `check_recipient_capability`
check_recipient_capability : (String → Option KnownRecipient) → String → Capability
check_recipient_capability known email = elim (known email) [
  | none ↦ record { email = email; supported_levels = some (1 ∷ 2 ∷ 3 ∷ 4 ∷ []) }
  | some r ↦ record {
    email = email;
    supported_levels = some (elim r.supported_levels [ none ↦ 2 ∷ 3 ∷ 4 ∷ [] | some ls ↦ ls ]);
  }
]

unfoldable pub capabilities : (String → Option KnownRecipient) → List String → List Capability
unfolding check_recipient_capability
capabilities known [] = []
capabilities known (r ∷ rs) = check_recipient_capability known r ∷ capabilities known rs

-- The comprehension `unsupported`
unfoldable pub unsupported : ℕ → List Capability → List String
unsupported level [] = []
unsupported level (c ∷ cs) =
    let rest = unsupported level cs in if member level (supported c) then rest else c.email ∷ rest

unfoldable pub sum : List ℕ → ℕ
sum [] = 0
sum (n ∷ ns) = n + sum ns

-- `status.get("available", {}).get("otp_bytes", 0)`, `status.get("connected")`
abbrev pub otp_bytes : KeyStatus → ℕ
otp_bytes s = elim s.available_otp_bytes [ none ↦ 0 | some n ↦ n ]

abbrev is_connected : KeyStatus → Bool
is_connected s = elim s.connected [ none ↦ false | some b ↦ b ]

-- The checks against the key manager.
unfoldable pub check_keys : KeyStatus → ℕ → ℕ → Verdict
check_keys status security_level total_size =
    if (security_level == 1) && ltb (otp_bytes status) total_size
    then insufficient_otp total_size (otp_bytes status)
    else if ((security_level == 2) || (security_level == 3)) && not (is_connected status)
    then key_manager_not_connected
    else valid_at security_level false

unfoldable pub validate_send_request :
    (String → Option KnownRecipient) → KeyStatus → List String → ℕ → ℕ → List ℕ → Verdict
unfolding capabilities unsupported get_fallback_level check_keys sum
validate_send_request known status recipients security_level body_size attachment_sizes =
    let total_size = body_size + sum attachment_sizes in
    let caps = capabilities known recipients in
    if ltb security_level 1 || ltb 4 security_level
    then invalid_security_level security_level
    else if security_level == 4
    then valid_at 4 false
    else elim (unsupported security_level caps) [
      | [] ↦ check_keys status security_level total_size
      | e ∷ es ↦
          (let fallback = get_fallback_level security_level caps in
            if fallback == security_level
            then unsupported_level (e ∷ es) security_level
            else valid_at fallback true)
    ]
