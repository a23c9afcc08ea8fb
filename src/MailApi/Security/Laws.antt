-- ===== src/MailApi/Security/Laws.antt =====
-- What the security endpoints of backend/api/security.py report.
use qu_mail.Prelude.{
  ℕ, ◌≡◌, List, Bool, some, false, if◌then◌else◌, true, String, ◌<◌, ◌&&◌, ◌==◌, [], Option, arith,
  ◌||◌, ltb, str_eq, refl, Bool-cases, ap, inl, inr, none, ◌∙◌,
}
use qu_mail.Prelude.Int.{pos, ltb_ℤ}
use qu_mail.Result.{ok}
use qu_mail.QkdClient.{ClientStatus, StatusData, response, get_key_status}
use qu_mail.KeyManager.Pool.{Pool}
use qu_mail.KeyManager.Status
use qu_mail.KeyManager.Status.{KeyAvailability}
use qu_mail.Storage.{levels_or_plain, Json, Database}
use qu_mail.Storage.Recipients.{get-store_known_recipient, get-store_other}
use qu_mail.MailApi.Security.{
  sorted, insert_level, RecipientCapability, levels_of, get_security_status,
  check_recipient_capability, register_recipient, registered_levels, List, Bool, some, false, ◌∷◌,
  true, String, [], Option, ltb, str_eq, capability_of,
}

-- `level in levels`
pub has_level : ℕ → List ℕ → Bool
has_level level [] = false
has_level level (l ∷ ls) = l == level || has_level level ls

abbrev pub IsIncreasing : List ℕ → Type 0
IsIncreasing [] = Unit
IsIncreasing (x ∷ []) = Unit
IsIncreasing (x ∷ y ∷ ys) = (x < y) × IsIncreasing (y ∷ ys)

-- The list for each combination of the four tests.
pub levels_by : Bool → Bool → Bool → Bool → List ℕ
levels_by connected otp aes pqc = sorted (
    if connected
    then insert_level pqc 3 (insert_level aes 2 (insert_level otp 1 (4 ∷ [])))
    else 4 ∷ [])

eight :
    (connected otp aes pqc : Bool)
    → (let levels = levels_by connected otp aes pqc in
        IsIncreasing levels
        × (has_level 4 levels ≡ true)
        × (has_level 1 levels ≡ (connected && otp))
        × (has_level 2 levels ≡ (connected && aes))
        × (has_level 3 levels ≡ (connected && pqc)))
unfolding levels_by sorted has_level
eight false otp aes pqc = (tt, refl, refl, refl, refl)
eight true true true true = (omega arith, refl, refl, refl, refl)
eight true true true false = (omega arith, refl, refl, refl, refl)
eight true true false true = (omega arith, refl, refl, refl, refl)
eight true true false false = (omega arith, refl, refl, refl, refl)
eight true false true true = (omega arith, refl, refl, refl, refl)
eight true false true false = (omega arith, refl, refl, refl, refl)
eight true false false true = (omega arith, refl, refl, refl, refl)
eight true false false false = (tt, refl, refl, refl, refl)

-- Which levels are reported follows from the status alone: plain mail always, and the others where the Key
-- Manager is connected and has material of the kind; the list is in increasing order.
pub supported_levels_lem :
    (s : ClientStatus)
    → (let levels = (get_security_status s).supported_levels in
        IsIncreasing levels
        × (has_level 4 levels ≡ true)
        × (has_level 1 levels ≡ (s.connected && ltb 0 s.otp_bytes))
        × (has_level 2 levels ≡ (s.connected && ltb_ℤ (pos 0) s.aes_keys))
        × (has_level 3 levels ≡ (s.connected && ltb_ℤ (pos 0) s.pqc_keys)))
unfolding get_security_status levels_of levels_by
supported_levels_lem s =
    eight s.connected (ltb 0 s.otp_bytes) (ltb_ℤ (pos 0) s.aes_keys) (ltb_ℤ (pos 0) s.pqc_keys)

-- The answer of the Key Manager to the client.
abbrev pub status_data : KeyAvailability → StatusData
status_data a = record {
  otp_bytes_available = some a.otp_bytes_available;
  aes_keys_available = some a.aes_keys_available;
  pqc_keys_available = some a.pqc_keys_available;
}

pqc_zero :
    (p : Pool) (a : KeyAvailability)
    → (Status.get_key_status p).0 ≡ ok a
    → a.pqc_keys_available ≡ pos 0
unfolding Status.get_key_status
pqc_zero p a h = ground arith

-- Whatever the Key Manager's pool holds, of the status that its handler answers the mail client reports
-- that level 3 is not supported.
pub level_three_unsupported :
    (p : Pool) (a : KeyAvailability)
    → (Status.get_key_status p).0 ≡ ok a
    → has_level 3
        (get_security_status
          (get_key_status (response 200 (some (status_data a))))).supported_levels
      ≡ false
unfolding get_key_status
level_three_unsupported p a h = (supported_levels_lem _).4 ∙ rw (pqc_zero p a h) refl

registered_lem :
    (public_key : Option String)
    → levels_or_plain (some (registered_levels public_key)) ≡ registered_levels public_key
registered_lem none = refl
registered_lem (some k) = elim (Bool-cases (str_eq k "")) [
  | inl empty ↦ rw empty refl
  | inr key ↦ rw key refl
]

module _ (json : Json (List ℕ)) (digest : String → String) (now : ℕ) (email : String)
    (public_key : Option String) (db : Database) where
  -- A recipient that was registered is reported as a user, at all levels but the pads where a key came
  -- with the registration and at plain mail alone otherwise; what is reported of others stays.
  pub check-register :
      (other : String)
      → ((c : RecipientCapability) × (check_recipient_capability json email
              (register_recipient json digest now email public_key db)
            ≡ ok c)
          × (c.is_qumail_user ≡ true)
          × (c.supported_levels ≡ registered_levels public_key)
          × (c.last_seen ≡ some now))
        × (str_eq email other ≡ false
            → check_recipient_capability json other
                (register_recipient json digest now email public_key db)
              ≡ check_recipient_capability json other db)
  unfolding check_recipient_capability register_recipient
  check-register other = (
    (
      _,
      ap (capability_of email) (
          get-store_known_recipient json digest now email public_key
            (some (registered_levels public_key)) db),
      refl,
      registered_lem public_key,
      refl,
    ),
    (λ differ. ap (capability_of other) (
        get-store_other json digest now email public_key (some (registered_levels public_key)) db
          other differ)),
  )
