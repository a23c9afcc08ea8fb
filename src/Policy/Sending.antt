-- ===== src/Policy/Sending.antt =====
-- Proofs about policy_engine/validator.py.
use qu_mail.Prelude.{
  ℕ, String, Bool, List, ◌≡◌, Option, true, [], ◌∷◌, ◌≢◌, ◌⊎◌, ◌≤◌, arith, some, ◌+◌, refl, false,
  List-cases, inl, inr, Bool-cases,
}
use qu_mail.Policy.Fallback.{Capability, get_fallback_level, supported}
use qu_mail.Policy.Validator.{
  KnownRecipient, KeyStatus, Verdict, validate_send_request, unsupported, capabilities, check_keys,
  sum, unsupported_level, valid_at, otp_bytes,
}
use qu_mail.Policy.Laws.{supported_by_all, get_fallback_level-IsSupported}

unsupported-supported :
    (level : ℕ) (caps : List Capability)
    → supported_by_all level caps ≡ true
    → unsupported level caps ≡ []
unfolding unsupported supported_by_all
unsupported-supported level [] h = refl
unsupported-supported level (c ∷ cs) h = ground (arith, unsupported-supported level cs)

supported-unsupported :
    (level : ℕ) (caps : List Capability)
    → unsupported level caps ≡ []
    → supported_by_all level caps ≡ true
unfolding unsupported supported_by_all
supported-unsupported level [] h = refl
supported-unsupported level (c ∷ cs) h = ground (arith, supported-unsupported level cs)

-- The fallback is 4 or supported by all, whenever a recipient is unsupported.
fallback_lem :
    (level : ℕ) (caps : List Capability) (e : String) (es : List String)
    → unsupported level caps ≡ e ∷ es
    → (get_fallback_level level caps ≡ 4)
      ⊎ (supported_by_all (get_fallback_level level caps) caps ≡ true)
fallback_lem level [] e es h = absurd (unfold unsupported in ground arith)
fallback_lem level (c ∷ cs) e es h = get_fallback_level-IsSupported level c cs

module _ (known : String → Option KnownRecipient) (status : KeyStatus) (recipients : List String)
    (level body_size : ℕ) (attachment_sizes : List ℕ) where
  abbrev caps : List Capability
  caps = capabilities known recipients

  abbrev verdict : Verdict
  verdict = validate_send_request known status recipients level body_size attachment_sizes

  -- `validate_send_request` never rejects a request because a recipient does not support the level: the
  -- branch for a fallback that equals the level is dead.
  pub never_unsupported : (names : List String) (at : ℕ) → verdict ≢ unsupported_level names at
  unfolding validate_send_request check_keys
  never_unsupported names at h = elim (List-cases (unsupported level caps)) [
    | inl nothing ↦ absurd (ground arith)
    | inr (e, es, some_names) ↦ elim (fallback_lem level caps e es some_names) [
      | inl four ↦ absurd (ground arith)
      | inr kept ↦ absurd (ground (arith, unsupported-supported level caps))
    ]
  ]

  -- A request that is valid is adjusted to level 4, or to a level that every recipient supports.
  pub valid_at-IsSupported :
      (adjusted : ℕ) (warned : Bool)
      → verdict ≡ valid_at adjusted warned
      → (adjusted ≡ 4) ⊎ (supported_by_all adjusted caps ≡ true)
  unfolding validate_send_request check_keys
  valid_at-IsSupported adjusted warned h = elim (Bool-cases (supported_by_all adjusted caps)) [
    | inl kept ↦ inr kept
    | inr lost ↦ inl (elim (List-cases (unsupported level caps)) [
      | inl nothing ↦ ground (arith, supported-unsupported level caps nothing)
      | inr (e, es, some_names) ↦ elim (fallback_lem level caps e es some_names) [
        | inl four ↦ ground arith
        | inr kept ↦ ground arith
      ]
    ])
  ]

  -- A request at level 1 to 3 that every recipient supports is valid as it is, where the key manager is
  -- connected and has as many OTP bytes as the message and its attachments take.
  pub validate_send_request-supported :
      1 ≤ level
      → level ≤ 3
      → supported_by_all level caps ≡ true
      → status.connected ≡ some true
      → body_size + sum attachment_sizes ≤ otp_bytes status
      → verdict ≡ valid_at level false
  unfolding validate_send_request check_keys
  validate_send_request-supported low high supported connected enough =
      ground (arith, unsupported-supported level caps supported)
