-- ===== src/MailApi/Security/Proofs.antt =====
-- The proof endpoint of backend/api/security.py.
use qu_mail.Prelude.{
  ℕ, ◌≡◌, some, String, arith, ◌==◌, false, ◌≤◌, true, not, ◌||◌, [], none, refl, ap, ◌∙◌, eq_iff,
  sym,
}
use qu_mail.Result.{ok}
use qu_mail.Crypto.Integrity.{compute_hash}
use qu_mail.Engine.Action.{Action, Gives, ◌>>=◌, pure, gives_bind, gives_lift, gives_catch, lift}
use qu_mail.Engine.Envelope.{Fields, get_or}
use qu_mail.Engine.Services.{Library, Services}
use qu_mail.Engine.Guarantees.{View, kept_refl, Guarantees}
use qu_mail.Engine.Encrypt.{Encrypted}
use qu_mail.Engine.Decrypt.{Decrypted}
use qu_mail.Engine.Receive.{checked, decrypt_email}
use qu_mail.Prelude.Int.{pos}
use qu_mail.Engine.RoundTrip.Email.{Fits}
use qu_mail.Engine.RoundTrip.Levels.{decrypt_email-encrypt_email}
use qu_mail.MailApi.Security.{
  Reply, answer, Proof, proof_email, proof_of, prove, verify_encryption, some, String, false, true,
  not, [], none,
}

module _ (lib : Library) {S : Type 0} (sv : Services S) where
  -- The digest of what was decrypted.
  abbrev Hashed : Decrypted → Type 0
  Hashed d = d.decrypted_hash ≡ some (compute_hash lib.sha (lib.codecs.utf8_encode d.body))

  checked-Hashed :
      (m : Action S String) (metadata : Fields) (u v : S) (d : Decrypted)
      → (m >>= λ plaintext. pure (checked lib sv metadata plaintext)) u ≡ (ok d, v)
      → Hashed d
  unfolding ◌>>=◌ lift checked
  checked-Hashed m metadata u v d h = ground arith

  decrypt_email-Hashed :
      (level : ℕ) (x : Encrypted) (u v : S) (d : Decrypted)
      → (level == 4) ≡ false
      → decrypt_email lib sv (proof_email level x) u ≡ (ok d, v)
      → Hashed d
  unfolding decrypt_email
  decrypt_email-Hashed level x u v d other h = checked-Hashed _ _ u v d (rw other at h)

  gives-Hashed :
      {P : Decrypted → S → Type 0} (level : ℕ) (x : Encrypted) (u : S)
      → (level == 4) ≡ false
      → Gives (decrypt_email lib sv (proof_email level x)) u P
      → Gives (decrypt_email lib sv (proof_email level x)) u (λ d v. P d v × Hashed d)
  gives-Hashed level x u other g = record {
    value = g.value;
    after = g.after;
    outcome = g.outcome;
    holds = (g.holds, decrypt_email-Hashed level x u g.after g.value other g.outcome);
  }

-- What the endpoint answers with is a proof that encryption works.
abbrev pub Verified : ℕ → Reply Proof → Type 0
Verified level r =
    (p : Proof) × (r ≡ answer p)
    × (p.hashes_match ≡ true)
    × (p.integrity_verified ≡ true)
    × (p.decrypted_hash ≡ p.plaintext_hash)
    × (p.security_level_used ≡ level)

module _ (lib : Library) {S : Type 0} {view : View S} {sv : Services S}
    (g : Guarantees view sv) where
  proof-Verified :
      (plaintext : String) (level : ℕ) (x : Encrypted) (d : Decrypted)
      → d.body ≡ plaintext
      → d.integrity_verified ≡ some true
      → Hashed lib sv d
      → Verified level (answer (proof_of lib sv plaintext level x d))
  proof-Verified plaintext level x d same verified hashed =
      let hash =
        ap (get_or "") hashed
        ∙ ap (λ body. compute_hash lib.sha (lib.codecs.utf8_encode body)) same in
      (
        proof_of lib sv plaintext level x d,
        refl,
        (eq_iff _ _).1 (sym hash),
        ap (get_or false) verified,
        hash,
        refl,
      )

  -- At level 1 or 2 the endpoint answers that the encryption works: the hashes match and the integrity is
  -- verified, for any text of 1 byte to 1 MiB.
  pub verify_encryption-Verified :
      (plaintext : String) (level : ℕ) (s : S)
      → Fits (lib.codecs.utf8_encode plaintext)
      → view.Ready s
      → 1 ≤ level
      → level ≤ 2
      → Gives (verify_encryption lib sv plaintext (pos level)) s (λ r t. Verified level r)
  unfolding verify_encryption prove
  verify_encryption-Verified plaintext level s fits ready low high =
      let known_level : not (level == 1 || (level == 2 || level == 3)) ≡ false = ground arith in
      let other : (level == 4) ≡ false = ground arith in
      rw known_level (
        gives_catch _ (
          gives_bind
            (decrypt_email-encrypt_email lib g g level plaintext "proof-test@qumail.local" [] none
              [] s low high fits tt ready)
            (λ x t (kept, readable, all).
              gives_bind (gives-Hashed lib sv level x t other (readable t (kept_refl kept.ready)))
                (λ d u ((same, verified), hashed).
                  gives_lift _ refl (proof-Verified plaintext level x d same verified hashed)))))
