-- ===== src/Crypto/Integrity/Laws.antt =====
-- Proofs about backend/crypto_engine/integrity.py.
use qu_mail.Prelude.{
  Option, sym, ap, false≢true, String, ◌≡◌, ◌≢◌, ◌↔◌, refl, true, [], ◌∷◌, Bytes, arith, str_eq,
  eq_iff, some, none,
}
use qu_mail.Dict.{Dict, lookup}
use qu_mail.Crypto.Primitives.{Sha256}
use qu_mail.Crypto.Integrity.{
  get_text, hash_algorithm, compute_hash, create_integrity_envelope, verify_integrity_envelope,
}

found_text :
    (o : Option String) (s : String)
    → s ≢ ""
    → str_eq (elim o [ none ↦ "" | some v ↦ v ]) s ≡ true
    → o ≡ some s
found_text none s ne h = absurd (ne (sym ((eq_iff "" s).0 h)))
found_text (some v) s ne h = ap some ((eq_iff v s).0 h)

module _ (sha : Sha256) where
  -- An envelope made from a plaintext accepts exactly the contents with the same SHA-256 digest, the
  -- plaintext itself among them.
  pub verify-create :
      (plain received : Bytes)
      → (verify_integrity_envelope sha received (create_integrity_envelope sha plain) ≡ true)
        ↔ (compute_hash sha received ≡ compute_hash sha plain)
  unfolding verify_integrity_envelope create_integrity_envelope lookup
  verify-create plain received = (
    λ h. ground (
      arith,
      eq_iff (sha.hexdigest plain) "",
      eq_iff (sha.hexdigest received) (sha.hexdigest plain),
      sha.hexdigest_nonempty plain,
    ),
    λ h. ground (
      arith,
      eq_iff (sha.hexdigest plain) "",
      eq_iff (sha.hexdigest received) (sha.hexdigest plain),
      sha.hexdigest_nonempty plain,
    ),
  )

  -- The three tests that an accepted envelope has passed.
  passed_tests :
      (received : Bytes) (e : String × String) (es : Dict String)
      → verify_integrity_envelope sha received (e ∷ es) ≡ true
      → (str_eq (get_text (e ∷ es) "algorithm") hash_algorithm ≡ true)
        × (str_eq (compute_hash sha received) (get_text (e ∷ es) "hash") ≡ true)
  unfolding verify_integrity_envelope
  passed_tests received e es h = ground arith

  -- An envelope that is not empty is accepted only if it names SHA-256 and holds the digest of the
  -- contents.
  pub verify_sound :
      (received : Bytes) (envelope : Dict String)
      → envelope ≢ []
      → verify_integrity_envelope sha received envelope ≡ true
      → (lookup "algorithm" envelope ≡ some hash_algorithm)
        × (lookup "hash" envelope ≡ some (compute_hash sha received))
  unfolding verify_integrity_envelope
  verify_sound received [] ne h = absurd (ne refl)
  verify_sound received (e ∷ es) ne h =
      let (algorithm, digest) = passed_tests received e es h in
      let same = (eq_iff (compute_hash sha received) (get_text (e ∷ es) "hash")).0 digest in
      (
        found_text (lookup "algorithm" (e ∷ es)) hash_algorithm
            (λ eq. false≢true ((eq_iff hash_algorithm "").1 eq)) algorithm,
        found_text (lookup "hash" (e ∷ es)) (compute_hash sha received)
            (unfold compute_hash in sha.hexdigest_nonempty received) ((eq_iff _ _).1 (sym same)),
      )
