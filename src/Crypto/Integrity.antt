-- ===== src/Crypto/Integrity.antt =====
-- backend/crypto_engine/integrity.py, over SHA-256 as a parameter. `hmac.compare_digest` compares for
-- equality. An envelope is a dict of texts.
pub mod Laws
use qu_mail.Prelude.{
  String, Bool, true, false, not, Option, none, some, [], ◌∷◌, Bytes, str_eq, if◌then◌else◌,
}
use qu_mail.Dict.{Dict, lookup, insert}
use qu_mail.Crypto.Primitives.{Sha256}

abbrev pub hash_algorithm : String
hash_algorithm = "sha-256"

-- `d.get(k, "")`
abbrev pub get_text : Dict String → String → String
get_text d k = elim (lookup k d) [ none ↦ "" | some v ↦ v ]

module _ (sha : Sha256) where
  pub compute_hash : Bytes → String
  compute_hash plain = sha.hexdigest plain

  verify_hash : Bytes → String → Bool
  unfolding compute_hash
  verify_hash plain expected_hash = str_eq (compute_hash plain) expected_hash

  pub create_integrity_envelope : Bytes → Dict String
  unfolding compute_hash
  create_integrity_envelope plaintext =
      ("algorithm", hash_algorithm) ∷ ("hash", compute_hash plaintext) ∷ []

  unfoldable pub verify_integrity_envelope : Bytes → Dict String → Bool
  unfolding verify_hash
  verify_integrity_envelope plaintext [] = true
  verify_integrity_envelope plaintext (e ∷ es) =
      let envelope = e ∷ es in
      let algorithm = get_text envelope "algorithm" in
      let expected_hash = get_text envelope "hash" in
      if not (str_eq algorithm hash_algorithm)
      then false
      else if str_eq expected_hash ""
      then false
      else verify_hash plaintext expected_hash
