-- ===== src/Crypto/Tests.antt =====
-- Witnesses for the cryptography, over toy primitives that satisfy the documented laws.
mod Simulation
use qu_mail.Result.{ok, err, value_error, ◌>>=◌}
use qu_mail.Prelude.{String, Bytes, length, replicate, ◌∷◌, [], ◌≡◌, some, arith, true, ◌↔◌, refl}
use qu_mail.Crypto.Examples.{aead, hkdf, sha}
use qu_mail.Dict.{Dict, lookup}
use qu_mail.Crypto.Otp.{otp_encrypt, otp_decrypt, otp_encrypt_with_mac, otp_decrypt_with_mac}
use qu_mail.Crypto.Otp.Laws.{otp_round_trip, otp_mac_round_trip, otp_mac_refusals}
use qu_mail.Crypto.AesGcm.{aes_encrypt, aes_decrypt, aes_encrypt_combined, aes_decrypt_combined}
use qu_mail.Crypto.AesGcm.Laws.{aes_round_trip, aes_combined_round_trip}
use qu_mail.Crypto.KeyDerivation.{EmailKeys, derive_email_keys}
use qu_mail.Crypto.KeyDerivation.Laws.{derive_email_keys_lem}
use qu_mail.Crypto.Integrity.{
  create_integrity_envelope, verify_integrity_envelope, compute_hash, hash_algorithm,
}
use qu_mail.Crypto.Integrity.Laws.{verify-create, verify_sound}

otp_round_trip_example :
    (c : Bytes) × (otp_encrypt (1 ∷ 2 ∷ []) (7 ∷ 8 ∷ 9 ∷ []) ≡ ok c)
    × (length c ≡ 2)
    × (otp_decrypt c (7 ∷ 8 ∷ 9 ∷ []) ≡ ok (1 ∷ 2 ∷ []))
otp_round_trip_example =
    otp_round_trip (1 ∷ 2 ∷ []) (7 ∷ 8 ∷ 9 ∷ []) (omega arith, (omega arith, tt))
      (omega arith, (omega arith, (omega arith, tt))) (omega arith)

aes_round_trip_example :
    (c tag : Bytes) × (aes_encrypt aead (replicate 12 1) (4 ∷ 5 ∷ []) (replicate 32 3) []
      ≡ ok (c, replicate 12 1, tag))
    × (length c ≡ 2)
    × (length tag ≡ 16)
    × (aes_decrypt aead c (replicate 32 3) (replicate 12 1) tag [] ≡ ok (4 ∷ 5 ∷ []))
aes_round_trip_example =
    aes_round_trip aead (replicate 12 1) (4 ∷ 5 ∷ []) (replicate 32 3) [] refl refl
