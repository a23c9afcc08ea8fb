-- ===== src/Crypto/Examples.antt =====
-- Toy primitives that satisfy the documented laws.
use qu_mail.Prelude.{
  Bytes, length, Option, ◌++◌, ◌≡◌, ◌==◌, some, replicate, true, take, ◌+◌, ap, arith, ◌-◌,
  length-append, take-append_self, length-replicate, false≢true, ◌∷◌, eq_iff, [], refl, ℕ,
}
use qu_mail.Crypto.Primitives.{Aead, Hkdf, Sha256, Oqs}

-- The plaintext with sixteen zeros behind it.
abbrev pub cut_tag : Bytes → Option Bytes
cut_tag c = some (take (length c - 16) c)

pub length-sealed : (plain : Bytes) → length (plain ++ replicate 16 0) ≡ length plain + 16
length-sealed plain = length-append plain (replicate 16 0)

pub cut_sealed : (plain : Bytes) → cut_tag (plain ++ replicate 16 0) ≡ some plain
cut_sealed plain = ap some (
    take-append_self (length (plain ++ replicate 16 0) - 16) plain (replicate 16 0)
      (omega (arith, length-sealed plain)))

pub accepts_32 : (key : Bytes) → length key ≡ 32 → (length key == 32) ≡ true
accepts_32 key h = ground arith

abbrev pub aead : Aead
aead = record {
  accepts_key = λ key. length key == 32;
  seal = λ key nonce plain aad. plain ++ replicate 16 0;
  unseal = λ key nonce c aad. cut_tag c;
  accepts_256_bits = accepts_32;
  length-seal = λ key nonce plain aad. length-sealed plain;
  unseal-seal = λ key nonce plain aad. cut_sealed plain;
}

abbrev pub hkdf : Hkdf
hkdf = record {
  derive = λ ikm info n salt. replicate n 5;
  length-derive = λ ikm info n salt. length-replicate n 5;
}

abbrev pub sha : Sha256
sha = record {
  hexdigest = λ bs. "d";
  hexdigest_nonempty = λ bs e. false≢true ((eq_iff "d" "").1 e);
}

-- Every key is empty but for one byte, and every secret is the same.
abbrev pub oqs : Oqs
oqs = record {
  kem_keypair = λ seed. (1 ∷ [], 2 ∷ []);
  encap_secret = λ coins public_key. (3 ∷ [], replicate 32 4);
  decap_secret = λ secret_key ciphertext. replicate 32 4;
  signature_keypair = λ seed. (5 ∷ [], 6 ∷ []);
  sign = λ coins secret_key message. 7 ∷ [];
  verify = λ message signature public_key. true;
  length-shared_secret = λ coins public_key. length-replicate {A = ℕ} 32 4;
  decap-encap = λ seed coins. refl;
  verify-sign = λ seed coins message. refl;
}
