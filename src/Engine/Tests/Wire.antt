-- ===== src/Engine/Tests/Wire.antt =====
-- Toy encodings that satisfy the documented laws: texts as lists of codes, and an envelope as the list of
-- its members.
use qu_mail.Dict.{Dict}
use qu_mail.Prelude.{
  ℕ, zero, suc, String, Bool, Bytes, ◌≡◌, Option, ◌∷◌, [], ap₂, ◌+◌, ◌∙◌, arith, none, some, ap,
  false, refl, true,
}
use Prim.Native.Char.{code}
use qu_mail.Crypto.Otp.{IsBytes}
use qu_mail.KeyManager.Tests.Data.{read, write, read-write}
use qu_mail.KeyStore.Tests.CharCode.{to_char, to_char-code, print, scan, scan-print}
use qu_mail.Engine.Envelope.{Fields, Codecs}

abbrev codes : String → Bytes
codes String.[] = []
codes (String.◌∷◌ c s) = code c ∷ codes s

abbrev spell : Bytes → String
spell [] = String.[]
spell (b ∷ bs) = String.◌∷◌ (to_char b) (spell bs)

pub spell-codes : (s : String) → spell (codes s) ≡ s
spell-codes String.[] = refl
spell-codes (String.◌∷◌ c s) = ap₂ String.◌∷◌ (to_char-code c) (spell-codes s)

-- A code as that many ones and a zero.
abbrev ones : ℕ → Bytes → Bytes
ones zero bs = 0 ∷ bs
ones (suc n) bs = 1 ∷ ones n bs

abbrev units : Bytes → Bytes
units [] = []
units (n ∷ ns) = ones n (units ns)

abbrev numbers : ℕ → Bytes → Bytes
numbers n [] = []
numbers n (zero ∷ bs) = n ∷ numbers 0 bs
numbers n (suc b ∷ bs) = numbers (suc n) bs

numbers-ones : (k n : ℕ) (bs : Bytes) → numbers k (ones n bs) ≡ (k + n) ∷ numbers 0 bs
numbers-ones k zero bs = ap (λ m. m ∷ numbers 0 bs) (omega arith)
numbers-ones k (suc n) bs = numbers-ones (suc k) n bs ∙ ap (λ m. m ∷ numbers 0 bs) (omega arith)

pub numbers-units : (ns : Bytes) → numbers 0 (units ns) ≡ ns
numbers-units [] = refl
numbers-units (n ∷ ns) = numbers-ones 0 n (units ns) ∙ ap₂ ◌∷◌ (omega arith) (numbers-units ns)

ones-IsBytes : (n : ℕ) (bs : Bytes) → IsBytes bs → IsBytes (ones n bs)
ones-IsBytes zero bs h = (omega arith, h)
ones-IsBytes (suc n) bs h = (omega arith, ones-IsBytes n bs h)

pub units-IsBytes : (ns : Bytes) → IsBytes (units ns)
units-IsBytes [] = tt
units-IsBytes (n ∷ ns) = ones-IsBytes n (units ns) (units-IsBytes ns)

abbrev spell_dict : Dict Bytes → Dict String
spell_dict [] = []
spell_dict ((k, v) ∷ d) = (k, spell v) ∷ spell_dict d

abbrev code_dict : Dict String → Dict Bytes
code_dict [] = []
code_dict ((k, v) ∷ d) = (k, codes v) ∷ code_dict d

spell-code_dict : (d : Dict String) → spell_dict (code_dict d) ≡ d
spell-code_dict [] = refl
spell-code_dict ((k, v) ∷ d) = ap₂ (λ t r. (k, t) ∷ r) (spell-codes v) (spell-code_dict d)

-- A member, and its value back.
abbrev show_text : Option String → Bytes
show_text none = []
show_text (some s) = 1 ∷ codes s

abbrev see_text : Bytes → Option String
see_text [] = none
see_text (b ∷ bs) = some (spell bs)

see-show_text : (o : Option String) → see_text (show_text o) ≡ o
see-show_text none = refl
see-show_text (some s) = ap some (spell-codes s)

abbrev show_number : Option ℕ → Bytes
show_number none = []
show_number (some n) = n ∷ []

abbrev see_number : Bytes → Option ℕ
see_number [] = none
see_number (b ∷ bs) = some b

see-show_number : (o : Option ℕ) → see_number (show_number o) ≡ o
see-show_number none = refl
see-show_number (some s) = refl

abbrev show_flag : Option Bool → Bytes
show_flag none = []
show_flag (some true) = 1 ∷ []
show_flag (some false) = 0 ∷ []

abbrev see_flag : Bytes → Option Bool
see_flag [] = none
see_flag (zero ∷ bs) = some false
see_flag (suc b ∷ bs) = some true

see-show_flag : (o : Option Bool) → see_flag (show_flag o) ≡ o
see-show_flag none = refl
see-show_flag (some true) = refl
see-show_flag (some false) = refl

abbrev show_dict : Option (Dict String) → Bytes
show_dict none = []
show_dict (some d) = 1 ∷ print (code_dict d)

abbrev see_scanned : Option (Dict Bytes) → Option (Dict String)
see_scanned none = none
see_scanned (some d) = some (spell_dict d)

abbrev see_dict : Bytes → Option (Dict String)
see_dict [] = none
see_dict (b ∷ bs) = see_scanned (scan bs)

see-show_dict : (o : Option (Dict String)) → see_dict (show_dict o) ≡ o
see-show_dict none = refl
see-show_dict (some d) = ap see_scanned (scan-print (code_dict d)) ∙ ap some (spell-code_dict d)

abbrev show_fields : Fields → Dict Bytes
show_fields d =
    ("", show_text d.version)
    ∷ ("", show_number d.security_level)
    ∷ ("", show_text d.algorithm)
    ∷ ("", show_text d.key_id)
    ∷ ("", show_number d.body_length)
    ∷ ("", show_dict d.recipient_key_ids)
    ∷ ("", show_flag d.signed)
    ∷ ("", show_text d.ciphertext)
    ∷ ("", show_text d.nonce)
    ∷ ("", show_text d.tag)
    ∷ ("", show_text d.encapsulated_key)
    ∷ ("", show_text d.signature)
    ∷ ("", show_text d.sender_encap)
    ∷ ("", show_text d.sender_enc_ck)
    ∷ ("", show_dict d.integrity)
    ∷ ("", show_text d.plaintext_hash)
    ∷ []

abbrev see_fields : Dict Bytes → Option Fields
see_fields
      ((_, version)
        ∷ (_, security_level)
        ∷ (_, algorithm)
        ∷ (_, key_id)
        ∷ (_, body_length)
        ∷ (_, recipient_key_ids)
        ∷ (_, signed)
        ∷ (_, ciphertext)
        ∷ (_, nonce)
        ∷ (_, tag)
        ∷ (_, encapsulated_key)
        ∷ (_, signature)
        ∷ (_, sender_encap)
        ∷ (_, sender_enc_ck)
        ∷ (_, integrity)
        ∷ (_, plaintext_hash)
        ∷ []) =
    some (record {
      version = see_text version;
      security_level = see_number security_level;
      algorithm = see_text algorithm;
      key_id = see_text key_id;
      body_length = see_number body_length;
      recipient_key_ids = see_dict recipient_key_ids;
      signed = see_flag signed;
      ciphertext = see_text ciphertext;
      nonce = see_text nonce;
      tag = see_text tag;
      encapsulated_key = see_text encapsulated_key;
      signature = see_text signature;
      sender_encap = see_text sender_encap;
      sender_enc_ck = see_text sender_enc_ck;
      integrity = see_dict integrity;
      plaintext_hash = see_text plaintext_hash;
    })
see_fields _ = none

pub see-show_fields : (d : Fields) → see_fields (show_fields d) ≡ some d
see-show_fields d =
    rw
      (
        see-show_text d.version,
        see-show_number d.security_level,
        see-show_text d.algorithm,
        see-show_text d.key_id,
        see-show_number d.body_length,
        see-show_dict d.recipient_key_ids,
        see-show_flag d.signed,
        see-show_text d.ciphertext,
        see-show_text d.nonce,
        see-show_text d.tag,
        see-show_text d.encapsulated_key,
        see-show_text d.signature,
        see-show_text d.sender_encap,
        see-show_text d.sender_enc_ck,
        see-show_dict d.integrity,
        see-show_text d.plaintext_hash,
      )
      refl

-- Base64 marks its bytes with a 1, and JSON its own with a 2.
abbrev unmark : Bytes → Option Bytes
unmark [] = none
unmark (b ∷ bs) = some bs

abbrev see_scanned_fields : Option (Dict Bytes) → Option Fields
see_scanned_fields none = none
see_scanned_fields (some d) = see_fields d

abbrev load_fields : Bytes → Option Fields
load_fields (suc (suc b) ∷ bs) = see_scanned_fields (scan bs)
load_fields _ = none

abbrev pub codecs : Codecs
codecs = record {
  b64encode = write;
  b64decode = read 0;
  b64encode_bytes = λ bs. 1 ∷ bs;
  b64decode_bytes = unmark;
  dumps = λ d. 2 ∷ print (show_fields d);
  loads = load_fields;
  utf8_encode = λ s. units (codes s);
  utf8_decode = λ bs. spell (numbers 0 bs);
  decode-encode = read-write;
  decode-encode_bytes = λ bs. refl;
  loads-dumps = λ d. ap see_scanned_fields (scan-print (show_fields d)) ∙ see-show_fields d;
  loads-encode = λ d. refl;
  decode-utf8 = λ s. ap spell (numbers-units (codes s)) ∙ spell-codes s;
  utf8_encode-IsBytes = λ s. units-IsBytes (codes s);
}
