-- ===== src/EmailService/Mime/Headers.antt =====
-- Proofs about the headers of backend/email_service/mime_builder.py: what the receiver finds of them.
use qu_mail.Prelude.{
  Bool-cases, inl, inr, arith, ◌==◌, ℕ, String, List, [], ◌∷◌, Option, none, some, ◌≡◌, refl, ap,
  ◌∙◌,
}
use qu_mail.Dict.{lookup, Dict}
use qu_mail.Engine.Envelope.{get_or}
use qu_mail.EmailService.Mime.{MimeCodec, algorithm_of, mime_headers}
use qu_mail.EmailService.Mime.Transport.{MimeTransport, Travels}
use qu_mail.EmailService.Mime.Parser.{metadata_of, Metadata}

-- The key id, if there is one, comes through as a header.
abbrev pub KeyTravels : Option String → Type 0
KeyTravels none = Unit
KeyTravels (some k) = Travels "X-QuMail-Key-ID" k

module _ (codec : MimeCodec) where
  -- The headers, as they are sent.
  pub level_found :
      (from_addr : String) (to_addrs cc_addrs : List String) (level : ℕ) (o : Option String)
      → lookup "X-QuMail-Security-Level" (mime_headers codec from_addr to_addrs cc_addrs level o)
        ≡ some (codec.str level)
  unfolding lookup
  level_found from_addr to_addrs [] level o = refl
  level_found from_addr to_addrs (x ∷ xs) level o = refl

  version_found :
      (from_addr : String) (to_addrs cc_addrs : List String) (level : ℕ) (o : Option String)
      → lookup "X-QuMail-Version" (mime_headers codec from_addr to_addrs cc_addrs level o)
        ≡ some "1.0"
  unfolding lookup
  version_found from_addr to_addrs [] level o = refl
  version_found from_addr to_addrs (x ∷ xs) level o = refl

  key_found :
      (from_addr : String) (to_addrs cc_addrs : List String) (level : ℕ) (o : Option String)
      → lookup "X-QuMail-Key-ID" (mime_headers codec from_addr to_addrs cc_addrs level o) ≡ o
  unfolding lookup
  key_found from_addr to_addrs [] level none = refl
  key_found from_addr to_addrs [] level (some k) = refl
  key_found from_addr to_addrs (x ∷ xs) level none = refl
  key_found from_addr to_addrs (x ∷ xs) level (some k) = refl

  algorithm_found :
      (from_addr : String) (to_addrs cc_addrs : List String) (level : ℕ) (o : Option String)
      → lookup "X-QuMail-Algorithm" (mime_headers codec from_addr to_addrs cc_addrs level o)
        ≡ some (algorithm_of level)
  unfolding lookup
  algorithm_found from_addr to_addrs [] level none = refl
  algorithm_found from_addr to_addrs [] level (some k) = refl
  algorithm_found from_addr to_addrs (x ∷ xs) level none = refl
  algorithm_found from_addr to_addrs (x ∷ xs) level (some k) = refl

  algorithm-Travels : (level : ℕ) → Travels "X-QuMail-Algorithm" (algorithm_of level)
  unfolding algorithm_of
  algorithm-Travels level = elim (Bool-cases (level == 1)) [
    | inl one ↦ rw one (refl, omega arith)
    | inr not_one ↦ rw not_one (elim (Bool-cases (level == 2)) [
      | inl two ↦ rw two (refl, omega arith)
      | inr not_two ↦ rw not_two (elim (Bool-cases (level == 3)) [
        | inl three ↦ rw three (refl, omega arith)
        | inr not_three ↦ rw not_three (refl, omega arith)
      ])
    ])
  ]

module _ (codec : MimeCodec) (transport : MimeTransport) (hash_text : String → String) where
  -- As they are received.
  key_received :
      (headers : Dict String) (o : Option String)
      → lookup "X-QuMail-Key-ID" headers ≡ o
      → KeyTravels o
      → lookup "X-QuMail-Key-ID" (transport.carry headers) ≡ o
  key_received headers none e h = transport.carry-absent headers "X-QuMail-Key-ID" refl e
  key_received headers (some k) e h = transport.lookup-carry headers "X-QuMail-Key-ID" k refl e h

  pub metadata_found :
      (from_addr : String) (to_addrs cc_addrs : List String) (level : ℕ) (o : Option String)
      → KeyTravels o
      → metadata_of codec hash_text
          (transport.carry (mime_headers codec from_addr to_addrs cc_addrs level o))
          level
        ≡ (record {
          version = "1.0";
          security_level = level;
          key_id = o;
          algorithm = some (algorithm_of level);
          subject = none;
        })
  metadata_found from_addr to_addrs cc_addrs level o h =
      let sent = mime_headers codec from_addr to_addrs cc_addrs level o in
      let made : Option String → Option String → Option String → Metadata = λ v k a. record {
        version = get_or "1.0" v;
        security_level = level;
        key_id = k;
        algorithm = a;
        subject = none;
      } in
      let d = transport.carry sent in
      ap (λ v. made v (lookup "X-QuMail-Key-ID" d) (lookup "X-QuMail-Algorithm" d))
        (transport.lookup-carry sent "X-QuMail-Version" "1.0" refl
          (version_found codec from_addr to_addrs cc_addrs level o) (refl, omega arith))
      ∙ ap (λ k. made (some "1.0") k (lookup "X-QuMail-Algorithm" d))
          (key_received sent o (key_found codec from_addr to_addrs cc_addrs level o) h)
      ∙ ap (made (some "1.0") o) (
          transport.lookup-carry sent "X-QuMail-Algorithm" (algorithm_of level) refl
            (algorithm_found codec from_addr to_addrs cc_addrs level o)
            (algorithm-Travels codec level))
