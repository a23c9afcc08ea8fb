-- ===== src/EmailService/Mime/Tests.antt =====
-- A witness for the MIME messages, over toy encodings that satisfy the laws.
use qu_mail.Result.{ok}
use qu_mail.Prelude.{Bytes, Option, some, none, [], ◌∷◌, ◌≡◌, ap, arith, refl}
use qu_mail.Engine.Envelope.{Fields, no_fields}
use qu_mail.EmailService.Mime.{MimeEnvelope}
use qu_mail.KeyManager.Tests.Data.{codec}
use qu_mail.Engine.Tests.Wire.{codecs}
use qu_mail.EmailService.Mime.{build_encrypted_mime, OutgoingAttachment, MimeCodec, algorithm_of}
use qu_mail.EmailService.Mime.Parser.{parse_qumail_message}
use qu_mail.EmailService.Mime.Transport.{MimeTransport, received}
use qu_mail.EmailService.Mime.RoundTrip.{seen, parse_qumail_message-build_encrypted_mime}

abbrev fields_of : MimeEnvelope → Fields
fields_of e = record no_fields {
  version = e.version;
  security_level = e.security_level;
  algorithm = e.subject;
  ciphertext = e.body;
}

abbrev envelope_of : Option Fields → Option MimeEnvelope
envelope_of none = none
envelope_of (some d) = some (record {
  subject = d.algorithm;
  body = d.ciphertext;
  version = d.version;
  security_level = d.security_level;
})

abbrev opened : Bytes → Option Bytes
opened [] = none
opened (b ∷ bs) = some bs

abbrev mime : MimeCodec
mime = record {
  str = codec.isoformat;
  int = codec.fromisoformat;
  utf8_encode = codecs.utf8_encode;
  utf8_strict = λ b. some (codecs.utf8_decode b);
  dumps = λ e. codecs.dumps (fields_of e);
  loads = λ b. envelope_of (codecs.loads b);
  b64encode = λ b. 0 ∷ b;
  b64decode = opened;
  int-str = codec.from-iso;
  loads-dumps = λ e. ap envelope_of (codecs.loads-dumps (fields_of e));
  dumps_text = λ e. (codecs.utf8_decode (0 ∷ codecs.dumps (fields_of e)), refl);
  dumps_nonempty = λ e h. ground arith;
  decode-encode = λ b. refl;
}

abbrev note : OutgoingAttachment
note = record { filename = "n"; content = 8 ∷ 9 ∷ []; original_size = none }

-- A transport that keeps every header.
abbrev transport : MimeTransport
transport = record {
  carry = λ headers. headers;
  lookup-carry = λ headers name value own found h. found;
  carry-absent = λ headers name own missing. missing;
}

parse_qumail_message-build_encrypted_mime_example :
    parse_qumail_message mime
      (λ t. t)
      (received transport (
        build_encrypted_mime mime "alice"
          ("bob" ∷ [])
          ("carol" ∷ [])
          "plan"
          "Y2lwaGVy"
          2
          (some "k")
          (note ∷ [])))
    ≡ ok (record {
      encrypted_body = some "Y2lwaGVy";
      body = "";
      metadata = record {
        version = "1.0";
        security_level = 2;
        key_id = some "k";
        algorithm = some "AES-256-GCM";
        subject = some "plan";
      };
      attachments = seen mime transport (λ t. t) note ∷ [];
    })
unfolding algorithm_of
parse_qumail_message-build_encrypted_mime_example =
    parse_qumail_message-build_encrypted_mime mime transport (λ t. t) "alice" "plan" "Y2lwaGVy"
      ("bob" ∷ []) ("carol" ∷ []) 2 (some "k") (note ∷ []) (refl, omega arith) (refl, omega arith)
      ((refl, omega arith), (refl, omega arith), tt)
