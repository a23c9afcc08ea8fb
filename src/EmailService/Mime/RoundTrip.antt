-- ===== src/EmailService/Mime/RoundTrip.antt =====
-- Proofs about backend/email_service/mime_parser.py: what the builder makes is read back.
use qu_mail.Prelude.{
  ℕ, String, Bytes, List, [], ◌∷◌, ◌++◌, Option, none, some, map, ◌≡◌, refl, sym, ap, ◌∙◌, ◌≢◌,
  length, append_assoc, append-nil,
}
use qu_mail.Dict.{lookup}
use qu_mail.Result.{Result, ok, ◌>>=◌}
use qu_mail.Engine.Envelope.{get_or, or_value_error}
use qu_mail.EmailService.Mime.{
  MimePart, MimeCodec, OutgoingAttachment, attachment_part, build_encrypted_mime, algorithm_of,
  truthy, mime_headers, envelope_part, MimeEnvelope, text_part,
}
use qu_mail.EmailService.Mime.Headers.{KeyTravels, level_found, metadata_found}
use qu_mail.EmailService.Mime.Transport.{MimeTransport, Travels, received, received_part}
use qu_mail.EmailService.Mime.Parser.{
  Parsed, ParsedAttachment, parse_parts, parse_part, parse_qumail_message, metadata_of,
  parse_envelope, read_payload, with_envelope, loaded, parse_content, Metadata,
}

module _ (codec : MimeCodec) (transport : MimeTransport) (hash_text : String → String) where
  -- What is read of an attachment.
  abbrev pub seen : OutgoingAttachment → ParsedAttachment
  seen a = record {
    id = hash_text a.filename;
    filename = a.filename;
    size = get_or (length a.content) a.original_size;
    content = a.content;
  }

  -- The name and the size of every attachment come through as headers.
  abbrev pub AllTravel : List OutgoingAttachment → Type 0
  AllTravel [] = Unit
  AllTravel (x ∷ xs) =
      Travels "X-QuMail-Original-Name" x.filename
      × Travels "X-QuMail-Original-Size" (codec.str (get_or (length x.content) x.original_size))
      × AllTravel xs

  abbrev arrived : OutgoingAttachment → MimePart
  arrived x = received_part transport (attachment_part codec x)

  name_found :
      (x : OutgoingAttachment)
      → Travels "X-QuMail-Original-Name" x.filename
      → lookup "X-QuMail-Original-Name" (arrived x).headers ≡ some x.filename
  unfolding lookup
  name_found x h =
      transport.lookup-carry (attachment_part codec x).headers "X-QuMail-Original-Name" x.filename
        refl refl h

  size_found :
      (x : OutgoingAttachment)
      → Travels "X-QuMail-Original-Size" (codec.str (get_or (length x.content) x.original_size))
      → lookup "X-QuMail-Original-Size" (arrived x).headers
        ≡ some (codec.str (get_or (length x.content) x.original_size))
  unfolding lookup
  size_found x h =
      transport.lookup-carry (attachment_part codec x).headers "X-QuMail-Original-Size" _ refl refl
        h

  abbrev read_as : Parsed → OutgoingAttachment → String → Option ℕ → Result Parsed
  read_as r x name size = or_value_error size >>= λ n. ok (record r {
    attachments =
        r.attachments
        ++ (record { id = hash_text name; filename = name; size = n; content = x.content }) ∷ [];
  })

  parse-attachment :
      (x : OutgoingAttachment) (r : Parsed)
      → Travels "X-QuMail-Original-Name" x.filename
      → Travels "X-QuMail-Original-Size" (codec.str (get_or (length x.content) x.original_size))
      → parse_part codec hash_text r (arrived x)
        ≡ ok (record r { attachments = r.attachments ++ seen x ∷ [] })
  unfolding parse_part
  parse-attachment x r named sized =
      ap
        (λ o.
          read_as r x (get_or "attachment" o)
            (codec.int (get_or "0" (lookup "X-QuMail-Original-Size" (arrived x).headers))))
        (name_found x named)
      ∙ ap (λ o. read_as r x x.filename (codec.int (get_or "0" o))) (size_found x sized)
      ∙ ap (read_as r x x.filename) (codec.int-str (get_or (length x.content) x.original_size))

  parse-attachments :
      (xs : List OutgoingAttachment) (r : Parsed)
      → AllTravel xs
      → parse_parts codec hash_text
          (map (received_part transport) (map (attachment_part codec) xs))
          r
        ≡ ok (record r { attachments = r.attachments ++ map seen xs })
  unfolding parse_parts
  parse-attachments [] r h =
      ap (λ ys. ok (record r { attachments = ys })) (sym (append-nil r.attachments))
  parse-attachments (x ∷ xs) r (named, sized, rest) =
      ap
        (λ p.
          p
          >>= parse_parts codec hash_text
              (map (received_part transport) (map (attachment_part codec) xs)))
        (parse-attachment x r named sized)
      ∙ parse-attachments xs (record r { attachments = r.attachments ++ seen x ∷ [] }) rest
      ∙ ap (λ ys. ok (record r { attachments = ys }))
          (append_assoc r.attachments (seen x ∷ []) (map seen xs))

  payload_read :
      (r : Parsed) (bs : Bytes)
      → bs ≢ []
      → parse_envelope codec hash_text r bs
        ≡ read_payload codec hash_text r bs (codec.utf8_strict bs)
  payload_read r [] h = absurd (h refl)
  payload_read r (b ∷ bs) h = refl

  -- The envelope gives its body, and its members override the headers.
  envelope_read :
      (r : Parsed) (subject body : String) (level : ℕ)
      → parse_part codec hash_text r
          (received_part transport (envelope_part codec subject body level))
        ≡ ok (record r {
          encrypted_body = some body;
          metadata = record r.metadata {
            version = "1.0";
            security_level = level;
            subject = some subject;
          };
        })
  unfolding parse_part
  envelope_read r subject body level =
      let d : MimeEnvelope = record {
        subject = some subject;
        body = some body;
        version = some "1.0";
        security_level = some level;
      } in
      let payload = codec.b64encode (codec.dumps d) in
      let (text, decoded) = codec.dumps_text d in
      payload_read r payload (codec.dumps_nonempty d)
      ∙ ap (read_payload codec hash_text r payload) decoded
      ∙ ap (λ o. ok (with_envelope r text (loaded codec hash_text o)))
          (codec.decode-encode (codec.dumps d))
      ∙ ap (λ o. ok (with_envelope r text o)) (codec.loads-dumps d)

  -- The message that carries an encrypted body is read back by the receiver, after its headers were
  -- serialized and parsed: the body, the subject inside the envelope, the level with its algorithm, the key
  -- id where it is not empty, and every attachment in order with its name, its content and its original
  -- size. The level, the key id, the names and the sizes must be visible ASCII text that fits on one line
  -- with the name of its header.
  pub parse_qumail_message-build_encrypted_mime :
      (from_addr subject body : String) (to_addrs cc_addrs : List String) (level : ℕ)
      (key_id : Option String) (attachments : List OutgoingAttachment)
      → Travels "X-QuMail-Security-Level" (codec.str level)
      → KeyTravels (truthy key_id)
      → AllTravel attachments
      → parse_qumail_message codec hash_text (
          received transport (
            build_encrypted_mime codec from_addr to_addrs cc_addrs subject body level key_id
              attachments))
        ≡ ok (record {
          encrypted_body = some body;
          body = "";
          metadata = record {
            version = "1.0";
            security_level = level;
            key_id = truthy key_id;
            algorithm = some (algorithm_of level);
            subject = some subject;
          };
          attachments = map seen attachments;
        })
  unfolding parse_qumail_message build_encrypted_mime parse_parts parse_part
  parse_qumail_message-build_encrypted_mime from_addr subject body to_addrs cc_addrs level key_id
        attachments leveled keyed named =
      let msg = received transport (
        build_encrypted_mime codec from_addr to_addrs cc_addrs subject body level key_id
          attachments) in
      let start : Metadata → Parsed =
        λ m. record { encrypted_body = none; body = ""; metadata = m; attachments = [] } in
      let read : ℕ → Result Parsed = λ n.
        parse_content codec hash_text msg.content
          (start (metadata_of codec hash_text msg.headers n)) in
      let m : Metadata = record {
        version = "1.0";
        security_level = level;
        key_id = truthy key_id;
        algorithm = some (algorithm_of level);
        subject = none;
      } in
      ap (λ o. or_value_error (codec.int (get_or "4" o)) >>= read)
        (transport.lookup-carry
          (mime_headers codec from_addr to_addrs cc_addrs level (truthy key_id))
          "X-QuMail-Security-Level" (codec.str level) refl
          (level_found codec from_addr to_addrs cc_addrs level (truthy key_id)) leveled)
      ∙ ap (λ o. or_value_error o >>= read) (codec.int-str level)
      ∙ ap (λ x. parse_content codec hash_text msg.content (start x))
          (metadata_found codec transport hash_text from_addr to_addrs cc_addrs level
            (truthy key_id) keyed)
      ∙ ap
          (λ p.
            p
            >>= parse_parts codec hash_text (
                map (received_part transport)
                  (text_part codec body level key_id ∷ map (attachment_part codec) attachments)))
          (envelope_read (start m) subject body level)
      ∙ parse-attachments attachments
          (record {
            encrypted_body = some body;
            body = "";
            metadata = record m { subject = some subject };
            attachments = [];
          })
          named
