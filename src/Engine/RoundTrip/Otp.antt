-- ===== src/Engine/RoundTrip/Otp.antt =====
-- Proofs about backend/crypto_engine/__init__.py: the one-time pad.
use qu_mail.Result.{ok, err, key_exhausted}
use qu_mail.Prelude.{
  String, List, Bytes, ◌<◌, Option, length, ◌≡◌, ◌≤◌, some, ◌∷◌, arith, refl, none,
}
use qu_mail.Crypto.Otp.{otp_decrypt, IsBytes}
use qu_mail.Crypto.Otp.Laws.{otp_round_trip}
use qu_mail.Engine.Action.{
  Gives, gives_bind, gives_weaken, ◌>>=◌, lift, gives_lift, gives_catch, gives_step,
}
use qu_mail.Engine.Envelope.{Fields, encoded, open-seal, decoded-encoded, open-seal_bytes}
use qu_mail.Engine.Services.{Library, Services}
use qu_mail.Engine.Guarantees.{View, Kept, Guarantees}
use qu_mail.Engine.Encrypt.{encrypt_otp}
use qu_mail.Engine.Send.{attach_otp}
use qu_mail.Engine.Receive.{open_attachment, decrypt_attachment}
use qu_mail.Engine.Decrypt.{decrypt_otp, decrypt_pad}

module _ (lib : Library) {S : Type 0} {view : View S} {a b : Services S} (ga : Guarantees view a)
    (gb : Guarantees view b) where
  -- An envelope whose pad is held gives the body, and its key is not given again.
  otp_opens :
      (body k : String) (pad c : Bytes) (envelope : Fields) (key_id : Option String) (s : S)
      → envelope.ciphertext ≡ encoded lib.codecs c
      → envelope.key_id ≡ some k
      → otp_decrypt c pad ≡ ok (lib.codecs.utf8_encode body)
      → view.Ready s
      → view.Holds k pad s
      → Gives
          (decrypt_pad lib b (ok envelope) key_id)
          s
          (λ plain t. (plain ≡ body) × (b.get_key k t ≡ (err key_exhausted, t)))
  unfolding decrypt_pad
  otp_opens body k pad c envelope key_id s ciphered named opened ready held = rw named (
      gives_step _ c (rw ciphered (decoded-encoded lib.codecs c)) (
        gives_bind (gb.got k pad s ready held) (λ key t (same, kept).
          gives_step _ (lib.codecs.utf8_encode body) (rw same opened) (
            gives_bind (gives_catch _ (gb.consumed k pad t kept.ready (kept.held held)))
              (λ _ u gone.
                gives_lift (lib.codecs.utf8_decode (lib.codecs.utf8_encode body)) refl
                  (lib.codecs.decode-utf8 body, gone))))))

  -- Once its key is not given any more, the envelope is refused.
  otp_refused :
      (k : String) (c : Bytes) (envelope : Fields) (key_id : Option String) (s : S)
      → envelope.ciphertext ≡ encoded lib.codecs c
      → envelope.key_id ≡ some k
      → b.get_key k s ≡ (err key_exhausted, s)
      → decrypt_pad lib b (ok envelope) key_id s ≡ (err key_exhausted, s)
  unfolding decrypt_pad ◌>>=◌ lift
  otp_refused k c envelope key_id s ciphered named gone =
      rw (ciphered, named) (rw (decoded-encoded lib.codecs c) (rw gone refl))

  pub otp_body :
      (body r : String) (rs : List String) (s : S)
      → view.Ready s
      → 0 < length (lib.codecs.utf8_encode body)
      → length (lib.codecs.utf8_encode body) ≤ 1048576
      → Gives (encrypt_otp lib a body (r ∷ rs)) s (λ x t.
        (x.attachments ≡ none)
        × Kept view s t
        × ((u : S)
            → Kept view t u
            → Gives (decrypt_otp lib b x.ciphertext x.key_id) u (λ plain v.
              (plain ≡ body)
              × (decrypt_otp lib b x.ciphertext x.key_id v ≡ (err key_exhausted, v)))))
  unfolding encrypt_otp decrypt_otp
  otp_body body r rs s ready positive fits =
      let plain = lib.codecs.utf8_encode body in
      gives_step _ r refl (
        gives_bind (ga.requested r (length plain) "otp" s ready positive fits)
          (λ k t (len, bytes, held, kept).
            let (c, enc, same, dec) =
              otp_round_trip plain k.key_material (lib.codecs.utf8_encode-IsBytes body) bytes
                (omega arith) in
            gives_step _ c enc (
              gives_lift _ refl (
                refl,
                kept,
                λ u later. rw (open-seal lib.codecs _) (
                    gives_weaken
                      (otp_opens body k.key_id k.key_material c _ _ u refl refl dec later.ready
                        (later.held held))
                      (λ x v (same, gone). (same, otp_refused k.key_id c _ _ v refl refl gone))),
              ))))

  -- The same of an attachment, whose key nobody consumes.
  pub otp_attachment :
      (content : Bytes) (r : String) (rs : List String) (key_id : Option String) (s : S)
      → IsBytes content
      → view.Ready s
      → 0 < length content
      → length content ≤ 1048576
      → Gives (attach_otp lib a content (r ∷ rs)) s (λ c t.
        Kept view s t
        × ((u : S)
            → Kept view t u
            → Gives
                (decrypt_attachment lib b c key_id 1)
                u
                (λ plain v. (plain ≡ content) × Kept view u v)))
  unfolding attach_otp decrypt_attachment open_attachment
  otp_attachment content r rs key_id s is_bytes ready positive fits = gives_step _ r refl (
      gives_bind (ga.requested r (length content) "otp" s ready positive fits)
        (λ k t (len, bytes, held, kept).
          let (c, enc, same, dec) =
            otp_round_trip content k.key_material is_bytes bytes (omega arith) in
          gives_step _ c enc (
            gives_lift _ refl (
              kept,
              λ u later. rw (open-seal_bytes lib.codecs _) (
                  gives_step _ c (decoded-encoded lib.codecs c) (
                    gives_bind (gb.got k.key_id k.key_material u later.ready (later.held held))
                      (λ key v (got, kept'). gives_lift content (rw got dec) (refl, kept')))),
            ))))
