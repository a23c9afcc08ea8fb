-- ===== src/Engine/RoundTrip/Aes.antt =====
-- Proofs about backend/crypto_engine/__init__.py: AES-GCM under a key of the Key Manager.
use qu_mail.Result.{ok}
use qu_mail.Prelude.{
  String, List, ◌≡◌, Bytes, ◌∷◌, Option, length, [], refl, ◌≢◌, some, arith, none,
}
use qu_mail.Crypto.KeyDerivation.{derive_key}
use qu_mail.Crypto.KeyDerivation.Laws.{derive_key-length}
use qu_mail.Engine.Action.{Gives, gives_bind, gives_lift, gives_step}
use qu_mail.Engine.Envelope.{Fields, encoded, open-seal, decoded-encoded, open-seal_bytes}
use qu_mail.Engine.Services.{Library, Services}
use qu_mail.Engine.Guarantees.{View, Kept, kept_trans, Guarantees}
use qu_mail.Engine.Encrypt.{Sealed, encrypt_aes, aes_context, attachment_context}
use qu_mail.Engine.Send.{attach_aes}
use qu_mail.Engine.Decrypt.{unseal, sealed_members, open_aes, decrypt_aes}
use qu_mail.Engine.Receive.{decrypt_attachment, open_attachment}
use qu_mail.Engine.RoundTrip.{
  seal-unseal, primary_requested, Bytes, length, [], some, arith, ok, none,
}

-- The ciphertext, the nonce and the tag of an envelope.
abbrev pub Carries : Library → Fields → Sealed → Type 0
Carries lib envelope sealed =
    (envelope.ciphertext ≡ encoded lib.codecs sealed.0)
    × (envelope.nonce ≡ encoded lib.codecs sealed.1)
    × (envelope.tag ≡ encoded lib.codecs sealed.2)

pub nonempty : (bs : Bytes) → length bs ≡ 32 → bs ≢ []
nonempty [] h e = absurd (omega arith)
nonempty (x ∷ xs) h e = ground arith

module _ (lib : Library) {S : Type 0} {view : View S} {b : Services S}
    (gb : Guarantees view b) where
  pub members_read :
      (envelope : Fields) (sealed : Sealed) (s : S)
      → Carries lib envelope sealed
      → Gives (sealed_members lib b envelope) s (λ x t. (x ≡ sealed) × (t ≡ s))
  unfolding sealed_members
  members_read envelope sealed s (ciphered, nonced, tagged) =
      gives_step _ sealed.1 (rw nonced (decoded-encoded lib.codecs sealed.1)) (
        gives_step _ sealed.2 (rw tagged (decoded-encoded lib.codecs sealed.2)) (
          gives_step _ sealed.0 (rw ciphered (decoded-encoded lib.codecs sealed.0))
            (gives_lift _ refl (refl, refl))))

  open_aes_lem :
      (context : Bytes) (envelope : Fields) (key_id : Option String) (k : String) (m key : Bytes)
      (sealed : Sealed) (plain : Bytes) (s : S)
      → envelope.key_id ≡ some k
      → Carries lib envelope sealed
      → derive_key lib.hkdf m context 32 [] ≡ ok key
      → unseal lib sealed key ≡ ok plain
      → view.Ready s
      → view.Holds k m s
      → Gives (open_aes lib b context envelope key_id) s (λ x t. (x ≡ plain) × Kept view s t)
  unfolding open_aes
  open_aes_lem context envelope key_id k m key sealed plain s named carries derived opened ready
        held =
      rw named (
        gives_bind (gb.got k m s ready held) (λ found t (same, kept).
          gives_step _ key (rw same derived) (
            gives_bind (members_read _ sealed t carries)
              (λ x u (read, left). gives_lift plain (rw read opened) (refl, rw left kept)))))

  module _ {a : Services S} (ga : Guarantees view a) where
    pub aes_body :
        (body r : String) (rs : List String) (s : S)
        → view.Ready s
        → Gives (encrypt_aes lib a body (r ∷ rs)) s (λ x t.
          (x.attachments ≡ none)
          × Kept view s t
          × ((u : S)
              → Kept view t u
              → Gives
                  (decrypt_aes lib b x.ciphertext x.key_id)
                  u
                  (λ plain v. (plain ≡ body) × Kept view u v)))
    unfolding encrypt_aes decrypt_aes
    aes_body body r rs s ready =
        gives_bind (primary_requested lib ga r rs s ready)
          (λ requested t (k, found, len, held, kept).
            let (key, derived, size) =
              derive_key-length lib.hkdf k.key_material aes_context 32 []
                (nonempty k.key_material len) (omega arith) (omega arith) in
            gives_step _ k (rw found refl) (
              gives_step _ key derived (
                gives_bind (seal-unseal lib ga (lib.codecs.utf8_encode body) key t size kept.ready)
                  (λ sealed u (opened, _, _, kept'). gives_lift _ refl (
                    refl,
                    kept_trans kept kept',
                    λ v later. gives_step _ _ (open-seal lib.codecs _) (
                        gives_bind
                          (open_aes_lem aes_context _ _ k.key_id k.key_material key sealed
                            (lib.codecs.utf8_encode body) v refl (refl, refl, refl) derived opened
                            later.ready (later.held (kept'.held held)))
                          (λ plain w (same, kept'').
                            gives_lift _ refl (rw same (lib.codecs.decode-utf8 body), kept''))),
                  )))))

    pub aes_attachment :
        (content : Bytes) (r : String) (rs : List String) (key_id : Option String) (s : S)
        → view.Ready s
        → Gives (attach_aes lib a content (r ∷ rs)) s (λ c t.
          Kept view s t
          × ((u : S)
              → Kept view t u
              → Gives
                  (decrypt_attachment lib b c key_id 2)
                  u
                  (λ plain v. (plain ≡ content) × Kept view u v)))
    unfolding attach_aes decrypt_attachment open_attachment
    aes_attachment content r rs key_id s ready = gives_step _ r refl (
        gives_bind (ga.requested r 32 "aes_seed" s ready (omega arith) (omega arith))
          (λ k t (len, _, held, kept).
            let (key, derived, size) =
              derive_key-length lib.hkdf k.key_material attachment_context 32 []
                (nonempty k.key_material len) (omega arith) (omega arith) in
            gives_step _ key derived (
              gives_bind (seal-unseal lib ga content key t size kept.ready)
                (λ sealed u (opened, _, _, kept'). gives_lift _ refl (
                  kept_trans kept kept',
                  λ v later. rw (open-seal_bytes lib.codecs _) (
                      open_aes_lem attachment_context _ _ k.key_id k.key_material key sealed content
                        v refl (refl, refl, refl) derived opened later.ready
                        (later.held (kept'.held held))),
                )))))
