-- ===== src/Engine/RoundTrip.antt =====
-- Proofs about backend/crypto_engine/__init__.py: what one device encrypts another one decrypts, level by
-- level.
pub mod Otp
pub mod Aes
pub mod Email
pub mod Levels
use qu_mail.Result.{ok}
use qu_mail.Dict.{Dict, insert}
use qu_mail.Prelude.{ℕ, String, Bool, List, Bytes, ◌∷◌, length, some, [], ◌≡◌, none, arith, refl}
use qu_mail.Crypto.AesGcm.Laws.{aes_round_trip}
use qu_mail.Crypto.KeyDerivation.{derive_key}
use qu_mail.Crypto.KeyDerivation.Laws.{derive_key-length}
use qu_mail.QkdClient.{ClientKey}
use qu_mail.Engine.Action.{Action, Gives, gives_bind, gives_weaken, gives_lift}
use qu_mail.Engine.Envelope.{Fields}
use qu_mail.Engine.Services.{Library, Services}
use qu_mail.Engine.Guarantees.{View, Kept, kept_trans, kept_refl, Guarantees}
use qu_mail.Engine.Encrypt.{Encrypted, Sealed, seal, request_keys, keep_first}
use qu_mail.Engine.Decrypt.{unseal}

module _ (lib : Library) {S : Type 0} {view : View S} {a : Services S}
    (ga : Guarantees view a) where
  -- What `seal` makes under a 256-bit key, `unseal` opens.
  pub seal-unseal :
      (plain key : Bytes) (s : S)
      → length key ≡ 32
      → view.Ready s
      → Gives (seal lib a plain key) s (λ x t.
        (unseal lib x key ≡ ok plain) × (length x.1 ≡ 12) × (length x.2 ≡ 16) × Kept view s t)
  unfolding seal
  seal-unseal plain key s hk ready = gives_bind (ga.drawn 12 s ready) (λ nonce t (len, kept).
      let (c, tag, sealed, same, tagged, opened) =
        aes_round_trip lib.aead nonce plain key [] hk len in
      gives_lift (c, nonce, tag) sealed (opened, len, tagged, kept))

  -- Further requests leave the primary key alone.
  keep_primary :
      (rs : List String) (ids : Dict String) (k : ClientKey) (s : S)
      → view.Ready s
      → Gives (request_keys lib a rs ids (some k)) s (λ x t. (x.1 ≡ some k) × Kept view s t)
  unfolding request_keys
  keep_primary [] ids k s ready = gives_lift (ids, some k) refl (refl, kept_refl ready)
  keep_primary (r ∷ rs) ids k s ready =
      gives_bind (ga.requested r 32 "aes_seed" s ready (omega arith) (omega arith))
        (λ j t (len, bytes, held, kept).
          gives_weaken (keep_primary rs (insert r j.key_id ids) k t kept.ready)
            (λ x u (same, kept'). (same, kept_trans kept kept')))

  -- The loop over the recipients, of whom there is one, requests a key of 32 bytes that is held.
  pub primary_requested :
      (r : String) (rs : List String) (s : S)
      → view.Ready s
      → Gives (request_keys lib a (r ∷ rs) [] none) s (λ x t.
        (k : ClientKey) × (x.1 ≡ some k)
        × (length k.key_material ≡ 32)
        × view.Holds k.key_id k.key_material t
        × Kept view s t)
  unfolding request_keys
  primary_requested r rs s ready =
      gives_bind (ga.requested r 32 "aes_seed" s ready (omega arith) (omega arith))
        (λ k t (len, bytes, held, kept).
          gives_weaken (keep_primary rs (insert r k.key_id []) k t kept.ready)
            (λ x u (same, kept'). (k, same, len, kept'.held held, kept_trans kept kept')))
