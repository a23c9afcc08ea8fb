-- ===== src/Engine/Guarantees.antt =====
-- What the engine relies on of the parts that it calls, as an interface: `View` names the facts about the
-- state that matter to it, `Guarantees` is what the operations of a device do to them.
use qu_mail.Result.{err, key_exhausted}
use qu_mail.Prelude.{ℕ, String, Bytes, length, ◌≡◌, ◌<◌, ◌≤◌}
use qu_mail.Crypto.Otp.{IsBytes}
use qu_mail.Engine.Action.{Gives}
use qu_mail.Engine.Services.{Services}

pub record View (S : Type 0) : Type 1 where
  -- the state is well formed
  pub Ready : S → Type 0
  -- the Key Manager has the key with this id and these bytes, and it is not consumed
  pub Holds : String → Bytes → S → Type 0

-- From one state to a later one: every key is still held.
pub record Kept {S : Type 0} (view : View S) (s t : S) : Type 0 where
  pub ready : view.Ready t
  pub held : {k : String} {m : Bytes} → view.Holds k m s → view.Holds k m t

pub kept_trans :
    {S : Type 0} {view : View S} {s t u : S} → Kept view s t → Kept view t u → Kept view s u
kept_trans f g = record { ready = g.ready; held = λ h. g.held (f.held h) }

pub kept_refl : {S : Type 0} {view : View S} {s : S} → view.Ready s → Kept view s s
kept_refl r = record { ready = r; held = λ h. h }

pub record Guarantees {S : Type 0} (view : View S) (sv : Services S) : Type 1 where
  pub drawn :
      (n : ℕ) (s : S)
      → view.Ready s
      → Gives (sv.urandom n) s (λ bs t. (length bs ≡ n) × Kept view s t)
  -- A request for 1 byte to 1 MiB gives a new key of that many bytes.
  pub requested :
      (peer : String) (n : ℕ) (kind : String) (s : S)
      → view.Ready s
      → 0 < n
      → n ≤ 1048576
      → Gives (sv.request_key peer n kind) s (λ k t.
        (length k.key_material ≡ n)
        × IsBytes k.key_material
        × view.Holds k.key_id k.key_material t
        × Kept view s t)
  pub got :
      (k : String) (m : Bytes) (s : S)
      → view.Ready s
      → view.Holds k m s
      → Gives (sv.get_key k) s (λ key t. (key.key_material ≡ m) × Kept view s t)
  -- A key that is held is consumed, and is not given any more.
  pub consumed :
      (k : String) (m : Bytes) (s : S)
      → view.Ready s
      → view.Holds k m s
      → Gives (sv.consume_key k) s (λ _ t. sv.get_key k t ≡ (err key_exhausted, t))
