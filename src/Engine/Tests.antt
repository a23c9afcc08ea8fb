-- ===== src/Engine/Tests.antt =====
-- Witnesses for the engine: two devices over the pool of the Key Manager's witnesses.
pub mod Wire
use qu_mail.Result.{err, key_exhausted, type_error, value_error, index_error, attribute_error}
use qu_mail.Dict.{lookup}
use qu_mail.Prelude.{
  ℕ, zero, suc, String, Bool, List, true, Option, some, ◌≡◌, replicate, ◌∷◌, [], str_eq, none,
  Bytes, arith, sym, false, ◌≢◌, refl, ◌∙◌, Bool-cases, ap, inl, inr, eq_iff,
}
use qu_mail.Crypto.Otp.{IsBytes}
use qu_mail.Crypto.Examples.{aead, hkdf, sha, oqs}
use qu_mail.KeyManager.Tests.Data.{codec, source, pool, pool-IsValid, letters, read, one_number}
use qu_mail.Engine.Action.{Gives}
use qu_mail.Engine.Envelope.{get_or, no_fields}
use qu_mail.Engine.Guarantees.{View, Kept, kept_refl, Guarantees}
use qu_mail.Engine.Services.{Library, Services}
use qu_mail.Storage.{Json, empty_database}
use qu_mail.KeyManager.Tests.Data.{write, read-write}
use qu_mail.Engine.Encrypt.{Encrypted, Attachment}
use qu_mail.Engine.Send.{encrypt_email}
use qu_mail.Engine.Receive.{decrypt_email}
use qu_mail.Engine.World.{World, Supply, Device, device_services}
use qu_mail.Engine.World.Laws.{IsReady, world_view, device-Guarantees}
use qu_mail.Engine.World.EndToEnd.{of_device, device_round_trip}
use qu_mail.Engine.RoundTrip.Email.{received, Fits, AllFit, AllReadable, BodyReadable}
use qu_mail.Engine.RoundTrip.Levels.{decrypt_email-once}
use qu_mail.Engine.Refusals.{unknown_level_refused, no_recipient_refused}
use qu_mail.Engine.Tests.Wire.{codecs}

abbrev pub lib : Library
lib = record { aead = aead; hkdf = hkdf; sha = sha; codecs = codecs }

abbrev pub any_text : String → Bool
any_text s = true

abbrev pub unary : ℕ → String
unary i = letters i String.[]

abbrev only_number : Option Bytes → Option ℕ
only_number (some (n ∷ [])) = some n
only_number _ = none

some_same : {i j : ℕ} → some i ≡ some j → i ≡ j
some_same e = ground arith

pub unary_injective : (i j : ℕ) → unary i ≡ unary j → i ≡ j
unary_injective i j e =
    some_same (sym (one_number i) ∙ ap (λ s. only_number (read 0 s)) e ∙ one_number j)

pub sevens-IsBytes : (n : ℕ) → IsBytes (replicate n 7)
sevens-IsBytes zero = tt
sevens-IsBytes (suc n) = (omega arith, sevens-IsBytes n)

abbrev pub supply : Supply
supply = record {
  source = λ i. source;
  uuid = unary;
  now = λ i. i;
  source_bytes = λ i n. sevens-IsBytes n;
  uuid_fresh = unary_injective;
}

-- The supported levels as JSON: a letter for each.
abbrev pub levels_json : Json (List ℕ)
levels_json = record { dumps = write; loads = read 0; loads-dumps = read-write }

abbrev pub alice : Device
alice = record { json = levels_json; database = empty_database; kem_seed = []; signature_seed = [] }

abbrev pub bob : Device
bob = alice

abbrev pub start : World
start = record { pool = pool; calls = 0 }

never_a : (i : ℕ) → str_eq "a" (unary i) ≡ false
never_a i = elim (Bool-cases (str_eq "a" (unary i))) [
  | inl same ↦ absurd (
      ground
        (arith, ap (λ s. only_number (read 0 s)) ((eq_iff "a" (unary i)).0 same) ∙ one_number i))
  | inr other ↦ other
]

pub start-IsReady : IsReady codec any_text supply oqs start
unfolding lookup
start-IsReady = record {
  valid = pool-IsValid;
  otp_bytes =
      (omega arith, (omega arith, (omega arith, (omega arith, (omega arith, (omega arith, tt))))));
  unused = λ i h. rw (never_a i) refl;
}

abbrev note : Attachment
note = record { filename = "n"; content = 8 ∷ 9 ∷ [] }

device_round_trip_example :
    Gives
      (encrypt_email lib
        (of_device lib codec any_text supply oqs alice bob alice)
        "hi"
        2
        ("bob" ∷ [])
        (note ∷ []))
      start
      (λ x t.
        BodyReadable lib
          (world_view codec any_text supply oqs)
          (of_device lib codec any_text supply oqs alice bob bob)
          2
          "hi"
          (some "alice")
          x
          t
        × AllReadable lib
            (world_view codec any_text supply oqs)
            (of_device lib codec any_text supply oqs alice bob bob)
            2
            (note ∷ [])
            (get_or [] x.attachments)
            t)
device_round_trip_example =
    device_round_trip lib codec any_text supply oqs alice bob 2 "hi" "bob" [] (some "alice")
      (note ∷ []) start (λ t. refl) (omega arith) (omega arith) (omega arith, omega arith)
      ((omega arith, (omega arith, tt)), (omega arith, omega arith), tt) start-IsReady

abbrev pub of : Device → Services World
of d = of_device lib codec any_text supply oqs alice bob d

abbrev pub view : View World
view = world_view codec any_text supply oqs

abbrev alice_keeps : Guarantees view (of alice)
alice_keeps = device-Guarantees codec any_text supply oqs alice (λ t. refl)

abbrev bob_keeps : Guarantees view (of bob)
bob_keeps = device-Guarantees codec any_text supply oqs bob (λ t. refl)

decrypt_email-once_example :
    Gives (encrypt_email lib (of alice) "hi" 1 ("bob" ∷ []) []) start (λ x t.
      (u : World)
      → Kept view t u
      → Gives (decrypt_email lib (of bob) (received 1 none x)) u (λ d v.
        (d.body ≡ "hi")
        × (decrypt_email lib (of bob) (received 1 none x) v ≡ (err key_exhausted, v))))
decrypt_email-once_example =
    decrypt_email-once lib alice_keeps bob_keeps "hi" "bob" [] none start (omega arith, omega arith)
      start-IsReady
