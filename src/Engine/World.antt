-- ===== src/Engine/World.antt =====
-- Devices that share a Key Manager: the engine's services, made of the client of backend/qkd_client, the
-- handlers of the Key Manager and liboqs. The database (backend/storage) and the key pairs that the key
-- store holds stay as they are.
pub mod Laws
pub mod EndToEnd
use qu_mail.Result.{ok, err, type_error}
use qu_mail.Dict.{Dict, lookup}
use qu_mail.Prelude.{
  ℕ, zero, suc, String, Bool, List, ◌≡◌, [], Bytes, ◌+◌, Option, some, if◌then◌else◌, str_eq, none,
}
use qu_mail.Prelude.Int.{pos}
use qu_mail.Crypto.Otp.{IsBytes}
use qu_mail.Crypto.Primitives.{Oqs}
use qu_mail.Crypto.Pqc.{
  pqc_encrypt, pqc_decrypt, Caches, generate_dilithium_keypair, dilithium_sign, dilithium_verify,
}
use qu_mail.KeyManager.KeyEntry.{KeyEntry, Codec}
use qu_mail.KeyManager.Pool.{Pool, RandomSource}
use qu_mail.KeyManager.Pool.Invariant.{IsValid}
use qu_mail.KeyManager.Api.{handle_get, handle_consume, request_key as handle_request}
use qu_mail.QkdClient.{ClientKey, request_key, get_key, consume_key}
use qu_mail.QkdClient.EndToEnd.{delivered, key_data}
use qu_mail.Engine.Action.{Action}
use qu_mail.Engine.Services.{Services, PublicKey, text_key, raw_key}
use qu_mail.Storage.{Json, Database, get_known_recipient}

-- The Key Manager, and the number of draws and requests so far.
pub record World : Type 0 where
  pub pool : Pool
  pub calls : ℕ

-- What a call draws from outside, by its number: random bytes, a UUID that is new, and the time.
pub record Supply : Type 0 where
  pub source : ℕ → RandomSource
  pub uuid : ℕ → String
  pub now : ℕ → ℕ
  pub source_bytes : (i n : ℕ) → IsBytes ((source i).some_bytes n)
  pub uuid_fresh : (i j : ℕ) → uuid i ≡ uuid j → i ≡ j

pub record Device : Type 0 where
  -- its database, with the JSON that the database is written and read with
  pub json : Json (List ℕ)
  pub database : Database
  -- the seeds of its key pairs
  pub kem_seed : Bytes
  pub signature_seed : Bytes

-- Where liboqs is installed, the caches stay empty and the digests of the simulation are not used.
abbrev pub no_caches : Caches
no_caches = record { kyber = []; dilithium = [] }

abbrev pub no_digest : Bytes → Bytes
no_digest bs = bs

abbrev pub no_mac : Bytes → Bytes → Bytes
no_mac k m = m

module _ (codec : Codec) (is_time : String → Bool) (supply : Supply) (oqs : Oqs) where
  abbrev pub count_call : World → Pool → World
  count_call w p = record { pool = p; calls = w.calls + 1 }

  abbrev pub bytes_at : ℕ → ℕ → Bytes
  bytes_at i n = (supply.source i).some_bytes n

  abbrev pub world_request : String → ℕ → String → Action World ClientKey
  world_request peer n kind w =
      let (reply, p) =
        handle_request codec (supply.source w.calls) (supply.uuid w.calls) (supply.now w.calls) peer
          (pos n) kind "default" w.pool in
      (request_key codec.b64decode is_time peer kind (delivered key_data reply), count_call w p)

  abbrev pub world_get : String → Action World ClientKey
  world_get k w =
      let (reply, p) = handle_get codec k w.pool in
      (get_key codec.b64decode is_time (delivered key_data reply), record w { pool = p })

  abbrev pub world_consume : String → Action World Bool
  world_consume k w =
      let (reply, p) =
        handle_consume codec (supply.now w.calls) (supply.now (w.calls + 1)) k w.pool in
      (consume_key (delivered (λ x. x) reply), record w { pool = p })

  -- The encapsulated key and the shared secret that `pqc_encrypt` gives with the plaintext.
  pub encapsulate : ℕ → Option Bytes → Bytes × Bytes
  encapsulate i public_key =
      let drawn = bytes_at i 32 in
      let (sent, caches) =
        pqc_encrypt no_digest no_mac (some oqs) (drawn, drawn) (drawn, drawn) [] public_key
          no_caches in
      (sent.1, sent.2)

  -- `encap_secret` of liboqs takes bytes alone: a text is a TypeError.
  abbrev pub world_encapsulate : Option PublicKey → Action World (Bytes × Bytes)
  world_encapsulate none w = (ok (encapsulate w.calls none), count_call w w.pool)
  world_encapsulate (some (raw_key k)) w = (ok (encapsulate w.calls (some k)), count_call w w.pool)
  world_encapsulate (some (text_key t)) w = (err type_error, w)

  abbrev pub device_services : Device → Services World
  device_services d = record {
    urandom = λ n w. (ok (bytes_at w.calls n), count_call w w.pool);
    request_key = world_request;
    get_key = world_get;
    consume_key = world_consume;
    get_known_recipient = λ r w. (get_known_recipient d.json r d.database, w);
    get_public_key = λ kind w. (ok (oqs.kem_keypair d.kem_seed).0, w);
    get_private_key = λ kind w. (
      ok (
          if str_eq kind "pqc"
          then (oqs.kem_keypair d.kem_seed).1
          else (oqs.signature_keypair d.signature_seed).1),
      w,
    );
    pqc_encrypt = world_encapsulate;
    pqc_decrypt = λ c sk w. (ok (pqc_decrypt no_digest no_mac (some oqs) c sk no_caches), w);
    generate_dilithium_keypair = λ w. (
      ok (generate_dilithium_keypair no_digest no_mac (some oqs) (bytes_at w.calls 32) []),
      count_call w w.pool,
    );
    dilithium_sign = λ m k w. (
      ok ((dilithium_sign no_digest no_mac (some oqs) (bytes_at w.calls 32) m k no_caches).0),
      count_call w w.pool,
    );
    dilithium_verify = λ m x k w. (ok (dilithium_verify no_digest no_mac (some oqs) m x k), w);
  }
