-- ===== src/Engine/World/Laws.antt =====
-- Proofs that devices over the modelled Key Manager and client keep what the engine relies on.
use qu_mail.Result.{err, key_exhausted}
use qu_mail.Dict.{lookup, insert, lookup-insert}
use qu_mail.Prelude.{
  ℕ, String, Bool, ◌≤◌, arith, Bytes, ◌≡◌, true, length, none, ◌<◌, ap, some, ◌+◌, false, eq_iff,
  ◌∙◌, eq_refl, ap₂, refl,
}
use qu_mail.Crypto.Otp.{IsBytes}
use qu_mail.Crypto.Primitives.{Oqs}
use qu_mail.KeyManager.KeyEntry.{KeyEntry, Codec}
use qu_mail.KeyManager.Pool.{Pool}
use qu_mail.KeyManager.Pool.Invariant.{IsValid}
use qu_mail.KeyManager.Pool.PadBytes.{allocated_lem}
use qu_mail.KeyManager.Api.Laws.{get_held_lem, consumed_answer, request_lem, handle_consume-once}
use qu_mail.QkdClient.{request_key, get_key, consume_key}
use qu_mail.QkdClient.EndToEnd.{delivered, key_data, client_key, request_answered, get_answered}
use qu_mail.Engine.Action.{Gives}
use qu_mail.Engine.Guarantees.{View, Kept, kept_refl, Guarantees}
use qu_mail.Engine.World.{
  World, Supply, Device, device_services, count_call, world_request, world_get, world_consume,
  Bytes, lookup, some,
}

module _ (codec : Codec) (is_time : String → Bool) (supply : Supply) (oqs : Oqs) where
  -- The pool is valid and has bytes; no UUID still to come is in it.
  pub record IsReady (w : World) : Type 0 where
    pub valid : IsValid w.pool
    pub otp_bytes : IsBytes w.pool.otp_pool
    pub unused : (i : ℕ) → w.calls ≤ i → lookup (supply.uuid i) w.pool.allocated_keys ≡ none

  pub record IsHeld (k : String) (m : Bytes) (w : World) : Type 0 where
    pub entry : KeyEntry
    pub found : lookup k w.pool.allocated_keys ≡ some entry
    pub fresh : entry.consumed ≡ false
    pub material : entry.key_material ≡ m

  abbrev pub world_view : View World
  world_view = record { Ready = IsReady; Holds = IsHeld }

  -- A call that leaves the pool alone.
  pub counted :
      (w : World) → IsReady w → Kept world_view w (count_call codec is_time supply oqs w w.pool)
  counted w r = record {
    ready = record {
      valid = r.valid;
      otp_bytes = r.otp_bytes;
      unused = λ i h. r.unused i (omega arith);
    };
    held = λ h. record { entry = h.entry; found = h.found; fresh = h.fresh; material = h.material };
  }

  insert-IsHeld :
      (k : String) (m : Bytes) (w : World) (q : Pool) (i : ℕ) (e : KeyEntry)
      → IsReady w
      → q.allocated_keys ≡ insert (supply.uuid w.calls) e w.pool.allocated_keys
      → IsHeld k m w
      → IsHeld k m (record { pool = q; calls = i })
  insert-IsHeld k m w q i e r keys h = record {
    entry = h.entry;
    found = ground (
      arith,
      keys,
      lookup-insert (supply.uuid w.calls) k e w.pool.allocated_keys,
      eq_iff (supply.uuid w.calls) k,
      r.unused w.calls (omega arith),
      h.found,
    );
    fresh = h.fresh;
    material = h.material;
  }

  unused_in :
      (w : World) (q : Pool) (e : KeyEntry)
      → IsReady w
      → q.allocated_keys ≡ insert (supply.uuid w.calls) e w.pool.allocated_keys
      → (i : ℕ) → w.calls + 1 ≤ i
      → lookup (supply.uuid i) q.allocated_keys ≡ none
  unused_in w q e r keys i h = rw keys (
      rw lookup-insert (
        ground (
          arith,
          eq_iff (supply.uuid w.calls) (supply.uuid i),
          supply.uuid_fresh w.calls i,
          r.unused i (omega arith),
        )))

  module _ (timed : (t : ℕ) → is_time (codec.isoformat t) ≡ true) where
    pub requested_lem :
        (peer : String) (n : ℕ) (kind : String) (w : World)
        → IsReady w
        → 0 < n
        → n ≤ 1048576
        → Gives (world_request codec is_time supply oqs peer n kind) w (λ k t.
          (length k.key_material ≡ n)
          × IsBytes k.key_material
          × IsHeld k.key_id k.key_material t
          × Kept world_view w t)
    requested_lem peer n kind w r positive fits =
        let i = w.calls in
        let src = supply.source i in
        let (e, q, got, size, bytes, named, fresh, keys, valid, otp_bytes) =
          allocated_lem codec src (supply.source_bytes i) (supply.uuid i) (supply.now i) peer n kind
            "default" w.pool r.valid r.otp_bytes positive in
        let replied =
          request_lem codec src (supply.uuid i) (supply.now i) peer n kind "default" w.pool q e got
            positive fits in
        record {
          value = client_key codec is_time e peer kind;
          after = record { pool = q; calls = i + 1 };
          outcome =
              ap
                (λ x. (
                  request_key codec.b64decode is_time peer kind (delivered key_data x.0),
                  count_call codec is_time supply oqs w x.1,
                ))
                replied
              ∙ ap (λ x. (x, record { pool = q; calls = i + 1 }))
                  (request_answered codec is_time e peer kind (timed e.created_at));
          holds = (
            size,
            bytes,
            record {
              entry = e;
              found = rw (keys, named) (rw lookup-insert (rw eq_refl refl));
              fresh = fresh;
              material = refl;
            },
            record {
              ready = record {
                valid = valid;
                otp_bytes = otp_bytes;
                unused = unused_in w q e r keys;
              };
              held = λ h. insert-IsHeld _ _ w q (i + 1) e r keys h;
            },
          );
        }

    pub got_lem :
        (k : String) (m : Bytes) (w : World)
        → IsReady w
        → IsHeld k m w
        → Gives
            (world_get codec is_time supply oqs k)
            w
            (λ key t. (key.key_material ≡ m) × Kept world_view w t)
    got_lem k m w r h =
        let e = h.entry in
        record {
          value = client_key codec is_time e e.peer_id e.key_type;
          after = w;
          outcome =
              ap
                (λ x. (
                  get_key codec.b64decode is_time (delivered key_data x.0),
                  record w { pool = x.1 },
                ))
                (get_held_lem codec k e w.pool h.found h.fresh)
              ∙ ap (λ x. (x, w)) (get_answered codec is_time e);
          holds = (h.material, kept_refl r);
        }

    pub consumed_lem :
        (k : String) (m : Bytes) (w : World)
        → IsReady w
        → IsHeld k m w
        → Gives
            (world_consume codec is_time supply oqs k)
            w
            (λ _ t. world_get codec is_time supply oqs k t ≡ (err key_exhausted, t))
    unfolding consume_key get_key
    consumed_lem k m w r h =
        let now = supply.now w.calls in
        let answered = supply.now (w.calls + 1) in
        let replied = consumed_answer codec now answered k h.entry w.pool r.valid h.found h.fresh in
        let (q, left, gone, _) =
          handle_consume-once codec now answered now answered k w.pool r.valid replied in
        record {
          value = true;
          after = record { pool = q; calls = w.calls };
          outcome =
              ap₂ (λ x p. (consume_key (delivered (λ x. x) x), record w { pool = p })) replied left;
          holds =
              ap
                (λ x. (
                  get_key codec.b64decode is_time (delivered key_data x.0),
                  record { pool = x.1; calls = w.calls },
                ))
                gone;
        }

  -- A device has the guarantees of the engine's services, where the ISO text of a time is read as a
  -- time.
  unfoldable pub device-Guarantees :
      (d : Device)
      → ((t : ℕ) → is_time (codec.isoformat t) ≡ true)
      → Guarantees world_view (device_services codec is_time supply oqs d)
  device-Guarantees d timed = record {
    drawn = λ n w r. record {
      value = _;
      after = _;
      outcome = refl;
      holds = ((supply.source w.calls).length-some_bytes n, counted w r);
    };
    requested = requested_lem timed;
    got = got_lem timed;
    consumed = consumed_lem timed;
  }
