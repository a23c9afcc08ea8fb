-- ===== src/KeyManager/KeyEntry.antt =====
-- `KeyEntry` of key_manager/core/key_pool.py and its dict form. Times are microseconds. base64 and the
-- ISO text of a time are the parameter `Codec`.
use qu_mail.Prelude.{
  ℕ, String, ◌≡◌, refl, Bool, false, Option, none, some, Bytes, str_eq, if◌then◌else◌,
}
use qu_mail.Result.{Result, ok, err, key_error, value_error, ◌>>=◌}

pub record KeyEntry : Type 0 where
  pub key_id : String
  pub key_material : Bytes
  pub peer_id : String
  pub key_type : String
  pub created_at : ℕ
  pub user_id : String
  pub expires_at : Option ℕ
  pub consumed : Bool
  pub consumed_at : Option ℕ

-- `base64.b64encode/b64decode` and `datetime.isoformat/fromisoformat`; `none` is a ValueError. An ISO
-- text is never empty.
pub record Codec : Type 0 where
  pub b64encode : Bytes → String
  pub b64decode : String → Option Bytes
  pub isoformat : ℕ → String
  pub fromisoformat : String → Option ℕ
  pub decode-encode : (bs : Bytes) → b64decode (b64encode bs) ≡ some bs
  pub from-iso : (t : ℕ) → fromisoformat (isoformat t) ≡ some t
  pub iso_nonempty : (t : ℕ) → str_eq (isoformat t) "" ≡ false

-- The dict of a key; an absent key of the dict is `none`, and a JSON null is `none` inside `some`.
pub record KeyDict : Type 0 where
  pub key_id : Option String
  pub key_material_b64 : Option String
  pub peer_id : Option String
  pub key_type : Option String
  pub user_id : Option String
  pub created_at : Option String
  pub expires_at : Option (Option String)
  pub consumed : Option Bool
  pub consumed_at : Option (Option String)

-- `data[k]`
abbrev required {ℓ} : {A : Type ℓ} → Option A → Result A
required none = err key_error
required (some a) = ok a

-- `data.get(k, default)`
abbrev get_or {ℓ} : {A : Type ℓ} → Option A → A → A
get_or none d = d
get_or (some a) d = a

abbrev pub or_value_error {ℓ} : {A : Type ℓ} → Option A → Result A
or_value_error none = err value_error
or_value_error (some a) = ok a

module _ (codec : Codec) where
  -- `t.isoformat() if t else None`
  abbrev pub iso_or_none : Option ℕ → Option String
  iso_or_none none = none
  iso_or_none (some t) = some (codec.isoformat t)

  -- `datetime.fromisoformat(x) if x else None`, on `data.get(k)`
  abbrev pub time_or_none : Option (Option String) → Result (Option ℕ)
  time_or_none none = ok none
  time_or_none (some none) = ok none
  time_or_none (some (some s)) =
      if str_eq s "" then ok none else do t ← or_value_error (codec.fromisoformat s); ok (some t)

  pub to_dict : KeyEntry → KeyDict
  to_dict e = record {
    key_id = some e.key_id;
    key_material_b64 = some (codec.b64encode e.key_material);
    peer_id = some e.peer_id;
    key_type = some e.key_type;
    user_id = some e.user_id;
    created_at = some (codec.isoformat e.created_at);
    expires_at = some (iso_or_none e.expires_at);
    consumed = some e.consumed;
    consumed_at = some (iso_or_none e.consumed_at);
  }

  pub from_dict : KeyDict → Result KeyEntry
  from_dict d = do
    key_id ← required d.key_id
    b64 ← required d.key_material_b64
    key_material ← or_value_error (codec.b64decode b64)
    peer_id ← required d.peer_id
    key_type ← required d.key_type
    created ← required d.created_at
    created_at ← or_value_error (codec.fromisoformat created)
    expires_at ← time_or_none d.expires_at
    consumed_at ← time_or_none d.consumed_at
    ok (record {
      key_id = key_id;
      key_material = key_material;
      peer_id = peer_id;
      key_type = key_type;
      created_at = created_at;
      user_id = get_or d.user_id "default";
      expires_at = expires_at;
      consumed = get_or d.consumed false;
      consumed_at = consumed_at;
    })

  time_round_trip : (t : Option ℕ) → time_or_none (some (iso_or_none t)) ≡ ok t
  time_round_trip none = refl
  time_round_trip (some t) = rw (codec.iso_nonempty t) (rw (codec.from-iso t))

  -- A key that is written as a dict is read back the same.
  pub from_dict-to_dict : (e : KeyEntry) → from_dict (to_dict e) ≡ ok e
  unfolding from_dict to_dict
  from_dict-to_dict e = rw (codec.decode-encode e.key_material) (
      rw (codec.from-iso e.created_at)
        (rw (time_round_trip e.expires_at) (rw (time_round_trip e.consumed_at))))
