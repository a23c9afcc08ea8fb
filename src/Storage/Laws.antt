-- ===== src/Storage/Laws.antt =====
-- What the functions of backend/storage/database.py promise of each other.
use qu_mail.Prelude.{
  ℕ, Option, String, some, ◌≡◌, none, str_eq, ◌+◌, Option-cases, false, ◌<◌, inl, eq_refl, true,
  inr, ◌≤◌, refl, ap, ◌∙◌, [], ◌∷◌, sym, lt→ltb, le→ltb, Bool-cases, arith, subst, eq_iff,
}
use qu_mail.Dict.{Dict, lookup-nil, lookup, insert, erase, lookup-insert, lookup-erase}
use qu_mail.Result.{ok}
use qu_mail.Storage.{
  or_row, SettingRow, Database, coalesce, upsert, store_oauth_tokens, Tokens, get_oauth_tokens,
  Json, take_state, add_state, read_setting, Setting, parsed, read_settings, get_settings,
  save_setting, save_oauth_state, get_and_delete_oauth_state, ten_minutes,
}

pub coalesce-none : (o : Option String) → coalesce o none ≡ o
coalesce-none none = refl
coalesce-none (some s) = refl

abbrev pub refresh_of : Option Tokens → Option String
refresh_of none = none
refresh_of (some t) = t.refresh_token

-- After tokens are stored for an account, `get_oauth_tokens` gives them, with the new time of expiry;
-- where none comes with them the refresh token that was stored before stays. The tokens of every other
-- account are what they were.
pub get_oauth_tokens-store_oauth_tokens :
    (now : ℕ) (email other access : String) (refresh : Option String) (expires_in : ℕ)
    (provider : String) (db : Database)
    → (let after = store_oauth_tokens now email access refresh expires_in provider db in
        (get_oauth_tokens email after
          ≡ some (record {
            email = email;
            access_token = access;
            refresh_token = coalesce refresh (refresh_of (get_oauth_tokens email db));
            expires_at = now + expires_in;
          }))
        × (str_eq email other ≡ false → get_oauth_tokens other after ≡ get_oauth_tokens other db))
unfolding get_oauth_tokens store_oauth_tokens upsert
get_oauth_tokens-store_oauth_tokens now email other access refresh expires_in provider db = (
  rw lookup-insert (
      rw eq_refl (elim (Option-cases (lookup email db.accounts)) [
        | inl missing ↦ rw missing (
            ap
              (λ r. some (record {
                email = email;
                access_token = access;
                refresh_token = r;
                expires_at = now + expires_in;
              }))
              (sym (coalesce-none refresh)))
        | inr (row, present) ↦ rw present refl
      ])),
  (λ differ. rw lookup-insert (rw differ refl)),
)

-- The three answers about a state.
state_missing :
    (now : ℕ) (state : String) (db : Database)
    → lookup state db.oauth_states ≡ none
    → get_and_delete_oauth_state now state db ≡ (false, db)
unfolding get_and_delete_oauth_state
state_missing now state db missing = ap (take_state now state db) missing

state_fresh :
    (now saved : ℕ) (state : String) (db : Database)
    → lookup state db.oauth_states ≡ some saved
    → now < saved + ten_minutes
    → get_and_delete_oauth_state now state db
      ≡ (true, record db { oauth_states = erase state db.oauth_states })
unfolding get_and_delete_oauth_state
state_fresh now saved state db found early =
    ap (take_state now state db) found ∙ rw (lt→ltb _ _ early) refl

state_stale :
    (now saved : ℕ) (state : String) (db : Database)
    → lookup state db.oauth_states ≡ some saved
    → saved + ten_minutes ≤ now
    → get_and_delete_oauth_state now state db ≡ (false, db)
unfolding get_and_delete_oauth_state
state_stale now saved state db found late =
    ap (take_state now state db) found ∙ rw (le→ltb _ _ late) refl

-- An OAuth state is accepted once: a state that was just saved is accepted within ten minutes, but not
-- later, and not a second time whenever that is tried; a state that was never saved is not accepted.
pub oauth_state_once :
    (saved now later : ℕ) (state : String) (db : Database)
    → lookup state db.oauth_states ≡ none
    → (after : Database) × (save_oauth_state saved state db ≡ ok after)
      × (now < saved + ten_minutes → (get_and_delete_oauth_state now state after).0 ≡ true)
      × (saved + ten_minutes ≤ now → (get_and_delete_oauth_state now state after).0 ≡ false)
      × (now < saved + ten_minutes
          → (get_and_delete_oauth_state later state
              (get_and_delete_oauth_state now state after).1).0
            ≡ false)
      × ((get_and_delete_oauth_state later state db).0 ≡ false)
unfolding save_oauth_state
oauth_state_once saved now later state db unknown =
    let after : Database = record db { oauth_states = insert state saved db.oauth_states } in
    let found : lookup state after.oauth_states ≡ some saved =
      lookup-insert state state saved db.oauth_states ∙ rw eq_refl refl in
    let gone : lookup state (erase state after.oauth_states) ≡ none =
      lookup-erase state state after.oauth_states ∙ rw eq_refl refl in
    (
      after,
      ap (add_state saved state db) unknown,
      (λ early. ap (λ x. x.0) (state_fresh now saved state after found early)),
      (λ late. ap (λ x. x.0) (state_stale now saved state after found late)),
      (λ early.
          ap (λ x. (get_and_delete_oauth_state later state x.1).0)
            (state_fresh now saved state after found early)
          ∙ ap (λ x. x.0) (state_missing later state _ gone)),
      ap (λ x. x.0) (state_missing later state db unknown),
    )

-- The rows of a table have different keys.
abbrev pub DistinctKeys : Dict SettingRow → Type 0
DistinctKeys [] = Unit
DistinctKeys ((k, row) ∷ d) = (lookup k d ≡ none) × DistinctKeys d

or_row-same : (new : SettingRow) (o : Option SettingRow) → or_row new (λ row. new) o ≡ new
or_row-same new none = refl
or_row-same new (some row) = refl

insert-DistinctKeys :
    (k : String) (row : SettingRow) (d : Dict SettingRow)
    → DistinctKeys d
    → DistinctKeys (insert k row d)
unfolding insert
insert-DistinctKeys k row [] h = (lookup-nil k, tt)
insert-DistinctKeys k row ((j, old) ∷ d) (new, h) = elim (Bool-cases (str_eq j k)) [
  | inl same ↦ rw same (new, h)
  | inr other ↦ rw other (
    lookup-insert k j row d ∙ ground (arith, eq_iff k j, eq_iff j k, other, new),
    insert-DistinctKeys k row d h,
  )
]

module _ {J : Type 0} (json : Json J) where
  abbrev found_or : Option SettingRow → Option (Setting J) → Option (Setting J)
  found_or none o = o
  found_or (some row) o = some (read_setting json row.value)

  lookup-read_settings :
      (k : String) (d : Dict SettingRow) (found : Dict (Setting J))
      → DistinctKeys d
      → lookup k (read_settings json d found) ≡ found_or (lookup k d) (lookup k found)
  unfolding read_settings
  lookup-read_settings k [] found h = rw (lookup-nil {V = SettingRow}) refl
  lookup-read_settings k ((j, row) ∷ d) found (new, h) =
      lookup-read_settings k d (insert j (read_setting json row.value) found) h ∙ behind
    where
      behind :
          found_or (lookup k d) (lookup k (insert j (read_setting json row.value) found))
          ≡ found_or (lookup k ((j, row) ∷ d)) (lookup k found)
      behind = elim (Bool-cases (str_eq j k)) [
        | inl same ↦
            (let absent : lookup k d ≡ none =
                subst (λ i. lookup i d ≡ none) ((eq_iff j k).0 same) new in
              rw lookup-insert (rw same (rw absent (unfold lookup in rw same refl))))
        | inr other ↦ rw lookup-insert (rw other (unfold lookup in rw other refl))
      ]

  -- A setting that is saved is read back, whatever was there, and the others stay. (`key` is the primary
  -- key of the table.)
  pub get_settings-save_setting :
      (now : ℕ) (key other : String) (value : J) (db : Database)
      → DistinctKeys db.settings
      → (lookup key (get_settings json (save_setting json now key value db)) ≡ some (parsed value))
        × (str_eq key other ≡ false
            → lookup other (get_settings json (save_setting json now key value db))
              ≡ lookup other (get_settings json db))
        × DistinctKeys (save_setting json now key value db).settings
  unfolding get_settings save_setting upsert
  get_settings-save_setting now key other value db h =
      let new : SettingRow = record { value = json.dumps value; updated_at = now } in
      let written = insert-DistinctKeys key new db.settings h in
      rw (or_row-same new (lookup key db.settings)) (
        lookup-read_settings key (insert key new db.settings) [] written
            ∙ rw lookup-insert (rw eq_refl (rw json.loads-dumps refl)),
        (λ differ.
            lookup-read_settings other (insert key new db.settings) [] written
            ∙ rw lookup-insert (rw differ (sym (lookup-read_settings other db.settings [] h)))),
        written,
      )
