-- ===== src/Storage/Recipients.antt =====
-- What backend/storage/database.py remembers of a recipient.
use qu_mail.Prelude.{
  ℕ, Option, List, String, some, str_eq, ◌≡◌, true, false, none, refl, eq_refl, Option-cases, inl,
  inr, ap₂, sym,
}
use qu_mail.Dict.{lookup-insert, lookup}
use qu_mail.Result.{ok}
use qu_mail.Storage.Laws.{coalesce-none}
use qu_mail.Storage.{
  RecipientRow, Database, coalesce, upsert, Json, fingerprint, levels_or_plain,
  store_known_recipient, get_known_recipient,
}

-- The key of a recipient that is stored, if any.
abbrev pub key_in : Option RecipientRow → Option String
key_in none = none
key_in (some row) = row.public_key

abbrev pub print_in : Option RecipientRow → Option String
print_in none = none
print_in (some row) = row.public_key_fingerprint

module _ (json : Json (List ℕ)) (digest : String → String) (now : ℕ) (email : String)
    (public_key : Option String) (levels : Option (List ℕ)) (db : Database) where
  -- What is read back of a recipient that was just stored: the levels are those given, and a key that was
  -- known before stays where none is given.
  pub get-store_known_recipient :
      get_known_recipient json email
        (store_known_recipient json digest now email public_key levels db)
      ≡ ok (
          some (record {
            email = email;
            is_qumail_user = true;
            public_key = coalesce public_key (key_in (lookup email db.known_recipients));
            public_key_fingerprint =
                coalesce
                  (fingerprint digest public_key)
                  (print_in (lookup email db.known_recipients));
            supported_levels = levels_or_plain levels;
            last_seen = now;
          }))
  unfolding get_known_recipient store_known_recipient upsert
  get-store_known_recipient = rw lookup-insert (
      rw eq_refl (elim (Option-cases (lookup email db.known_recipients)) [
        | inl missing ↦ rw missing (
            rw json.loads-dumps (
              ap₂
                (λ k f. ok (
                  some (record {
                    email = email;
                    is_qumail_user = true;
                    public_key = k;
                    public_key_fingerprint = f;
                    supported_levels = levels_or_plain levels;
                    last_seen = now;
                  })))
                (sym (coalesce-none public_key))
                (sym (coalesce-none (fingerprint digest public_key)))))
        | inr (row, present) ↦ rw present (rw json.loads-dumps refl)
      ]))

  pub get-store_other :
      (other : String)
      → str_eq email other ≡ false
      → get_known_recipient json other
          (store_known_recipient json digest now email public_key levels db)
        ≡ get_known_recipient json other db
  unfolding get_known_recipient store_known_recipient upsert
  get-store_other other differ = rw lookup-insert (rw differ refl)
