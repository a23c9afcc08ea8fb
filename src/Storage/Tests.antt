-- ===== src/Storage/Tests.antt =====
-- Witnesses for the tables.
use qu_mail.Prelude.{none, ◌≡◌, some, ◌<◌, str_eq, ◌+◌, false, true, ◌≤◌}
use qu_mail.Dict.{lookup-nil}
use qu_mail.Result.{ok}
use qu_mail.Storage.{
  Database, empty_database, store_oauth_tokens, get_oauth_tokens, save_oauth_state,
  get_and_delete_oauth_state, ten_minutes, coalesce,
}
use qu_mail.Storage.Laws.{get_oauth_tokens-store_oauth_tokens, oauth_state_once, refresh_of}

get_oauth_tokens-store_oauth_tokens_example :
    (let after = store_oauth_tokens 5 "a@x" "t" none 3600 "gmail" empty_database in
      (get_oauth_tokens "a@x" after
        ≡ some (record {
          email = "a@x";
          access_token = "t";
          refresh_token = coalesce none (refresh_of (get_oauth_tokens "a@x" empty_database));
          expires_at = 3605;
        }))
      × (str_eq "a@x" "b@x" ≡ false
          → get_oauth_tokens "b@x" after ≡ get_oauth_tokens "b@x" empty_database))
get_oauth_tokens-store_oauth_tokens_example =
    get_oauth_tokens-store_oauth_tokens 5 "a@x" "b@x" "t" none 3600 "gmail" empty_database

oauth_state_once_example :
    (after : Database) × (save_oauth_state 5 "s" empty_database ≡ ok after)
    × (10 < 5 + ten_minutes → (get_and_delete_oauth_state 10 "s" after).0 ≡ true)
    × (5 + ten_minutes ≤ 10 → (get_and_delete_oauth_state 10 "s" after).0 ≡ false)
    × (10 < 5 + ten_minutes
        → (get_and_delete_oauth_state 20 "s" (get_and_delete_oauth_state 10 "s" after).1).0 ≡ false)
    × ((get_and_delete_oauth_state 20 "s" empty_database).0 ≡ false)
oauth_state_once_example = oauth_state_once 5 10 20 "s" empty_database (lookup-nil "s")
