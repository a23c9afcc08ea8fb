-- ===== src/Accounts.antt =====
-- `AccountManager` of backend/accounts/manager.py. The UUID of a new account and the time are arguments, and
-- log lines are left out.
pub mod Active
pub mod Reachable
mod Tests
use qu_mail.Prelude.{
  ℕ, String, Bool, List, Option, [], map, if◌then◌else◌, none, ◌∷◌, some, length, false, true,
  str_eq, ◌==◌,
}
use qu_mail.Dict.{Dict, lookup, insert, erase, contains}

pub record EmailAccount : Type 0 where
  pub id : String
  pub email : String
  pub provider : String
  pub display_name : Option String
  pub is_active : Bool
  pub connected_at : Option ℕ
  pub access_token : Option String
  pub refresh_token : Option String

pub record AccountManager : Type 0 where
  pub accounts : Dict EmailAccount
  pub active_account_id : Option String

-- `__init__`
abbrev pub no_accounts : AccountManager
no_accounts = record { accounts = []; active_account_id = none }

unfoldable pub list_accounts : AccountManager → List EmailAccount
list_accounts m = map (λ (x : String × EmailAccount). x.1) m.accounts

pub get_account : String → AccountManager → Option EmailAccount
get_account account_id m = lookup account_id m.accounts

-- `if self._active_account_id: …`, which an empty id fails
abbrev pub active_entry : Option String → Dict EmailAccount → Option EmailAccount
active_entry none d = none
active_entry (some k) d = if str_eq k "" then none else lookup k d

pub get_active_account : AccountManager → Option EmailAccount
get_active_account m = active_entry m.active_account_id m.accounts

-- `display_name or email`
abbrev pub name_or_email : Option String → String → String
name_or_email none email = email
name_or_email (some n) email = if str_eq n "" then email else n

pub add_account :
    String
    → ℕ
    → String
    → String
    → Option String
    → Option String
    → Option String
    → AccountManager
    → EmailAccount × AccountManager
add_account account_id now email provider display_name access_token refresh_token m =
    let first = length m.accounts == 0 in
    let account : EmailAccount = record {
      id = account_id;
      email = email;
      provider = provider;
      display_name = some (name_or_email display_name email);
      is_active = first;
      connected_at = some now;
      access_token = access_token;
      refresh_token = refresh_token;
    } in
    (
      account,
      record {
        accounts = insert account_id account m.accounts;
        active_account_id = if first then some account_id else m.active_account_id;
      },
    )

-- `for acc in self._accounts.values(): acc.is_active = False`
abbrev pub deactivate_all : Dict EmailAccount → Dict EmailAccount
deactivate_all [] = []
deactivate_all ((k, e) ∷ d) = (k, record e { is_active = false }) ∷ deactivate_all d

-- `self._accounts[account_id].is_active = True`
abbrev pub mark_active : String → Dict EmailAccount → Option EmailAccount → Dict EmailAccount
mark_active k d none = d
mark_active k d (some e) = insert k (record e { is_active = true }) d

abbrev pub activate : String → Dict EmailAccount → Dict EmailAccount
activate k d = mark_active k d (lookup k d)

pub set_active_account : String → AccountManager → Bool × AccountManager
set_active_account account_id m =
    if contains account_id m.accounts
    then (
      true,
      record {
        accounts = activate account_id (deactivate_all m.accounts);
        active_account_id = some account_id;
      },
    )
    else (false, m)

-- The first account that is left becomes the active one.
abbrev pub activate_first : Dict EmailAccount → AccountManager
activate_first [] = record { accounts = []; active_account_id = none }
activate_first ((k, e) ∷ d) = record {
  accounts = activate k ((k, e) ∷ d);
  active_account_id = some k;
}

abbrev pub is_id : Option String → String → Bool
is_id none k = false
is_id (some j) k = str_eq j k

pub remove_account : String → AccountManager → Bool × AccountManager
remove_account account_id m =
    let left = erase account_id m.accounts in
    if contains account_id m.accounts
    then (
      true,
      if is_id m.active_account_id account_id
          then activate_first left
          else record m { accounts = left },
    )
    else (false, m)

-- `if refresh_token: …`
abbrev pub or_old : Option String → Option String → Option String
or_old none old = old
or_old (some t) old = if str_eq t "" then old else some t

abbrev pub refreshed :
    String → String → Option String → AccountManager → Option EmailAccount → Bool × AccountManager
refreshed account_id access_token refresh_token m none = (false, m)
refreshed account_id access_token refresh_token m (some e) = (
  true,
  record m {
    accounts =
        insert account_id
          (record e {
            access_token = some access_token;
            refresh_token = or_old refresh_token e.refresh_token;
          })
          m.accounts;
  },
)

pub update_tokens : String → String → Option String → AccountManager → Bool × AccountManager
update_tokens account_id access_token refresh_token m =
    refreshed account_id access_token refresh_token m (lookup account_id m.accounts)

unfoldable pub get_account_by_email : String → Dict EmailAccount → Option EmailAccount
get_account_by_email email [] = none
get_account_by_email email ((k, e) ∷ d) =
    let rest = get_account_by_email email d in if str_eq e.email email then some e else rest
