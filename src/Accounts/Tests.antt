-- ===== src/Accounts/Tests.antt =====
-- Witnesses for the accounts.
use qu_mail.Prelude.{String, ◌≡◌, none, [], refl, ◌⊎◌, some, true}
use qu_mail.Dict.{lookup, insert}
use qu_mail.Accounts.{
  EmailAccount, AccountManager, no_accounts, get_account, get_active_account, add_account,
  remove_account, none, [], some, true,
}
use qu_mail.Accounts.Reachable.{Reachable, starts, adds, removes, one_active_account}

abbrev one_account : AccountManager
one_account = (add_account "u" 5 "a" "gmail" none none none no_accounts).1

abbrev two_accounts : AccountManager
two_accounts = (add_account "v" 6 "b" "gmail" none none none one_account).1

two_accounts-Reachable : Reachable two_accounts
unfolding add_account lookup insert
two_accounts-Reachable =
    adds "v" 6 "b" "gmail" none none none one_account refl refl
      (adds "u" 5 "a" "gmail" none none none no_accounts refl refl starts)

one_active_account_example :
    ((remove_account "u" two_accounts).1.accounts ≡ [])
    ⊎ ((a : EmailAccount) × (get_active_account (remove_account "u" two_accounts).1 ≡ some a)
        × (a.is_active ≡ true)
        × ((k : String) (e : EmailAccount)
            → get_account k (remove_account "u" two_accounts).1 ≡ some e
            → e.is_active ≡ true
            → e ≡ a))
one_active_account_example =
    one_active_account (remove_account "u" two_accounts).1
      (removes "u" two_accounts two_accounts-Reachable)
