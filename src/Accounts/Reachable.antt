-- ===== src/Accounts/Reachable.antt =====
-- The states that backend/accounts/manager.py can reach, and a proof about them.
use qu_mail.Prelude.{
  ℕ, String, arith, ◌≡◌, Option, none, [], ◌⊎◌, str_eq, false, some, true, refl, Option-cases, inl,
  inr, eq_refl, eq_iff,
}
use qu_mail.Dict.{lookup}
use qu_mail.Accounts.{
  EmailAccount, AccountManager, no_accounts, get_account, get_active_account, add_account,
  set_active_account, remove_account, update_tokens, Option, none, [], str_eq, false, some, true,
}
use qu_mail.Accounts.Active.{
  IsConsistent, set_active-IsConsistent, add_account-IsConsistent, remove_account-IsConsistent,
  update_tokens-IsConsistent,
}

-- The manager after any calls. A UUID is not empty and is new.
pub data Reachable : AccountManager → Type 0 where
  starts : Reachable no_accounts
  adds :
      (k : String) (now : ℕ) (email provider : String) (display access refresh : Option String)
      (m : AccountManager)
      → lookup k m.accounts ≡ none
      → str_eq k "" ≡ false
      → Reachable m
      → Reachable (add_account k now email provider display access refresh m).1
  selects : (k : String) (m : AccountManager) → Reachable m → Reachable (set_active_account k m).1
  removes : (k : String) (m : AccountManager) → Reachable m → Reachable (remove_account k m).1
  updates :
      (k access : String) (refresh : Option String) (m : AccountManager)
      → Reachable m
      → Reachable (update_tokens k access refresh m).1

Reachable-IsConsistent : {m : AccountManager} → Reachable m → IsConsistent m
unfolding lookup
Reachable-IsConsistent starts = record {
  marked = λ k e h. ground arith;
  chosen = λ k e. ground (arith, e);
  empty = λ e. refl;
  spelled = λ k h. ground arith;
}
Reachable-IsConsistent (adds k now email provider display access refresh m fresh ne r) =
    add_account-IsConsistent k now email provider display access refresh m fresh ne
      (Reachable-IsConsistent r)
Reachable-IsConsistent (selects k m r) = set_active-IsConsistent k m (Reachable-IsConsistent r)
Reachable-IsConsistent (removes k m r) = remove_account-IsConsistent k m (Reachable-IsConsistent r)
Reachable-IsConsistent (updates k access refresh m r) =
    update_tokens-IsConsistent k access refresh m (Reachable-IsConsistent r)

-- Exactly one account is active. Whatever calls were made, with a new UUID that is not empty for each new
-- account, there are no accounts, or `get_active_account` gives an account that is marked as active and
-- every account that is marked as active is that one.
pub one_active_account :
    (m : AccountManager)
    → Reachable m
    → (m.accounts ≡ [])
      ⊎ ((a : EmailAccount) × (get_active_account m ≡ some a)
          × (a.is_active ≡ true)
          × ((k : String) (e : EmailAccount)
              → get_account k m ≡ some e
              → e.is_active ≡ true
              → e ≡ a))
unfolding get_active_account get_account
one_active_account m r =
    let c = Reachable-IsConsistent r in
    elim (Option-cases m.active_account_id) [
      | inl nobody ↦ inl (c.empty nobody)
      | inr (k, active) ↦ elim (Option-cases (lookup k m.accounts)) [
        | inl missing ↦ absurd (ground (arith, c.chosen k active))
        | inr (a, held) ↦ inr (
          a,
          rw active (rw (c.spelled k (c.chosen k active)) held),
          ground (arith, c.marked k a held, eq_refl k),
          λ j e h marked. ground (arith, c.marked j e h, eq_iff k j, held),
        )
      ]
    ]
