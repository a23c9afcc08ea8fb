-- ===== src/Accounts/Active.antt =====
-- Proofs about backend/accounts/manager.py: which account is active.
use qu_mail.Prelude.{
  ℕ, String, ◌≡◌, Bool-cases, Option, inr, Option-cases, some, true, none, [], ◌∷◌, arith, inl,
  str_eq, false, length, eq_iff, eq_refl, ◌==◌, refl,
}
use qu_mail.Dict.{Dict, lookup, insert, erase, contains, lookup-insert, lookup-erase}
use qu_mail.Accounts.{
  EmailAccount, AccountManager, add_account, deactivate_all, activate, set_active_account,
  activate_first, is_id, remove_account, update_tokens, Option, some, true, none, str_eq, false,
  length,
}

-- Every account is marked as active exactly if its id is the manager's active id; that id is of an
-- account; there is one unless there are no accounts; and no id is the empty text.
pub record IsConsistent (m : AccountManager) : Type 0 where
  pub marked :
      (k : String) (e : EmailAccount)
      → lookup k m.accounts ≡ some e
      → e.is_active ≡ is_id m.active_account_id k
  pub chosen : (k : String) → m.active_account_id ≡ some k → contains k m.accounts ≡ true
  pub empty : m.active_account_id ≡ none → m.accounts ≡ []
  pub spelled : (k : String) → contains k m.accounts ≡ true → str_eq k "" ≡ false

lookup-deactivate_all :
    (k : String) (d : Dict EmailAccount) (e : EmailAccount)
    → lookup k (deactivate_all d) ≡ some e
    → e.is_active ≡ false
unfolding lookup
lookup-deactivate_all k [] e h = ground arith
lookup-deactivate_all k ((j, x) ∷ d) e h = ground (arith, lookup-deactivate_all k d e)

contains-deactivate_all :
    (k : String) (d : Dict EmailAccount) → contains k (deactivate_all d) ≡ contains k d
unfolding lookup
contains-deactivate_all k [] = refl
contains-deactivate_all k ((j, x) ∷ d) = ground (arith, contains-deactivate_all k d)

-- Among inactive accounts, the one that is activated is the only active one.
inserted :
    (k : String) (x : EmailAccount) (d : Dict EmailAccount)
    → contains k d ≡ true
    → ((j : String) (e : EmailAccount)
        → lookup j d ≡ some e
        → str_eq k j ≡ false
        → e.is_active ≡ false)
    → ((j : String) → contains j d ≡ true → str_eq j "" ≡ false)
    → IsConsistent (record {
      accounts = insert k (record x { is_active = true }) d;
      active_account_id = some k;
    })
inserted k x d held idle spelled = record {
  marked = λ j e h. elim (Bool-cases (str_eq k j)) [
    | inl same ↦ ground (arith, lookup-insert k j (record x { is_active = true }) d)
    | inr other ↦ ground (arith, lookup-insert k j (record x { is_active = true }) d, idle j e)
  ];
  chosen = λ j e. ground (arith, lookup-insert k j (record x { is_active = true }) d, eq_iff k j);
  empty = λ e. ground (arith, e);
  spelled = λ j h. ground (
    arith,
    lookup-insert k j (record x { is_active = true }) d,
    spelled j,
    spelled k,
    eq_iff k j,
  );
}

activated :
    (k : String) (d : Dict EmailAccount)
    → contains k d ≡ true
    → ((j : String) (e : EmailAccount)
        → lookup j d ≡ some e
        → str_eq k j ≡ false
        → e.is_active ≡ false)
    → ((j : String) → contains j d ≡ true → str_eq j "" ≡ false)
    → IsConsistent (record { accounts = activate k d; active_account_id = some k })
activated k d held idle spelled = elim (Option-cases (lookup k d)) [
  | inl missing ↦ absurd (ground arith)
  | inr (x, found) ↦ rw found (inserted k x d held idle spelled)
]

pub set_active-IsConsistent :
    (k : String) (m : AccountManager) → IsConsistent m → IsConsistent (set_active_account k m).1
unfolding set_active_account
set_active-IsConsistent k m c = elim (Bool-cases (contains k m.accounts)) [
  | inr unknown ↦ rw unknown c
  | inl known ↦ rw known (
      activated k (deactivate_all m.accounts) (rw (contains-deactivate_all k m.accounts) known)
        (λ j e h other. lookup-deactivate_all j m.accounts e h)
        (λ j h. c.spelled j (rw (contains-deactivate_all j m.accounts) at h)))
]

contains-nonempty :
    (k : String) (d : Dict EmailAccount) → contains k d ≡ true → (length d == 0) ≡ false
unfolding lookup
contains-nonempty k [] h = ground arith
contains-nonempty k (x ∷ d) h = ground arith

-- A new account joins the others, of which one is active.
joined :
    (k a : String) (x : EmailAccount) (m : AccountManager)
    → lookup k m.accounts ≡ none
    → str_eq k "" ≡ false
    → x.is_active ≡ false
    → m.active_account_id ≡ some a
    → IsConsistent m
    → IsConsistent (record m { accounts = insert k x m.accounts })
joined k a x m fresh ne idle active c = record {
  marked = λ j e h. elim (Bool-cases (str_eq k j)) [
    | inl same ↦
        ground (arith, lookup-insert k j x m.accounts, eq_iff k j, eq_iff a j, c.chosen a active)
    | inr other ↦ ground (arith, lookup-insert k j x m.accounts, c.marked j e)
  ];
  chosen = λ j e. ground (arith, lookup-insert k j x m.accounts, c.chosen j e);
  empty = λ e. ground (arith, e);
  spelled = λ j h. ground (arith, lookup-insert k j x m.accounts, c.spelled j, eq_iff k j);
}

pub add_account-IsConsistent :
    (k : String) (now : ℕ) (email provider : String) (display access refresh : Option String)
    (m : AccountManager)
    → lookup k m.accounts ≡ none
    → str_eq k "" ≡ false
    → IsConsistent m
    → IsConsistent (add_account k now email provider display access refresh m).1
unfolding add_account
add_account-IsConsistent k now email provider display access refresh m fresh ne c =
    elim (Option-cases m.active_account_id) [
      | inl nobody ↦ rw (c.empty nobody) (
          unfold insert lookup in
          record {
            marked = λ j e h. ground arith;
            chosen = λ j e. ground (arith, eq_iff k j, e, eq_refl k);
            empty = λ e. ground (arith, e);
            spelled = λ j h. ground (arith, eq_iff k j);
          })
      | inr (a, active) ↦
          rw (contains-nonempty a m.accounts (c.chosen a active))
            (joined k a _ m fresh ne refl active c)
    ]

-- What is left without the active account is idle.
left_idle :
    (k : String) (m : AccountManager)
    → is_id m.active_account_id k ≡ true
    → IsConsistent m
    → (j : String) (e : EmailAccount) → lookup j (erase k m.accounts) ≡ some e
    → e.is_active ≡ false
left_idle k m active c j e h = elim (Option-cases m.active_account_id) [
  | inl nobody ↦ absurd (ground arith)
  | inr (a, held) ↦
      ground (arith, lookup-erase k j m.accounts, c.marked j e, eq_iff a k, eq_iff a j, eq_iff k j)
]

left_spelled :
    (k : String) (m : AccountManager)
    → IsConsistent m
    → (j : String) → contains j (erase k m.accounts) ≡ true
    → str_eq j "" ≡ false
left_spelled k m c j h = ground (arith, lookup-erase k j m.accounts, c.spelled j)

first-IsConsistent :
    (d : Dict EmailAccount)
    → ((j : String) (e : EmailAccount) → lookup j d ≡ some e → e.is_active ≡ false)
    → ((j : String) → contains j d ≡ true → str_eq j "" ≡ false)
    → IsConsistent (activate_first d)
unfolding lookup
first-IsConsistent [] idle spelled = record {
  marked = λ k e h. ground arith;
  chosen = λ k e. ground (arith, e);
  empty = λ e. refl;
  spelled = spelled;
}
first-IsConsistent ((k, x) ∷ d) idle spelled =
    activated k ((k, x) ∷ d) (ground (arith, eq_refl k)) (λ j e h other. idle j e h) spelled

others :
    (k : String) (m : AccountManager)
    → contains k m.accounts ≡ true
    → is_id m.active_account_id k ≡ false
    → IsConsistent m
    → IsConsistent (record m { accounts = erase k m.accounts })
others k m known idle c = record {
  marked = λ j e h. ground (arith, lookup-erase k j m.accounts, c.marked j e);
  chosen =
      λ j e. ground (arith, lookup-erase k j m.accounts, c.chosen j e, eq_iff k j, eq_refl k, e);
  empty = λ e. absurd (ground (arith, contains-nonempty k m.accounts known, c.empty e));
  spelled = left_spelled k m c;
}

pub remove_account-IsConsistent :
    (k : String) (m : AccountManager) → IsConsistent m → IsConsistent (remove_account k m).1
unfolding remove_account
remove_account-IsConsistent k m c = elim (Bool-cases (contains k m.accounts)) [
  | inr unknown ↦ rw unknown c
  | inl known ↦ elim (Bool-cases (is_id m.active_account_id k)) [
    | inl active ↦
        rw (known, active)
          (first-IsConsistent (erase k m.accounts) (left_idle k m active c) (left_spelled k m c))
    | inr idle ↦ rw (known, idle) (others k m known idle c)
  ]
]

-- An entry that keeps its mark is replaced.
replaced :
    (k : String) (x y : EmailAccount) (m : AccountManager)
    → lookup k m.accounts ≡ some x
    → y.is_active ≡ x.is_active
    → IsConsistent m
    → IsConsistent (record m { accounts = insert k y m.accounts })
replaced k x y m found same c = record {
  marked = λ j e h. elim (Bool-cases (str_eq k j)) [
    | inl here ↦ ground (arith, lookup-insert k j y m.accounts, eq_iff k j, c.marked k x found)
    | inr other ↦ ground (arith, lookup-insert k j y m.accounts, c.marked j e)
  ];
  chosen = λ j e. ground (arith, lookup-insert k j y m.accounts, c.chosen j e);
  empty = λ e. absurd (ground (arith, c.empty e, contains-nonempty k m.accounts));
  spelled = λ j h. ground (arith, lookup-insert k j y m.accounts, c.spelled j, eq_iff k j);
}

pub update_tokens-IsConsistent :
    (k access : String) (refresh : Option String) (m : AccountManager)
    → IsConsistent m
    → IsConsistent (update_tokens k access refresh m).1
unfolding update_tokens
update_tokens-IsConsistent k access refresh m c = elim (Option-cases (lookup k m.accounts)) [
  | inl missing ↦ rw missing c
  | inr (x, found) ↦ rw found (replaced k x _ m found refl c)
]
