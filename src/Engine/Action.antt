-- ===== src/Engine/Action.antt =====
-- What a coroutine of the engine does: a result or an exception, and the state that it leaves its
-- surroundings in.
use qu_mail.Result.{Result, ok, Error, err}
use qu_mail.Prelude.{◌≡◌, ap, ◌∙◌}

abbrev pub Action {ℓ} : Type 0 → Type ℓ → Type ℓ
Action S A = S → Result A × S

module _ {S : Type 0} where
  abbrev pub continue {ℓ κ} :
      {A : Type ℓ} {B : Type κ} → (A → Action S B) → Result A × S → Result B × S
  continue f x = elim x.0 [ ok a ↦ f a x.1 | err e ↦ (err e, x.1) ]

  infixl 5 ◌>>=◌
  unfoldable pub ◌>>=◌ {ℓ κ} :
      {A : Type ℓ} {B : Type κ} → Action S A → (A → Action S B) → Action S B
  ◌>>=◌ m f s = continue f (m s)

  -- A step that touches no state.
  unfoldable pub lift {ℓ} : {A : Type ℓ} → Result A → Action S A
  lift r s = (r, s)

  abbrev pub pure {ℓ} : {A : Type ℓ} → A → Action S A
  pure a = lift (ok a)

  abbrev pub handled {ℓ} : {A : Type ℓ} → (Error → Action S A) → Result A × S → Result A × S
  handled handler x = elim x.0 [ ok a ↦ (ok a, x.1) | err e ↦ handler e x.1 ]

  -- `try: … except Exception as e: …`
  unfoldable pub catch {ℓ} : {A : Type ℓ} → Action S A → (Error → Action S A) → Action S A
  catch m handler s = handled handler (m s)

  -- The action succeeds, and its value and the state that it leaves satisfy `P`.
  pub record Gives {ℓ κ} {A : Type ℓ} (m : Action S A) (s : S) (P : A → S → Type κ)
      : Type (ℓ ⊔ κ) where
    pub value : A
    pub after : S
    pub outcome : m s ≡ (ok value, after)
    pub holds : P value after

  pub gives_bind {ℓ κ ι μ} :
      {A : Type ℓ} {B : Type κ} {P : A → S → Type ι} {Q : B → S → Type μ} {m : Action S A}
      {f : A → Action S B} {s : S}
      → Gives m s P
      → ((a : A) (t : S) → P a t → Gives (f a) t Q)
      → Gives (m >>= f) s Q
  unfolding ◌>>=◌
  gives_bind {f = f} g next =
      let h = next g.value g.after g.holds in
      record {
        value = h.value;
        after = h.after;
        outcome = ap (continue f) g.outcome ∙ h.outcome;
        holds = h.holds;
      }

  pub gives_weaken {ℓ κ ι} :
      {A : Type ℓ} {P : A → S → Type κ} {Q : A → S → Type ι} {m : Action S A} {s : S}
      → Gives m s P
      → ((a : A) (t : S) → P a t → Q a t)
      → Gives m s Q
  gives_weaken g next = record {
    value = g.value;
    after = g.after;
    outcome = g.outcome;
    holds = next g.value g.after g.holds;
  }

  -- A step that touches no state and is known to succeed.
  pub gives_lift {ℓ κ} :
      {A : Type ℓ} {P : A → S → Type κ} {r : Result A} {s : S} (a : A)
      → r ≡ ok a
      → P a s
      → Gives (lift r) s P
  unfolding lift
  gives_lift {s = s} a e p = record {
    value = a;
    after = s;
    outcome = ap (λ x. (x, s)) e;
    holds = p;
  }

  pub gives_catch {ℓ κ} :
      {A : Type ℓ} {P : A → S → Type κ} {m : Action S A} {s : S} (h : Error → Action S A)
      → Gives m s P
      → Gives (catch m h) s P
  unfolding catch
  gives_catch h g = record {
    value = g.value;
    after = g.after;
    outcome = ap (handled h) g.outcome;
    holds = g.holds;
  }

  pub gives_step {ℓ κ ι} :
      {A : Type ℓ} {B : Type κ} {Q : B → S → Type ι} {r : Result A} {s : S} (f : A → Action S B)
      (a : A)
      → r ≡ ok a
      → Gives (f a) s Q
      → Gives (lift r >>= f) s Q
  gives_step {Q = Q} f a e g =
      gives_bind {P = λ b t. Gives (f b) t Q} (gives_lift a e g) (λ _ _ h. h)

  -- A step that raises ends the action.
  pub fails_bind {ℓ κ} :
      {A : Type ℓ} {B : Type κ} {s t : S} {e : Error} (m : Action S A) (f : A → Action S B)
      → m s ≡ (err e, t)
      → (m >>= f) s ≡ (err e, t)
  unfolding ◌>>=◌
  fails_bind m f e = ap (continue f) e
