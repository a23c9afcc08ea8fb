-- ===== src/KeyManager/RateLimit/Laws.antt =====
-- What the rate limiter of key_manager/main.py guarantees.
use qu_mail.Prelude.{
  ℕ, String, List, ◌≡◌, ◌≤◌, ◌<◌, ◌++◌, ◌+◌, if◌then◌else◌, length, [], str_eq, arith, leb,
  Bool-cases, ◌&&◌, refl, inl, ltb, inr, false, true, ap, ap₂, not, ◌||◌,
}
use qu_mail.Dict.{Dict, insert, lookup-insert}
use qu_mail.KeyManager.RateLimit.{
  Arrival, minute, client_ip, times_of, recent, String, List, ◌∷◌, length, [], leb, ltb, Limiter,
  call, keep_passed, passed, decide, not,
}

pub times_of-insert :
    (ip other : String) (ts : List ℕ) (d : Dict (List ℕ))
    → times_of other (insert ip ts d) ≡ (if str_eq ip other then ts else times_of other d)
unfolding times_of
times_of-insert ip other ts d = rw lookup-insert (elim (Bool-cases (str_eq ip other)) [
  | inl same ↦ rw same refl
  | inr other_ip ↦ rw other_ip refl
])

-- How many of the times are at `w` or later.
unfoldable pub since : ℕ → List ℕ → ℕ
since w [] = 0
since w (t ∷ ts) = (if leb w t then 1 else 0) + since w ts

pub since-le-length : (w : ℕ) (ts : List ℕ) → since w ts ≤ length ts
unfolding since
since-le-length w [] = omega arith
since-le-length w (t ∷ ts) = ground (arith, since-le-length w ts)

pub since-append :
    (w t : ℕ) (ts : List ℕ) → since w (ts ++ t ∷ []) ≡ since w ts + (if leb w t then 1 else 0)
unfolding since
since-append w t [] = ground arith
since-append w t (x ∷ ts) = ground (arith, since-append w t ts)

-- What is dropped is older than a minute.
pub since-recent :
    (w now : ℕ) (ts : List ℕ) → now < w + minute → since w (recent now ts) ≡ since w ts
unfolding since recent
since-recent w now [] h = refl
since-recent w now (t ∷ ts) h = ground (arith, since-recent w now ts)

-- How many of the requests are of the client and in the minute that begins at `w`.
unfoldable pub in_window : String → ℕ → List Arrival → ℕ
in_window ip w [] = 0
in_window ip w (a ∷ more) =
    (if str_eq (client_ip a) ip && (leb w a.time && ltb a.time (w + minute)) then 1 else 0)
    + in_window ip w more

-- Requests arrive in the order of the clock, none before `last`.
abbrev pub Ordered : ℕ → List Arrival → Type 0
Ordered last [] = Unit
Ordered last (a ∷ more) = (last ≤ a.time) × Ordered a.time more

-- The three ways through a call.
pub kept_http :
    (a : Arrival) (more : List Arrival) → a.http ≡ true → keep_passed a passed more ≡ a ∷ more
kept_http a more http = ap (λ b. if b then a ∷ more else more) http

pub kept_other :
    (a : Arrival) (more : List Arrival) → a.http ≡ false → keep_passed a passed more ≡ more
kept_other a more other = ap (λ b. if b then a ∷ more else more) other

pub call_http :
    (a : Arrival) (l : Limiter)
    → a.http ≡ true
    → l.enabled ≡ true
    → call a l ≡ decide a (client_ip a) (recent a.time (times_of (client_ip a) l.request_counts)) l
unfolding call
call_http a l http on =
    ap₂
      (λ x y.
        if not x || not y
        then (passed, l)
        else decide a (client_ip a) (recent a.time (times_of (client_ip a) l.request_counts)) l)
      http on

pub call_other : (a : Arrival) (l : Limiter) → a.http ≡ false → call a l ≡ (passed, l)
unfolding call
call_other a l other =
    ap
      (λ x.
        if not x || not l.enabled
        then (passed, l)
        else decide a (client_ip a) (recent a.time (times_of (client_ip a) l.request_counts)) l)
      other
