-- ===== src/KeyManager/RateLimit/Bounded.antt =====
-- The rate limiter of key_manager/main.py keeps its limit.
use qu_mail.Prelude.{
  ℕ, String, List, ◌≡◌, ◌≤◌, ◌<◌, ◌++◌, ◌+◌, if◌then◌else◌, length, [], str_eq, arith, leb,
  Bool-cases, refl, inl, ltb, inr, false, true, ◌⊎◌, ◌∙◌, ap, leb→lt, eq_iff, ltb→lt, ltb→le,
}
use qu_mail.Dict.{lookup, Dict, insert}
use native.Mathlib.Nat.{le_refl}
use qu_mail.KeyManager.RateLimit.{
  new_limiter, Arrival, minute, client_ip, times_of, recent, String, List, ◌∷◌, length, [], leb,
  ltb, Limiter, Outcome, call, serve, keep_passed, rejected, passed, decide,
}
use qu_mail.KeyManager.RateLimit.Laws.{
  times_of-insert, since, since-le-length, since-append, since-recent, in_window, Ordered,
  kept_http, kept_other, call_http, call_other,
}

module _ (ip : String) (w : ℕ) where
  -- The times of the client that count for the minute.
  abbrev held : Limiter → ℕ
  held l = since w (times_of ip l.request_counts)

  -- A step: what it adds to the minute it adds to the times that are held, which stay below the limit.
  abbrev Keeps : Arrival → Outcome → Limiter → Limiter → Type 0
  Keeps a o l m =
      (m.enabled ≡ l.enabled)
      × (m.requests_per_minute ≡ l.requests_per_minute)
      × (held m ≤ l.requests_per_minute)
      × ((more : List Arrival)
          → in_window ip w (keep_passed a o more) + held l ≡ in_window ip w more + held m)

  in_window_other :
      (a : Arrival) (more : List Arrival)
      → str_eq (client_ip a) ip ≡ false
      → in_window ip w (a ∷ more) ≡ in_window ip w more
  unfolding in_window
  in_window_other a more other = ground arith

  in_window_here :
      (a : Arrival) (more : List Arrival)
      → str_eq (client_ip a) ip ≡ true
      → a.time < w + minute
      → in_window ip w (a ∷ more) ≡ (if leb w a.time then 1 else 0) + in_window ip w more
  unfolding in_window
  in_window_here a more same early = ground arith

  -- What an entry of the dict that is written holds for the client.
  held-insert :
      (a : Arrival) (ts : List ℕ) (d : Dict (List ℕ))
      → ((str_eq (client_ip a) ip ≡ true)
          × (since w (times_of ip (insert (client_ip a) ts d)) ≡ since w ts)
          × (times_of (client_ip a) d ≡ times_of ip d))
        ⊎ ((str_eq (client_ip a) ip ≡ false)
            × (since w (times_of ip (insert (client_ip a) ts d)) ≡ since w (times_of ip d)))
  held-insert a ts d = elim (Bool-cases (str_eq (client_ip a) ip)) [
    | inl same ↦ inl (
      same,
      rw times_of-insert (rw same refl),
      ap (λ k. times_of k d) ((eq_iff (client_ip a) ip).0 same),
    )
    | inr other ↦ inr (other, rw times_of-insert (rw other refl))
  ]

  module _ (a : Arrival) (l : Limiter) (http : a.http ≡ true) (early : a.time < w + minute)
      (below : held l ≤ l.requests_per_minute) where
    abbrev kept : List ℕ
    kept = recent a.time (times_of (client_ip a) l.request_counts)

    -- The times that are kept, where the request is the client's.
    held-kept :
        times_of (client_ip a) l.request_counts ≡ times_of ip l.request_counts
        → since w kept ≡ held l
    held-kept e = since-recent w a.time _ early ∙ ap (since w) e

    rejected-Keeps :
        Keeps a rejected l
          (record l { request_counts = insert (client_ip a) kept l.request_counts })
    rejected-Keeps = elim (held-insert a kept l.request_counts) [
      | inl (same, now, e) ↦
          (refl, refl, omega (arith, held-kept e), (λ more. omega (arith, held-kept e)))
      | inr (other, now) ↦ (refl, refl, omega arith, (λ more. omega arith))
    ]

    passed-Keeps :
        length kept < l.requests_per_minute
        → Keeps a passed l (record l {
          request_counts = insert (client_ip a) (kept ++ a.time ∷ []) l.request_counts;
        })
    passed-Keeps room = elim (held-insert a (kept ++ a.time ∷ []) l.request_counts) [
      | inl (same, now, e) ↦ (
        refl,
        refl,
        ground (arith, now, held-kept e, since-append w a.time kept, since-le-length w kept, room),
        (λ more. rw (kept_http a more http) (
            omega (
              arith,
              now,
              held-kept e,
              since-append w a.time kept,
              in_window_here a more same early,
            ))),
      )
      | inr (other, now) ↦ (
        refl,
        refl,
        omega arith,
        (λ more. rw (kept_http a more http) (omega (arith, in_window_other a more other))),
      )
    ]

    decide-Keeps : let r = decide a (client_ip a) kept l in Keeps a r.0 l r.1
    unfolding decide
    decide-Keeps = elim (Bool-cases (leb l.requests_per_minute (length kept))) [
      | inl full ↦ rw full rejected-Keeps
      | inr room ↦ rw room (passed-Keeps (leb→lt _ _ room))
    ]

  call-Keeps :
      (a : Arrival) (l : Limiter)
      → l.enabled ≡ true
      → a.time < w + minute
      → held l ≤ l.requests_per_minute
      → Keeps a (call a l).0 l (call a l).1
  unfolding call
  call-Keeps a l on early below = elim (Bool-cases a.http) [
    | inl http ↦ rw (call_http a l http on) (decide-Keeps a l http early below)
    | inr other ↦
        rw (call_other a l other) (
          refl,
          refl,
          below,
          (λ more. ap (λ b. in_window ip w b + held l) (kept_other a more other)),
        )
  ]

  late-none :
      (a : Arrival) (o : Outcome) (more : List Arrival)
      → w + minute ≤ a.time
      → in_window ip w (keep_passed a o more) ≡ in_window ip w more
  unfolding in_window
  late-none a rejected more h = refl
  late-none a passed more h = elim (Bool-cases a.http) [
    | inl http ↦ ap (in_window ip w) (kept_http a more http) ∙ ground arith
    | inr other ↦ ap (in_window ip w) (kept_other a more other)
  ]

  served-none :
      (arrivals : List Arrival) (last : ℕ) (l : Limiter)
      → Ordered last arrivals
      → w + minute ≤ last
      → in_window ip w (serve arrivals l).0 ≡ 0
  unfolding serve
  served-none [] last l o h = unfold in_window in refl
  served-none (a ∷ more) last l (here, o) h =
      let later : ℕ = in_window ip w (serve more (call a l).1).0 in
      let rest : later ≡ 0 = served-none more a.time (call a l).1 o (omega arith) in
      late-none a (call a l).0 (serve more (call a l).1).0 (omega arith) ∙ rest

  -- However many requests come, and whatever other clients send, at most as many as the limit are passed
  -- on of one client in one minute, wherever the minute begins.
  served-le :
      (arrivals : List Arrival) (last : ℕ) (l : Limiter)
      → Ordered last arrivals
      → l.enabled ≡ true
      → held l ≤ l.requests_per_minute
      → in_window ip w (serve arrivals l).0 + held l ≤ l.requests_per_minute
  unfolding serve
  served-le [] last l o on below = unfold in_window in omega arith
  served-le (a ∷ more) last l (here, o) on below = elim (Bool-cases (ltb a.time (w + minute))) [
    | inl early ↦
        (let (on', same, below', adds) = call-Keeps a l on (ltb→lt _ _ early) below in
          let rest =
            served-le more a.time (call a l).1 o (on' ∙ on) (omega (arith, same, below')) in
          omega (arith, rest, same, adds (serve more (call a l).1).0))
    | inr late ↦
        (let none_later = served-none (a ∷ more) a.time l (le_refl a.time, o) (ltb→le _ _ late) in
          unfold serve in omega (arith, none_later, below))
  ]

-- The limiter, started empty and enabled, passes on at most `requests_per_minute` HTTP requests of one
-- client in any 60 seconds, whatever requests of whatever clients come in the order of the clock.
pub rate_bounded :
    (arrivals : List Arrival) (limit : ℕ) (ip : String) (w : ℕ)
    → Ordered 0 arrivals
    → in_window ip w (serve arrivals (new_limiter true limit)).0 ≤ limit
rate_bounded arrivals limit ip w o =
    let bounded =
      served-le ip w arrivals 0 (new_limiter true limit) o refl
        (unfold times_of since lookup in omega arith) in
    omega (arith, bounded)
