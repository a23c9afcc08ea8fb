-- ===== src/KeyManager/RateLimit/Pause.antt =====
-- The rate limiter of key_manager/main.py admits a client again.
use qu_mail.Prelude.{
  ℕ, String, List, ◌≡◌, ◌≤◌, ◌<◌, ◌++◌, ◌+◌, length, [], str_eq, arith, leb, Bool-cases, refl, inl,
  inr, false, ◌∙◌, not, ◌||◌, Bool,
}
use qu_mail.Dict.{lookup, Dict, insert}
use qu_mail.KeyManager.RateLimit.{
  new_limiter, Arrival, minute, client_ip, times_of, recent, String, List, ◌∷◌, length, [], leb,
  Limiter, call, serve, passed, decide, not, Bool,
}
use qu_mail.KeyManager.RateLimit.Laws.{times_of-insert, since, since-append}

since-recent-le : (w now : ℕ) (ts : List ℕ) → since w (recent now ts) ≤ since w ts
unfolding since recent
since-recent-le w now [] = omega arith
since-recent-le w now (t ∷ ts) = ground (arith, since-recent-le w now ts)

recent-none :
    (last now : ℕ) (ts : List ℕ)
    → since (last + 1) ts ≡ 0
    → last + minute ≤ now
    → length (recent now ts) ≡ 0
unfolding since recent
recent-none last now [] h p = refl
recent-none last now (t ∷ ts) h p = ground (arith, recent-none last now ts)

-- No request is later than `last`.
abbrev pub AllBy : ℕ → List Arrival → Type 0
AllBy last [] = Unit
AllBy last (a ∷ more) = (a.time ≤ last) × AllBy last more

module _ (last : ℕ) where
  abbrev Settled : Limiter → Type 0
  Settled l = (ip : String) → since (last + 1) (times_of ip l.request_counts) ≡ 0

  insert-Settled :
      (ip : String) (ts : List ℕ) (d : Dict (List ℕ))
      → since (last + 1) ts ≡ 0
      → ((k : String) → since (last + 1) (times_of k d) ≡ 0)
      → (k : String) → since (last + 1) (times_of k (insert ip ts d)) ≡ 0
  insert-Settled ip ts d h settled k =
      rw times_of-insert (elim (Bool-cases (str_eq ip k)) [
        | inl same ↦ rw same h
        | inr other ↦ rw other (settled k)
      ])

  call-Settled :
      (a : Arrival) (l : Limiter)
      → a.time ≤ last
      → Settled l
      → Settled (call a l).1 × ((call a l).1.requests_per_minute ≡ l.requests_per_minute)
  unfolding call decide
  call-Settled a l early settled =
      let ts : List ℕ = times_of (client_ip a) l.request_counts in
      let old : since (last + 1) (recent a.time ts) ≡ 0 =
        omega (arith, since-recent-le (last + 1) a.time ts, settled (client_ip a)) in
      let new : since (last + 1) (recent a.time ts ++ a.time ∷ []) ≡ 0 =
        ground (arith, since-append (last + 1) a.time (recent a.time ts), old) in
      elim (Bool-cases (not a.http || not l.enabled)) [
        | inl through ↦ rw through (settled, refl)
        | inr checked ↦
            rw checked (elim (Bool-cases (leb l.requests_per_minute (length (recent a.time ts)))) [
              | inl full ↦
                  rw full (insert-Settled (client_ip a) _ l.request_counts old settled, refl)
              | inr room ↦
                  rw room (insert-Settled (client_ip a) _ l.request_counts new settled, refl)
            ])
      ]

  serve-Settled :
      (arrivals : List Arrival) (l : Limiter)
      → AllBy last arrivals
      → Settled l
      → Settled (serve arrivals l).1
        × ((serve arrivals l).1.requests_per_minute ≡ l.requests_per_minute)
  unfolding serve
  serve-Settled [] l by settled = (settled, refl)
  serve-Settled (a ∷ more) l (early, by) settled =
      let (settled', same) = call-Settled a l early settled in
      let (settled'', same') = serve-Settled more (call a l).1 by settled' in
      (settled'', same' ∙ same)

-- Nobody is locked out: whatever requests came, of any clients and in any order, a request that comes a
-- minute or more after the last of them is passed on, where the limit is positive.
pub admitted_after_pause :
    (arrivals : List Arrival) (enabled : Bool) (limit last : ℕ) (a : Arrival)
    → AllBy last arrivals
    → 0 < limit
    → last + minute ≤ a.time
    → (call a (serve arrivals (new_limiter enabled limit)).1).0 ≡ passed
unfolding call decide
admitted_after_pause arrivals enabled limit last a by positive pause =
    let l : Limiter = (serve arrivals (new_limiter enabled limit)).1 in
    let (settled, same) =
      serve-Settled last arrivals (new_limiter enabled limit) by
        (λ k. unfold times_of since lookup in refl) in
    let empty =
      recent-none last a.time (times_of (client_ip a) l.request_counts) (settled (client_ip a))
        pause in
    let room : leb l.requests_per_minute
          (length (recent a.time (times_of (client_ip a) l.request_counts)))
        ≡ false =
      ground (arith, same, empty, positive) in
    elim (Bool-cases (not a.http || not l.enabled)) [
      | inl through ↦ rw through refl
      | inr checked ↦ rw checked (rw room refl)
    ]
