-- ===== src/KeyManager/RateLimit/Tests.antt =====
-- Witnesses for the rate limiter.
use qu_mail.Prelude.{some, true, ◌∷◌, [], ◌≤◌, ◌≡◌, ℕ, List, arith}
use qu_mail.KeyManager.RateLimit.{Arrival, new_limiter, serve, call, passed, ℕ, List}
use qu_mail.KeyManager.RateLimit.Laws.{in_window}
use qu_mail.KeyManager.RateLimit.Bounded.{rate_bounded}
use qu_mail.KeyManager.RateLimit.Pause.{admitted_after_pause}

abbrev at : ℕ → Arrival
at t = record { http = true; client = some "10.0.0.1"; time = t }

abbrev burst : List Arrival
burst = at 1 ∷ at 2 ∷ at 3 ∷ []

rate_bounded_example : in_window "10.0.0.1" 1 (serve burst (new_limiter true 2)).0 ≤ 2
rate_bounded_example = rate_bounded burst 2 "10.0.0.1" 1 (omega arith)

admitted_after_pause_example : (call (at 60000003) (serve burst (new_limiter true 2)).1).0 ≡ passed
admitted_after_pause_example =
    admitted_after_pause burst true 2 3 (at 60000003) (omega arith) (omega arith) (omega arith)
