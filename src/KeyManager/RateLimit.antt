-- ===== src/KeyManager/RateLimit.antt =====
-- RateLimitMiddleware of key_manager/main.py. Times are microseconds of `time.time()`; the application
-- behind it runs when a request is passed on.
pub mod Laws
pub mod Bounded
pub mod Pause
mod Tests
use qu_mail.Prelude.{
  ℕ, Bool, ◌*◌, Option, String, List, if◌then◌else◌, [], some, ◌∷◌, leb, not, ltb, length, ◌||◌,
  none, ◌-◌, ◌++◌,
}
use qu_mail.Dict.{Dict, lookup, insert}

-- `request_counts`, a defaultdict of lists.
pub record Limiter : Type 0 where
  pub enabled : Bool
  pub requests_per_minute : ℕ
  pub request_counts : Dict (List ℕ)

abbrev pub new_limiter : Bool → ℕ → Limiter
new_limiter enabled requests_per_minute = record {
  enabled = enabled;
  requests_per_minute = requests_per_minute;
  request_counts = [];
}

-- What the ASGI scope says of a request, and when it arrives.
pub record Arrival : Type 0 where
  pub http : Bool
  pub client : Option String
  pub time : ℕ

-- The application, or the response with status 429.
pub data Outcome : Type 0 where
  passed rejected : Outcome

abbrev pub minute : ℕ
minute = 60 * 1000000

abbrev or_unknown : Option String → String
or_unknown none = "unknown"
or_unknown (some ip) = ip

pub client_ip : Arrival → String
client_ip a = or_unknown a.client

abbrev or_empty : Option (List ℕ) → List ℕ
or_empty none = []
or_empty (some ts) = ts

pub times_of : String → Dict (List ℕ) → List ℕ
times_of ip d = or_empty (lookup ip d)

-- `[t for t in … if current_time - t < 60]`; a clock that went back keeps `t`.
pub recent : ℕ → List ℕ → List ℕ
recent now [] = []
recent now (t ∷ ts) = let rest = recent now ts in if ltb (now - t) minute then t ∷ rest else rest

-- The rest of the call, with the entries that are kept.
pub decide : Arrival → String → List ℕ → Limiter → Outcome × Limiter
decide a ip kept l =
    if leb l.requests_per_minute (length kept)
    then (rejected, record l { request_counts = insert ip kept l.request_counts })
    else (passed, record l { request_counts = insert ip (kept ++ a.time ∷ []) l.request_counts })

-- `__call__`
pub call : Arrival → Limiter → Outcome × Limiter
call a l =
    if not a.http || not l.enabled
    then (passed, l)
    else decide a (client_ip a) (recent a.time (times_of (client_ip a) l.request_counts)) l

-- A run: the limiter that the requests leave, and the HTTP requests that it passed on.
abbrev pub keep_passed : Arrival → Outcome → List Arrival → List Arrival
keep_passed a passed more = if a.http then a ∷ more else more
keep_passed a rejected more = more

unfoldable pub serve : List Arrival → Limiter → List Arrival × Limiter
serve [] l = ([], l)
serve (a ∷ more) l =
    let (outcome, l₁) = call a l in
    let (served, l₂) = serve more l₁ in (keep_passed a outcome served, l₂)
