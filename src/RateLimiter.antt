-- ===== src/RateLimiter.antt =====
-- middleware/ratelimit.go: `RateLimiter`, a sliding window for each user. Times and durations are
-- nanoseconds; `t.After(now.Add(-window))` is written `now < t + window`. The mutex makes each call
-- one step.
pub mod Window
pub mod History
use minio_3d.Base.{
  ℕ, ◌+◌, ◌/◌, String, Bool, true, false, not, List, [], ◌∷◌, ◌++◌, ◌==◌, ltb, leb, any, select,
  discard, length, if◌then◌else◌,
}

pub record RateLimiter : Type 0 where
  pub windows : List (String × List ℕ)
  pub limit : ℕ
  pub window : ℕ

-- `NewRateLimiter`, but for the goroutine that calls `cleanup`.
abbrev pub new_rate_limiter : ℕ → ℕ → RateLimiter
new_rate_limiter limit window = record { windows = []; limit = limit; window = window }

-- `rl.windows[userID]`: a missing key has no timestamps.
abbrev pub timestamps : String → List (String × List ℕ) → List ℕ
timestamps user [] = []
timestamps user ((u, ts) ∷ m) = if u == user then ts else timestamps user m

-- `rl.windows[userID] = ts`
abbrev pub set_timestamps : String → List ℕ → List (String × List ℕ) → List (String × List ℕ)
set_timestamps user ts [] = (user, ts) ∷ []
set_timestamps user ts ((u, us) ∷ m) =
    if u == user then (user, ts) ∷ m else (u, us) ∷ set_timestamps user ts m

-- `t.After(cutoff)`
abbrev pub is_recent : ℕ → ℕ → ℕ → Bool
is_recent now window t = ltb now (t + window)

unfoldable pub allow : ℕ → String → RateLimiter → Bool × RateLimiter
allow now user rl =
    let valid = select (is_recent now rl.window) (timestamps user rl.windows) in
    if leb rl.limit (length valid)
    then (false, record rl { windows = set_timestamps user valid rl.windows })
    else (true, record rl { windows = set_timestamps user (valid ++ now ∷ []) rl.windows })

-- One round of `cleanup`: the entries with no recent timestamp go.
unfoldable pub cleanup : ℕ → RateLimiter → RateLimiter
cleanup now rl = record rl {
  windows = discard (λ e. not (any (is_recent now rl.window) e.1)) rl.windows;
}

-- What the middleware of `Limit` does with a request.
pub data Verdict : Type 0 where
  next : Verdict
  too_many_requests : ℕ → ℕ → Verdict

abbrev pub second : ℕ
second = 1000000000

abbrev decided : RateLimiter → Bool × RateLimiter → Verdict × RateLimiter
decided rl (true, rl') = (next, rl')
decided rl (false, rl') = (too_many_requests rl.limit (rl.window / second), rl')

-- `Limit`: a request that carries no user is passed on and not counted.
unfoldable pub limit_request : ℕ → String → RateLimiter → Verdict × RateLimiter
unfolding allow
limit_request now user rl = if user == "" then (next, rl) else decided rl (allow now user rl)
