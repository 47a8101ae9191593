-- ===== src/RateLimiter/History.antt =====
-- The limiter against its specification: a log of the accepted requests, from which nothing is ever
-- removed.
use minio_3d.Base.{
  ℕ, ◌≤◌, String, Bool, true, false, not, ◌≡◌, refl, ap, ◌/◌, ◌≢◌, ◌∙◌, List, [], ◌∷◌, ◌++◌, ◌==◌,
  eq_iff, arith, ltb, leb, count, ◌&&◌, select, length, if◌then◌else◌, Bool-cases, inl, inr,
}
use minio_3d.RateLimiter.{
  RateLimiter, new_rate_limiter, timestamps, set_timestamps, is_recent, allow, cleanup,
  limit_request, too_many_requests, second,
}
use minio_3d.RateLimiter.Window.{
  recent, length-select, recent-select, recent-append, timestamps-set_timestamps, HasUniqueKeys,
  recent-discard, set_timestamps-HasUniqueKeys, discard-HasUniqueKeys,
}

-- What happens to a limiter: a request of a user, or a round of the cleanup.
pub data Event : Type 0 where
  request : ℕ → String → Event
  sweep : ℕ → Event

abbrev pub time : Event → ℕ
time (request now user) = now
time (sweep now) = now

-- The clock does not go back.
abbrev pub IsOrdered : ℕ → List Event → Type 0
IsOrdered now [] = Unit
IsOrdered now (e ∷ es) = (now ≤ time e) × IsOrdered (time e) es

-- The answers to the requests, in order.
unfoldable pub serve : List Event → RateLimiter → List Bool
unfolding allow cleanup
serve [] rl = []
serve (request now user ∷ es) rl = let (allowed, rl') = allow now user rl in allowed ∷ serve es rl'
serve (sweep now ∷ es) rl = serve es (cleanup now rl)

-- The requests of a user that were accepted within the window that ends now.
abbrev pub accepted : ℕ → ℕ → String → List (String × ℕ) → ℕ
accepted window now user log = count (λ e. e.0 == user && is_recent now window e.1) log

-- The specification: a request is accepted if fewer than `limit` were, within the window.
unfoldable pub serve_spec : ℕ → ℕ → List Event → List (String × ℕ) → List Bool
serve_spec limit window [] log = []
serve_spec limit window (request now user ∷ es) log =
    let open_slot = ltb (accepted window now user log) limit in
    open_slot ∷ serve_spec limit window es (if open_slot then (user, now) ∷ log else log)
serve_spec limit window (sweep now ∷ es) log = serve_spec limit window es log

-- From now on the windows and the log agree on every user.
pub record Agrees (limit window now : ℕ) (rl : RateLimiter) (log : List (String × ℕ)) : Type 0 where
  pub same_limit : rl.limit ≡ limit
  pub same_window : rl.window ≡ window
  pub keys : HasUniqueKeys rl.windows
  pub counts :
      (later : ℕ) (user : String)
      → now ≤ later
      → recent window later (timestamps user rl.windows) ≡ accepted window later user log

module _ (limit window : ℕ) where
  kept_count :
      (before now later : ℕ) (user who : String) (rl : RateLimiter) (log : List (String × ℕ))
      → before ≤ now
      → Agrees limit window before rl log
      → now ≤ later
      → recent window later (
          timestamps who (
            set_timestamps user
              (select (is_recent now rl.window) (timestamps user rl.windows))
              rl.windows))
        ≡ accepted window later who log
  kept_count before now later user who rl log h a le =
      let old = a.counts later who (omega arith) in
      let pruned = recent-select window now later (timestamps user rl.windows) le in
      rw (a.same_window, timestamps-set_timestamps)
        (elim (Bool-cases (user == who)) [
          | inl same ↦ rw (same, pruned, (eq_iff user who).0 same) old
          | inr other ↦ rw other old
        ])

  added_count :
      (before now later : ℕ) (user who : String) (rl : RateLimiter) (log : List (String × ℕ))
      → before ≤ now
      → Agrees limit window before rl log
      → now ≤ later
      → recent window later (
          timestamps who (
            set_timestamps user
              (select (is_recent now rl.window) (timestamps user rl.windows) ++ now ∷ [])
              rl.windows))
        ≡ accepted window later who ((user, now) ∷ log)
  added_count before now later user who rl log h a le =
      let old = a.counts later who (omega arith) in
      let pruned = recent-select window now later (timestamps user rl.windows) le in
      rw (a.same_window, timestamps-set_timestamps)
        (elim (Bool-cases (user == who)) [
          | inl same ↦
              rw (same, recent-append, pruned, (eq_iff user who).0 same, old) (ground arith)
          | inr other ↦ rw other old
        ])

  -- The two ways in which `allow` ends.
  refused :
      (before now : ℕ) (user : String) (rl : RateLimiter) (log : List (String × ℕ))
      → before ≤ now
      → Agrees limit window before rl log
      → Agrees limit window now
          (record rl {
            windows =
                set_timestamps user
                  (select (is_recent now rl.window) (timestamps user rl.windows))
                  rl.windows;
          })
          log
  refused before now user rl log h a = record {
    same_limit = a.same_limit;
    same_window = a.same_window;
    keys = set_timestamps-HasUniqueKeys user _ rl.windows a.keys;
    counts = λ later who le. kept_count before now later user who rl log h a le;
  }

  granted :
      (before now : ℕ) (user : String) (rl : RateLimiter) (log : List (String × ℕ))
      → before ≤ now
      → Agrees limit window before rl log
      → Agrees limit window now
          (record rl {
            windows =
                set_timestamps user
                  (select (is_recent now rl.window) (timestamps user rl.windows) ++ now ∷ [])
                  rl.windows;
          })
          ((user, now) ∷ log)
  granted before now user rl log h a = record {
    same_limit = a.same_limit;
    same_window = a.same_window;
    keys = set_timestamps-HasUniqueKeys user _ rl.windows a.keys;
    counts = λ later who le. added_count before now later user who rl log h a le;
  }

  swept :
      (before now : ℕ) (rl : RateLimiter) (log : List (String × ℕ))
      → before ≤ now
      → Agrees limit window before rl log
      → Agrees limit window now (cleanup now rl) log
  unfolding cleanup
  swept before now rl log h a = record {
    same_limit = a.same_limit;
    same_window = a.same_window;
    keys = discard-HasUniqueKeys _ rl.windows a.keys;
    counts = λ later who le. rw a.same_window (
        recent-discard window now later who rl.windows le a.keys
        ∙ a.counts later who (omega arith));
  }

  -- The decision is that of the specification.
  decides :
      (before now : ℕ) (user : String) (rl : RateLimiter) (log : List (String × ℕ))
      → before ≤ now
      → Agrees limit window before rl log
      → leb rl.limit (length (select (is_recent now rl.window) (timestamps user rl.windows)))
        ≡ not (ltb (accepted window now user log) limit)
  decides before now user rl log h a =
      let n = length-select window now (timestamps user rl.windows) in
      let c = a.counts now user h in rw (a.same_window, a.same_limit, n, c) (ground arith)

  -- From any state that agrees with a log the answers are those of the specification.
  serve-eq-spec_from :
      (es : List Event) (before : ℕ) (rl : RateLimiter) (log : List (String × ℕ))
      → IsOrdered before es
      → Agrees limit window before rl log
      → serve es rl ≡ serve_spec limit window es log
  unfolding serve serve_spec
  serve-eq-spec_from [] before rl log o a = refl
  serve-eq-spec_from (sweep now ∷ es) before rl log o a =
      serve-eq-spec_from es now (cleanup now rl) log o.1 (swept before now rl log o.0 a)
  serve-eq-spec_from (request now user ∷ es) before rl log o a =
      let d = decides before now user rl log o.0 a in
      elim (Bool-cases (ltb (accepted window now user log) limit)) [
        | inl slot ↦
            rw (d, slot)
              (ap (λ bs. true ∷ bs)
                (serve-eq-spec_from es now _ ((user, now) ∷ log) o.1
                  (granted before now user rl log o.0 a)))
        | inr full ↦
            rw (d, full)
              (ap (λ bs. false ∷ bs)
                (serve-eq-spec_from es now _ log o.1 (refused before now user rl log o.0 a)))
      ]

  -- Whatever the requests of whichever users, and whenever the cleanup runs between them, as long as
  -- the clock does not go back: a fresh limiter accepts a request exactly when fewer than `limit`
  -- requests of that user were accepted within the window.
  pub serve-eq-spec :
      (es : List Event)
      → IsOrdered 0 es
      → serve es (new_rate_limiter limit window) ≡ serve_spec limit window es []
  serve-eq-spec es o =
      serve-eq-spec_from es 0 (new_rate_limiter limit window) [] o
        (record { same_limit = refl; same_window = refl; keys = tt; counts = λ later user h. refl })

-- With a limit of 0, which config.go calls "disabled", every request that carries a user is refused.
pub limit_zero_refuses :
    (now : ℕ) (user : String) (rl : RateLimiter)
    → rl.limit ≡ 0
    → user ≢ ""
    → (limit_request now user rl).0 ≡ too_many_requests 0 (rl.window / second)
unfolding limit_request
limit_zero_refuses now user rl zero_limit named = ground (arith, eq_iff user "")
