-- ===== src/Examples/Limits.antt =====
-- The rate limiter at work.
use minio_3d.Base.{◌≡◌, refl, true, false, List, [], ◌∷◌, arith, eq_iff}
use mathlib.Core.Bool.{false≢true}
use minio_3d.RateLimiter.{new_rate_limiter, limit_request, too_many_requests}
use minio_3d.RateLimiter.History.{
  Event, request, sweep, serve, serve_spec, serve-eq-spec, limit_zero_refuses,
}

abbrev busy : List Event
busy =
    request 10 "alice"
    ∷ request 20 "alice"
    ∷ request 30 "alice"
    ∷ sweep 40
    ∷ request 45 "bob"
    ∷ request 111 "alice"
    ∷ []

serve-busy : serve busy (new_rate_limiter 2 100) ≡ true ∷ true ∷ false ∷ true ∷ true ∷ []
unfolding serve
serve-busy = refl

serve-eq-spec_example : serve busy (new_rate_limiter 2 100) ≡ serve_spec 2 100 busy []
serve-eq-spec_example = serve-eq-spec 2 100 busy (omega arith)

limit_zero_refuses_example :
    (limit_request 5 "alice" (new_rate_limiter 0 60000000000)).0 ≡ too_many_requests 0 60
limit_zero_refuses_example =
    limit_zero_refuses 5 "alice" (new_rate_limiter 0 60000000000) refl
      (λ e. false≢true ((eq_iff "alice" "").1 e))
