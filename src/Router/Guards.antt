-- ===== src/Router/Guards.antt =====
-- main.go: which requests reach a handler behind `flexAuth`.
use minio_3d.Base.{
  ℕ, String, true, false, ◌≡◌, ◌⊎◌, inl, inr, refl, Option, none, some, List, [], ◌∷◌, arith,
  Bool-cases,
}
use minio_3d.Errors.{Result}
use minio_3d.Sql.{Conn, Postgres}
use minio_3d.Paths.{lowers_with}
use minio_3d.Auth.{Request, Outcome, next, unauthorized, flex_auth}
use minio_3d.Auth.Identity.{HasToken, HasKey, flex_auth-eq-next}
use minio_3d.RateLimiter.{RateLimiter, Verdict, limit_request}
use minio_3d.RateLimiter as Limiter
use minio_3d.Worker.Tasks.{System}
use minio_3d.Router.{
  Endpoint, route, needs_auth, is_limited, Answer, handled, Server, with_conn, answer, limited,
  guarded, dispatch, serve,
}

-- The groups of routes that are behind `flexAuth` as a whole.
pub data Group : Type 0 where
  users files documents : Group

abbrev pub group_name : Group → String
group_name users = "users"
group_name files = "files"
group_name documents = "documents"

needs_auth-route :
    (g : Group) (method : String) (rest : List String) (e : Endpoint)
    → route method (group_name g ∷ rest) ≡ some e
    → needs_auth e ≡ true
unfolding route needs_auth
needs_auth-route users method [] e h = ground arith
needs_auth-route users method (b ∷ []) e h = ground arith
needs_auth-route users method (b ∷ c ∷ []) e h = ground arith
needs_auth-route users method (b ∷ c ∷ d ∷ []) e h = ground arith
needs_auth-route users method (b ∷ c ∷ d ∷ f ∷ rest) e h = ground arith
needs_auth-route files method [] e h = ground arith
needs_auth-route files method (b ∷ []) e h = ground arith
needs_auth-route files method (b ∷ c ∷ []) e h = ground arith
needs_auth-route files method (b ∷ c ∷ d ∷ []) e h = ground arith
needs_auth-route files method (b ∷ c ∷ d ∷ f ∷ rest) e h = ground arith
needs_auth-route documents method [] e h = ground arith
needs_auth-route documents method (b ∷ []) e h = ground arith
needs_auth-route documents method (b ∷ c ∷ []) e h = ground arith
needs_auth-route documents method (b ∷ c ∷ d ∷ []) e h = ground arith
needs_auth-route documents method (b ∷ c ∷ d ∷ f ∷ rest) e h = ground arith

module _ {S B : Type 0} (handle : Endpoint → Option String → System S → B × System S)
    (hash_key : String → String) (pg : Postgres) (now : ℕ)
    (parse_token : String → Result String) where
  -- The handler ran for this user, on a system that differs from the one before in its connection
  -- to the database at most.
  pub record Handled (e : Endpoint) (user : String) (b : B) (s s' : Server S) : Type 0 where
    pub conn : Conn
    pub ran : handle e (some user) (with_conn conn s).system ≡ (b, s'.system)

  answer-handled :
      (e : Endpoint) (user : String) (b : B) (c : Conn) (l : RateLimiter) (s s' : Server S)
      → answer handle e (some user) (record (with_conn c s) { limiter = l }) ≡ (handled b, s')
      → Handled e user b s s'
  answer-handled e user b c l s s' h = record {
    conn = c;
    ran = taken (handle e (some user) (with_conn c s).system) h;
  }
    where
      taken :
          (q : B × System S)
          → ◌≡◌ {A = Answer B × Server S}
              (handled q.0, record { system = q.1; limiter = l })
              (handled b, s')
          → q ≡ (b, s'.system)
      taken (x, y) k = ground arith

  limited-handled :
      (e : Endpoint) (user : String) (v : Verdict × RateLimiter) (b : B) (c : Conn)
      (s s' : Server S)
      → limited handle e user v (with_conn c s) ≡ (handled b, s')
      → Handled e user b s s'
  limited-handled e user (Limiter.next, l) b c s s' h = answer-handled e user b c l s s' h
  limited-handled e user (Limiter.too_many_requests n k, l) b c s s' h = cc

  guarded-handled :
      (e : Endpoint) (o : Outcome × Conn) (b : B) (s s' : Server S)
      → guarded handle hash_key pg now parse_token e o s ≡ (handled b, s')
      → (user : String) × (o.0 ≡ next user) × Handled e user b s s'
  guarded-handled e (unauthorized m, c) b s s' h = cc
  guarded-handled e (next user, c) b s s' h = elim (Bool-cases (is_limited e)) [
    | inl metered ↦ (
      user,
      refl,
      limited-handled e user (limit_request now user s.limiter) b c s s' (rw metered at h),
    )
    | inr free ↦ (user, refl, answer-handled e user b c s.limiter s s' (rw free at h))
  ]

  dispatch-handled :
      (o : Option Endpoint) (r : Request) (b : B) (s s' : Server S)
      → ((e : Endpoint) → o ≡ some e → needs_auth e ≡ true)
      → dispatch handle hash_key pg now parse_token o r s ≡ (handled b, s')
      → (e : Endpoint) × (user : String) × (o ≡ some e)
        × ((flex_auth hash_key pg now parse_token r s.system.world.conn).0 ≡ next user)
        × Handled e user b s s'
  dispatch-handled none r b s s' protected h = cc
  dispatch-handled (some e) r b s s' protected h =
      let (user, known, ran) =
        guarded-handled e (flex_auth hash_key pg now parse_token r s.system.world.conn) b s s'
          (rw (protected e refl) at h) in
      (e, user, refl, known, ran)

  -- A request under /users, /files or /documents that a handler answers comes from a user whom
  -- `FlexAuth` has let in, by a bearer token that parses to that user or by an API key that belongs
  -- to that user; the handler is the one of the route, it is given this user, and it finds the
  -- objects and the queue as they were before the request.
  pub serve-Handled :
      (g : Group) (method : String) (rest : List String) (r : Request) (b : B) (s s' : Server S)
      → serve handle hash_key pg now parse_token method (group_name g ∷ rest) r s ≡ (handled b, s')
      → (e : Endpoint) × (user : String) × (route method (group_name g ∷ rest) ≡ some e)
        × (((lowers_with r.authorization "bearer " ≡ true) × HasToken parse_token r user)
            ⊎ ((lowers_with r.authorization "bearer " ≡ false)
                × HasKey hash_key pg now parse_token r s.system.world.conn user))
        × Handled e user b s s'
  unfolding serve
  serve-Handled g method rest r b s s' h =
      let (e, user, routed, known, ran) =
        dispatch-handled (route method (group_name g ∷ rest)) r b s s'
          (needs_auth-route g method rest) h in
      (
        e,
        user,
        routed,
        flex_auth-eq-next hash_key pg now parse_token r s.system.world.conn user known,
        ran,
      )
