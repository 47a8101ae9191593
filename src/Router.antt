-- ===== src/Router.antt =====
-- main.go: the routes, and the middlewares in front of the handlers. `B` is what a handler answers.
-- A path is the list of its segments; the parts of a path that the routes name with a colon go with
-- the endpoint. gin prefers a fixed segment to a named one.
pub mod Guards
use minio_3d.Base.{
  ℕ, String, Bool, true, false, ◌&&◌, Option, none, some, List, [], ◌∷◌, ◌==◌, if◌then◌else◌,
}
use minio_3d.Errors.{Result}
use minio_3d.Sql.{Conn, Postgres}
use minio_3d.Auth.{Request, Outcome, next, unauthorized, flex_auth}
use minio_3d.RateLimiter.{RateLimiter, Verdict, limit_request}
use minio_3d.RateLimiter as Limiter
use minio_3d.Worker.Tasks.{System}

pub data Endpoint : Type 0 where
  health register login create_key list_keys me upload_file list_files upload_document : Endpoint
  list_documents : Endpoint
  delete_key get_file file_url delete_file get_document delete_document list_pages :
      String → Endpoint
  page_range register_webhook : String → Endpoint
  get_page : String → String → Endpoint

abbrev get_route : List String → Option Endpoint
get_route [] = none
get_route (a ∷ []) =
    if a == "health"
    then some health
    else if a == "files"
    then some list_files
    else if a == "documents"
    then some list_documents
    else none
get_route (a ∷ b ∷ []) =
    if a == "auth" && b == "api-keys"
    then some list_keys
    else if a == "users" && b == "me"
    then some me
    else if a == "files"
    then some (get_file b)
    else if a == "documents"
    then some (get_document b)
    else none
get_route (a ∷ b ∷ c ∷ []) =
    if a == "files" && c == "url"
    then some (file_url b)
    else if a == "documents" && c == "pages"
    then some (page_range b)
    else none
get_route (a ∷ b ∷ c ∷ d ∷ []) =
    if a == "documents" && c == "pages"
    then if d == "all" then some (list_pages b) else some (get_page b d)
    else none
get_route (a ∷ b ∷ c ∷ d ∷ e ∷ rest) = none

abbrev post_route : List String → Option Endpoint
post_route [] = none
post_route (a ∷ []) = none
post_route (a ∷ b ∷ []) =
    if a == "auth" && b == "register"
    then some register
    else if a == "auth" && b == "login"
    then some login
    else if a == "auth" && b == "api-keys"
    then some create_key
    else if a == "files" && b == "upload"
    then some upload_file
    else if a == "documents" && b == "upload"
    then some upload_document
    else none
post_route (a ∷ b ∷ c ∷ []) =
    if a == "documents" && c == "webhook" then some (register_webhook b) else none
post_route (a ∷ b ∷ c ∷ d ∷ rest) = none

abbrev delete_route : List String → Option Endpoint
delete_route [] = none
delete_route (a ∷ []) = none
delete_route (a ∷ b ∷ []) =
    if a == "files"
    then some (delete_file b)
    else if a == "documents"
    then some (delete_document b)
    else none
delete_route (a ∷ b ∷ c ∷ []) = if a == "auth" && b == "api-keys" then some (delete_key c) else none
delete_route (a ∷ b ∷ c ∷ d ∷ rest) = none

unfoldable pub route : String → List String → Option Endpoint
route method path =
    if method == "GET"
    then get_route path
    else if method == "POST"
    then post_route path
    else if method == "DELETE"
    then delete_route path
    else none

-- The groups that use `flexAuth`: all but these.
unfoldable pub needs_auth : Endpoint → Bool
needs_auth health = false
needs_auth register = false
needs_auth login = false
needs_auth _ = true

-- The route with `uploadLimiter.Limit()`.
unfoldable pub is_limited : Endpoint → Bool
is_limited upload_document = true
is_limited _ = false

-- What the server answers: a middleware ends the request, or a handler does.
pub data Answer (B : Type 0) : Type 0 where
  no_route : Answer B
  denied : String → Answer B
  slowed : ℕ → ℕ → Answer B
  handled : B → Answer B

pub record Server (S : Type 0) : Type 0 where
  pub system : System S
  pub limiter : RateLimiter

abbrev pub with_conn : {S : Type 0} → Conn → Server S → Server S
with_conn c s = record s { system = record s.system { world = record s.system.world { conn = c } } }

module _ {S B : Type 0} (handle : Endpoint → Option String → System S → B × System S) where
  -- The handler, with the user id that the middleware has set.
  abbrev pub answer : Endpoint → Option String → Server S → Answer B × Server S
  answer e user s =
      let (b, system) = handle e user s.system in (handled b, record s { system = system })

  abbrev pub limited : Endpoint → String → Verdict × RateLimiter → Server S → Answer B × Server S
  limited e user (Limiter.next, l) s = answer e (some user) (record s { limiter = l })
  limited e user (Limiter.too_many_requests limit seconds, l) s =
      (slowed limit seconds, record s { limiter = l })

  module _ (hash_key : String → String) (pg : Postgres) (now : ℕ)
      (parse_token : String → Result String) where
    abbrev pub guarded : Endpoint → Outcome × Conn → Server S → Answer B × Server S
    guarded e (unauthorized m, c) s = (denied m, with_conn c s)
    guarded e (next user, c) s =
        if is_limited e
        then limited e user (limit_request now user s.limiter) (with_conn c s)
        else answer e (some user) (with_conn c s)

    abbrev pub dispatch : Option Endpoint → Request → Server S → Answer B × Server S
    dispatch none r s = (no_route, s)
    dispatch (some e) r s =
        if needs_auth e
        then guarded e (flex_auth hash_key pg now parse_token r s.system.world.conn) s
        else answer e none s

    unfoldable pub serve : String → List String → Request → Server S → Answer B × Server S
    unfolding route needs_auth is_limited flex_auth limit_request
    serve method path r s = dispatch (route method path) r s
