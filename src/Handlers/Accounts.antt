-- ===== src/Handlers/Accounts.antt =====
-- handlers/auth.go, handlers/users.go and handlers/apikeys.go: accounts, the profile, and API keys.
-- bcrypt and the signing of a token are calls of third-party code, and are parameters.
pub mod Login
pub mod Me
use minio_3d.Base.{
  ℕ, zero, suc, ◌+◌, ◌*◌, ◌/◌, String, Bool, true, false, Option, none, some, List, [], ◌∷◌, ◌≡◌,
  refl, arith, length, if◌then◌else◌,
}
use minio_3d.Errors.{Error, Sentinel, Result, ok, err, is, message}
use minio_3d.Types.{User, Document, DocumentStatus, processing, ready, failed, ApiKey}
use minio_3d.Exec.{Exec}
use minio_3d.Sql.{Conn, Postgres, Sql}
use minio_3d.Metadata.Reads.{get_user_by_id}
use minio_3d.Documents.Rows.{list_documents}
use minio_3d.ApiKeys as Keys
use minio_3d.ApiKeys.{CreateResult}
use minio_3d.Handlers.{Response, respond, refuse, internal_error, missing_error, finish}

pub record UserRepository (W : Type 0) : Type 0 where
  pub create_user : String → String → ℕ → Exec W User
  pub get_user_by_email : String → Exec W User

-- `middleware.Claims`; `exp` and `iat` are whole seconds.
pub record Claims : Type 0 where
  pub user_id : String
  pub expires_at : ℕ
  pub issued_at : ℕ

-- `AuthHandler`, with the calls of bcrypt and jwt.
pub record AuthHandler (W : Type 0) : Type 0 where
  pub repo : UserRepository W
  pub jwt_expiry_hours : ℕ
  pub default_quota : ℕ
  pub generate_from_password : String → Result String
  pub compare_hash_and_password : String → String → Bool
  pub signed_string : Claims → Result String

-- `registerRequest` and `loginRequest`
pub record Credentials : Type 0 where
  pub email : String
  pub password : String

-- `time.Hour` in nanoseconds.
abbrev pub hour : ℕ
hour = 3600000000000

-- `time.Second`, to which `jwt.NewNumericDate` cuts a time.
abbrev pub second : ℕ
second = 1000000000

abbrev pub numeric_date : ℕ → ℕ
numeric_date t = t / second

module _ {W : Type 0} (h : AuthHandler W) (now : ℕ) where
  -- The clock, which is read for each of the two times, is read once here.
  unfoldable pub issue_token : String → Result String
  issue_token user_id = h.signed_string (record {
    user_id = user_id;
    expires_at = numeric_date (now + h.jwt_expiry_hours * hour);
    issued_at = numeric_date now;
  })

  abbrev pub token_response : ℕ → Result String → Response String
  token_response status (ok token) = respond status token
  token_response status (err e) = refuse 500 "could not issue token"

  abbrev pub created : Credentials → Result String → W → Response String × W
  created req (err e) w = (refuse 500 "could not hash password", w)
  created req (ok hash) w =
      finish (λ _. refuse 409 "email already registered")
        (λ user. token_response 201 (issue_token user.id))
        (h.repo.create_user req.email hash h.default_quota w)

  unfoldable pub register : Result Credentials → W → Response String × W
  unfolding issue_token
  register (err e) w = (refuse 400 (message e), w)
  register (ok req) w = created req (h.generate_from_password req.password) w

  abbrev pub unknown_error : Error → Response String
  unknown_error e =
      if is e Sentinel.not_found
      then refuse 401 "invalid credentials"
      else refuse 500 "internal error"

  abbrev pub verified : Credentials → User → Response String
  verified req user =
      if h.compare_hash_and_password user.password_hash req.password
      then token_response 200 (issue_token user.id)
      else refuse 401 "invalid credentials"

  unfoldable pub login : Result Credentials → W → Response String × W
  unfolding issue_token
  login (err e) w = (refuse 400 (message e), w)
  login (ok req) w = finish unknown_error (verified req) (h.repo.get_user_by_email req.email w)

-- The counts of documents by status.
pub record Tally : Type 0 where
  pub ready_count : ℕ
  pub processing_count : ℕ
  pub failed_count : ℕ

abbrev pub counted : DocumentStatus → Tally → Tally
counted ready t = record t { ready_count = t.ready_count + 1 }
counted processing t = record t { processing_count = t.processing_count + 1 }
counted failed t = record t { failed_count = t.failed_count + 1 }

-- The loop of `Me`.
unfoldable pub tally : Tally → List Document → Tally
tally t [] = t
tally t (d ∷ ds) = tally (counted d.status t) ds

-- The answer of `Me`. The share of the quota, a float64, is left out.
pub record Profile : Type 0 where
  pub id : String
  pub email : String
  pub used_bytes : ℕ
  pub quota_bytes : ℕ
  pub total : ℕ
  pub tallied : Tally
  pub created_at : ℕ

abbrev pub no_documents : Tally
no_documents = record { ready_count = 0; processing_count = 0; failed_count = 0 }

abbrev pub profile : User → List Document → Profile
profile user docs = record {
  id = user.id;
  email = user.email;
  used_bytes = user.storage_bytes_used;
  quota_bytes = user.storage_quota_bytes;
  total = length docs;
  tallied = tally no_documents docs;
  created_at = user.created_at;
}

abbrev pub profiled : String → Result User × Conn → Response Profile × Conn
profiled user_id (ok user, c) =
    finish internal_error (λ docs. respond 200 (profile user docs)) (list_documents user_id c)
profiled user_id (err e, c) = (missing_error "user not found" e, c)

unfoldable pub me : String → Conn → Response Profile × Conn
unfolding get_user_by_id list_documents tally
me user_id c = profiled user_id (get_user_by_id user_id c)

-- The body of the request to `Create`.
pub record KeyRequest : Type 0 where
  pub name : String
  pub expires_at : Option ℕ

module _ (hash_key : String → String) (pg : Postgres) where
  unfoldable pub create :
      Result String → String → Result KeyRequest → Conn → Response CreateResult × Conn
  unfolding Keys.create
  create random user_id (err e) c = (refuse 400 (message e), c)
  create random user_id (ok req) c =
      finish (λ _. refuse 500 "could not create API key") (respond 201)
        (Keys.create hash_key pg random user_id req.name req.expires_at c)

unfoldable pub list_keys : String → Conn → Response (List ApiKey × ℕ) × Conn
unfolding Keys.list_by_user
list_keys user_id c =
    finish internal_error (λ keys. respond 200 (keys, length keys)) (Keys.list_by_user user_id c)

unfoldable pub delete_key : String → String → Conn → Response String × Conn
unfolding Keys.delete
delete_key user_id key_id c =
    finish (missing_error "API key not found") (λ _. respond 200 "API key revoked")
      (Keys.delete key_id user_id c)
