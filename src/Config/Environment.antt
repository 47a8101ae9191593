-- ===== src/Config/Environment.antt =====
-- Settings written as variables of the environment.
use minio_3d.Base.{
  String, Bool, true, false, ◌≡◌, refl, sym, List, All, [], ◌∷◌, ◌==◌, eq_iff, if◌then◌else◌,
  Bool-cases, inl, inr,
}
use minio_3d.Numbers.{ℤ, pos, signed_decimal, is_int64, parse_bool}
use minio_3d.Numbers.Laws.{atoi-signed_decimal, signed_decimal-nonempty}
use minio_3d.Config.{Config, load, get_env, get_env_bool, get_env_int}

-- `strconv.FormatBool`
abbrev pub bool_text : Bool → String
bool_text true = "true"
bool_text false = "false"

-- The settings of a configuration, as variables.
abbrev pub settings : Config → List (String × String)
unfolding signed_decimal
settings c =
    ("PORT", c.port)
    ∷ ("DB_HOST", c.db_host)
    ∷ ("DB_PORT", c.db_port)
    ∷ ("DB_USER", c.db_user)
    ∷ ("DB_PASSWORD", c.db_password)
    ∷ ("DB_NAME", c.db_name)
    ∷ ("DB_SSLMODE", c.db_ssl_mode)
    ∷ ("STORAGE_ENDPOINT", c.storage_endpoint)
    ∷ ("STORAGE_ACCESS_KEY", c.storage_access_key)
    ∷ ("STORAGE_SECRET_KEY", c.storage_secret_key)
    ∷ ("STORAGE_BUCKET", c.storage_bucket)
    ∷ ("STORAGE_USE_SSL", bool_text c.storage_use_ssl)
    ∷ ("JWT_SECRET", c.jwt_secret)
    ∷ ("JWT_EXPIRY_HOURS", signed_decimal c.jwt_expiry_hours)
    ∷ ("PRESIGNED_URL_MINUTES", signed_decimal c.presigned_url_minutes)
    ∷ ("DEFAULT_QUOTA_BYTES", signed_decimal c.default_quota_bytes)
    ∷ ("REDIS_ADDR", c.redis_addr)
    ∷ ("REDIS_PASSWORD", c.redis_password)
    ∷ ("WORKER_CONCURRENCY", signed_decimal c.worker_concurrency)
    ∷ ("PROCESSING_TIMEOUT_MINUTES", signed_decimal c.processing_timeout_minutes)
    ∷ ("RATE_LIMIT_UPLOADS_PER_MINUTE", signed_decimal c.rate_limit_uploads_per_minute)
    ∷ ("ASYNQ_DASHBOARD_ENABLED", bool_text c.asynq_dashboard_enabled)
    ∷ ("ASYNQ_DASHBOARD_PORT", c.asynq_dashboard_port)
    ∷ []

-- The value of a variable; empty when it is not set.
abbrev pub lookup : List (String × String) → String → String
lookup [] key = ""
lookup (v ∷ vs) key = let rest = lookup vs key in if v.0 == key then v.1 else rest

unfoldable pub environment : Config → String → String
environment c key = lookup (settings c) key

-- Every text is there but for the password of Redis, and every number is an `int64`.
abbrev texts : Config → List String
texts c =
    c.port ∷ c.db_host ∷ c.db_port ∷ c.db_user ∷ c.db_password ∷ c.db_name ∷ c.db_ssl_mode
    ∷ c.storage_endpoint ∷ c.storage_access_key ∷ c.storage_secret_key ∷ c.storage_bucket
    ∷ c.jwt_secret ∷ c.redis_addr ∷ c.asynq_dashboard_port ∷ []

abbrev numbers : Config → List ℤ
numbers c =
    c.jwt_expiry_hours ∷ c.presigned_url_minutes ∷ c.default_quota_bytes ∷ c.worker_concurrency
    ∷ c.processing_timeout_minutes ∷ c.rate_limit_uploads_per_minute ∷ []

abbrev pub IsPrintable : Config → Type 0
IsPrintable c = All (λ s. (s == "") ≡ false) (texts c) × All (λ i. is_int64 i ≡ true) (numbers c)

module _ (env : String → String) (key : String) where
  get_env-set :
      (fallback v : String) → env key ≡ v → (v == "") ≡ false → get_env env key fallback ≡ v
  unfolding get_env
  get_env-set fallback v h set = rw (h, set) refl

  get_env_bool-set : (fallback b : Bool) → env key ≡ bool_text b → get_env_bool env key fallback ≡ b
  unfolding get_env_bool parse_bool
  get_env_bool-set fallback true h = rw h refl
  get_env_bool-set fallback false h = rw h refl

  get_env_int-set :
      (fallback i : ℤ)
      → env key ≡ signed_decimal i
      → is_int64 i ≡ true
      → get_env_int env key fallback ≡ i
  unfolding get_env_int
  get_env_int-set fallback i h fits =
      rw (h, signed_decimal-nonempty i, atoi-signed_decimal i fits) refl

-- A variable whose fallback is empty is read as it is.
get_env-plain : (env : String → String) (key : String) → get_env env key "" ≡ env key
unfolding get_env
get_env-plain env key = elim (Bool-cases (env key == "")) [
  | inl unset ↦ rw unset (sym ((eq_iff (env key) "").0 unset))
  | inr set ↦ rw set refl
]

-- `Load` reads back the settings of a configuration whose texts, but for the password of Redis, are
-- not empty and whose numbers are 64-bit integers, when the environment holds them.
pub load-environment : (c : Config) → IsPrintable c → load (environment c) ≡ c
unfolding load environment settings
load-environment c (full, fit) =
    let env = environment c in
    rw
      (
        get_env-set env "PORT" "8080" c.port refl full.0,
        get_env-set env "DB_HOST" "localhost" c.db_host refl full.1.0,
        get_env-set env "DB_PORT" "5432" c.db_port refl full.1.1.0,
        get_env-set env "DB_USER" "storageuser" c.db_user refl full.1.1.1.0,
        get_env-set env "DB_PASSWORD" "storagepass" c.db_password refl full.1.1.1.1.0,
        get_env-set env "DB_NAME" "storagedb" c.db_name refl full.1.1.1.1.1.0,
        get_env-set env "DB_SSLMODE" "disable" c.db_ssl_mode refl full.1.1.1.1.1.1.0,
        get_env-set env "STORAGE_ENDPOINT" "localhost:9000" c.storage_endpoint refl
            full.1.1.1.1.1.1.1.0,
        get_env-set env "STORAGE_ACCESS_KEY" "minioadmin" c.storage_access_key refl
            full.1.1.1.1.1.1.1.1.0,
        get_env-set env "STORAGE_SECRET_KEY" "minioadmin" c.storage_secret_key refl
            full.1.1.1.1.1.1.1.1.1.0,
        get_env-set env "STORAGE_BUCKET" "documents" c.storage_bucket refl
            full.1.1.1.1.1.1.1.1.1.1.0,
        get_env_bool-set env "STORAGE_USE_SSL" false c.storage_use_ssl refl,
        get_env-set env "JWT_SECRET" "change-me-in-production" c.jwt_secret refl
            full.1.1.1.1.1.1.1.1.1.1.1.0,
        get_env_int-set env "JWT_EXPIRY_HOURS" (pos 24) c.jwt_expiry_hours refl fit.0,
        get_env_int-set env "PRESIGNED_URL_MINUTES" (pos 15) c.presigned_url_minutes refl fit.1.0,
        get_env_int-set env "DEFAULT_QUOTA_BYTES" (pos 10737418240) c.default_quota_bytes refl
            fit.1.1.0,
        get_env-set env "REDIS_ADDR" "localhost:6379" c.redis_addr refl
            full.1.1.1.1.1.1.1.1.1.1.1.1.0,
        get_env-plain env "REDIS_PASSWORD",
        get_env_int-set env "WORKER_CONCURRENCY" (pos 10) c.worker_concurrency refl fit.1.1.1.0,
        get_env_int-set env "PROCESSING_TIMEOUT_MINUTES" (pos 30) c.processing_timeout_minutes refl
            fit.1.1.1.1.0,
        get_env_int-set env "RATE_LIMIT_UPLOADS_PER_MINUTE" (pos 10) c.rate_limit_uploads_per_minute
            refl fit.1.1.1.1.1.0,
        get_env_bool-set env "ASYNQ_DASHBOARD_ENABLED" true c.asynq_dashboard_enabled refl,
        get_env-set env "ASYNQ_DASHBOARD_PORT" "8081" c.asynq_dashboard_port refl
            full.1.1.1.1.1.1.1.1.1.1.1.1.1.0,
      )
      refl
