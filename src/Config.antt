-- ===== src/Config.antt =====
-- config/config.go: `Config`, read from the environment. `env` is `os.Getenv`, which gives an empty
-- text for a variable that is not set. `Load` does not fail, and what it prints is left out.
pub mod Environment
use minio_3d.Base.{
  ℕ, String, Bool, true, false, Option, none, some, List, [], ◌∷◌, ◌==◌, if◌then◌else◌,
}
use minio_3d.Numbers.{ℤ, pos, atoi, parse_bool}
use minio_3d.Paths.{concat}

pub record Config : Type 0 where
  pub port : String
  pub db_host : String
  pub db_port : String
  pub db_user : String
  pub db_password : String
  pub db_name : String
  pub db_ssl_mode : String
  pub storage_endpoint : String
  pub storage_access_key : String
  pub storage_secret_key : String
  pub storage_bucket : String
  pub storage_use_ssl : Bool
  pub jwt_secret : String
  pub jwt_expiry_hours : ℤ
  pub presigned_url_minutes : ℤ
  pub default_quota_bytes : ℤ
  pub redis_addr : String
  pub redis_password : String
  pub worker_concurrency : ℤ
  pub processing_timeout_minutes : ℤ
  pub rate_limit_uploads_per_minute : ℤ
  pub asynq_dashboard_enabled : Bool
  pub asynq_dashboard_port : String

module _ (env : String → String) where
  unfoldable pub get_env : String → String → String
  get_env key fallback = if env key == "" then fallback else env key

  abbrev pub or_fallback : {A : Type 0} → A → Option A → A
  or_fallback fallback none = fallback
  or_fallback fallback (some a) = a

  unfoldable pub get_env_bool : String → Bool → Bool
  get_env_bool key fallback =
      if env key == "" then fallback else or_fallback fallback (parse_bool (env key))

  -- `getEnvInt`, and `getEnvInt64`: an `int` has 64 bits.
  unfoldable pub get_env_int : String → ℤ → ℤ
  get_env_int key fallback =
      if env key == "" then fallback else or_fallback fallback (atoi (env key))

  unfoldable pub load : Config
  unfolding get_env get_env_bool get_env_int
  load = record {
    port = get_env "PORT" "8080";
    db_host = get_env "DB_HOST" "localhost";
    db_port = get_env "DB_PORT" "5432";
    db_user = get_env "DB_USER" "storageuser";
    db_password = get_env "DB_PASSWORD" "storagepass";
    db_name = get_env "DB_NAME" "storagedb";
    db_ssl_mode = get_env "DB_SSLMODE" "disable";
    storage_endpoint = get_env "STORAGE_ENDPOINT" "localhost:9000";
    storage_access_key = get_env "STORAGE_ACCESS_KEY" "minioadmin";
    storage_secret_key = get_env "STORAGE_SECRET_KEY" "minioadmin";
    storage_bucket = get_env "STORAGE_BUCKET" "documents";
    storage_use_ssl = get_env_bool "STORAGE_USE_SSL" false;
    jwt_secret = get_env "JWT_SECRET" "change-me-in-production";
    jwt_expiry_hours = get_env_int "JWT_EXPIRY_HOURS" (pos 24);
    presigned_url_minutes = get_env_int "PRESIGNED_URL_MINUTES" (pos 15);
    default_quota_bytes = get_env_int "DEFAULT_QUOTA_BYTES" (pos 10737418240);
    redis_addr = get_env "REDIS_ADDR" "localhost:6379";
    redis_password = get_env "REDIS_PASSWORD" "";
    worker_concurrency = get_env_int "WORKER_CONCURRENCY" (pos 10);
    processing_timeout_minutes = get_env_int "PROCESSING_TIMEOUT_MINUTES" (pos 30);
    rate_limit_uploads_per_minute = get_env_int "RATE_LIMIT_UPLOADS_PER_MINUTE" (pos 10);
    asynq_dashboard_enabled = get_env_bool "ASYNQ_DASHBOARD_ENABLED" true;
    asynq_dashboard_port = get_env "ASYNQ_DASHBOARD_PORT" "8081";
  }

-- `DSN`, which it also prints.
unfoldable pub dsn : Config → String
dsn c = concat (
    "host=" ∷ c.db_host ∷ " port=" ∷ c.db_port ∷ " user=" ∷ c.db_user ∷ " password=" ∷ c.db_password
    ∷ " dbname=" ∷ c.db_name ∷ " sslmode=" ∷ c.db_ssl_mode ∷ [])
