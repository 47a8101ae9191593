-- ===== src/Examples/Settings.antt =====
-- A configuration as variables of the environment.
use minio_3d.Base.{◌≡◌, refl}
use minio_3d.Numbers.{negsuc}
use minio_3d.Config.{Config, load, dsn}
use minio_3d.Config.Environment.{environment, load-environment}

-- An environment without variables gives the defaults.
abbrev defaults : Config
unfolding load
defaults = load (λ key. "")

default_dsn :
    dsn defaults
    ≡ "host=localhost port=5432 user=storageuser password=storagepass dbname=storagedb sslmode=disable"
unfolding dsn defaults
default_dsn = refl

-- The defaults with a password of Redis, and no end to the processing.
abbrev changed : Config
changed = record defaults { redis_password = "secret"; processing_timeout_minutes = negsuc 0 }

load-environment_example : load (environment changed) ≡ changed
unfolding load
load-environment_example = load-environment changed (
  (
    refl,
    (
      refl,
      (
        refl,
        (refl, (refl, (refl, (refl, (refl, (refl, (refl, (refl, (refl, (refl, (refl, tt))))))))))),
      ),
    ),
  ),
  (refl, (refl, (refl, (refl, (refl, (refl, tt)))))),
)
