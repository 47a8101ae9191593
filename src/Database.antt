-- ===== src/Database.antt =====
-- db/db.go: `Connect`, which opens the database and applies the migrations that are built into the
-- program. The driver and the files are parameters; the settings of the pool are left out.
use minio_3d.Base.{String, Bool, List, [], ◌∷◌, if◌then◌else◌}
use minio_3d.Errors.{Result}
use minio_3d.Exec.{Exec, pure, lift, label, ◌>>=◌, ◌>>◌}
use minio_3d.Paths.{concat}

pub record Entry : Type 0 where
  pub name : String
  pub is_dir : Bool

-- `sqlx.Connect` and `db.Exec`, on the state of the database.
pub record Driver (W : Type 0) : Type 0 where
  pub connect : String → Exec W (Unit {0})
  pub exec : String → Exec W (Unit {0})

-- The embedded directory.
pub record MigrationFiles : Type 0 where
  pub read_dir : Result (List Entry)
  pub read_file : String → Result String

module _ {W : Type 0} (driver : Driver W) (files : MigrationFiles) where
  unfoldable pub run_migration : Entry → Exec W (Unit {0})
  unfolding ◌>>=◌
  run_migration entry =
      if entry.is_dir
      then pure tt
      else label (concat ("read migration " ∷ entry.name ∷ []))
          (lift (files.read_file (concat ("migrations/" ∷ entry.name ∷ []))))
        >>= λ sql. label (concat ("exec migration " ∷ entry.name ∷ [])) (driver.exec sql)

  -- The loop of `runMigrations`.
  unfoldable pub run_each : List Entry → Exec W (Unit {0})
  unfolding ◌>>=◌ run_migration
  run_each [] = pure tt
  run_each (entry ∷ entries) = run_migration entry >> run_each entries

  unfoldable pub run_migrations : Exec W (Unit {0})
  unfolding ◌>>=◌ run_each
  run_migrations = lift files.read_dir >>= run_each

  unfoldable pub connect : String → Exec W (Unit {0})
  unfolding ◌>>=◌ run_migrations
  connect dsn = label "db connect" (driver.connect dsn) >> label "db migrate" run_migrations
