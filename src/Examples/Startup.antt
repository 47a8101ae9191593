-- ===== src/Examples/Startup.antt =====
-- The connections that main.go makes before it serves.
use minio_3d.Base.{ℕ, suc, String, true, false, ◌≡◌, refl, List, [], ◌∷◌, ◌++◌}
use minio_3d.Errors.{plain, wrap, ok, err}
use minio_3d.Database.{Driver, MigrationFiles, connect}
use minio_3d.Storage.{MinioClient}
use minio_3d.Storage.Connect.{MinioServer, Endpoint, new_minio_storage}
use minio_3d.Storage.Local.{open_file_with_meta}

-- A driver that keeps the texts that it has been given, and refuses an empty one.
abbrev recorder : Driver (List String)
recorder = record {
  connect = λ dsn log. (ok tt, log ++ dsn ∷ []);
  exec = λ sql log. (ok tt, log ++ sql ∷ []);
}

abbrev migrations : MigrationFiles
migrations = record {
  read_dir = ok (
      record { name = "001_init.sql"; is_dir = false }
      ∷ record { name = "old"; is_dir = true }
      ∷ record { name = "002_documents.sql"; is_dir = false }
      ∷ []);
  read_file = λ path. ok path;
}

-- The files are applied in the order of the directory, and directories are skipped.
connected :
    connect recorder migrations "dsn" []
    ≡ (ok tt, "dsn" ∷ "migrations/001_init.sql" ∷ "migrations/002_documents.sql" ∷ [])
unfolding connect
connected = refl

abbrev unreadable : MigrationFiles
unreadable = record migrations { read_file = λ path. err (plain "no such file") }

-- A file that cannot be read ends the start.
unread : connect recorder unreadable "dsn" [] ≡ (
  err (wrap "db migrate" (wrap "read migration 001_init.sql" (plain "no such file"))),
  "dsn" ∷ [],
)
unfolding connect
unread = refl

-- A store whose state is the number of its buckets.
abbrev client : MinioClient ℕ
client = record {
  put_object = λ bucket key body size content_type n. (ok tt, n);
  presigned_get_object = λ bucket key ttl n. (ok key, n);
  stat_object = λ bucket key n. (ok tt, n);
  remove_object = λ bucket key n. (ok tt, n);
  to_error_response = λ e. ("", 500);
}

abbrev server : MinioServer ℕ
server = record {
  client = client;
  bucket_exists = λ bucket n. (ok false, n);
  make_bucket = λ bucket n. (ok tt, suc n);
}

abbrev endpoint : Endpoint
endpoint = record {
  address = "localhost:9000";
  access_key = "minioadmin";
  secret_key = "minioadmin";
  use_ssl = false;
}

-- A bucket that is missing is made.
made :
    new_minio_storage (λ e. ok server) endpoint "documents" 15 0
    ≡ (ok (record { client = client; bucket_name = "documents"; presigned_url_minutes = 15 }), 1)
unfolding new_minio_storage
made = refl

-- A file that cannot be read is closed again.
closed :
    open_file_with_meta
      (λ buf. "text/plain")
      (record {
        opening = ok tt;
        stat = ok 3;
        first_read = err (plain "input/output error");
        rewinding = ok tt;
      })
      4
    ≡ (err (plain "input/output error"), 4)
unfolding open_file_with_meta
closed = refl
