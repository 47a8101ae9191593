-- ===== src/Examples/Data.antt =====
-- The data that the examples share: a database that numbers its rows and reads tables in order.
use minio_3d.Base.{ℕ, suc, zero, String, none, some, [], ◌∷◌, length}
use minio_3d.Errors.{ok}
use minio_3d.Types.{User, FileMeta}
use minio_3d.Sql.{Tables, Postgres}
use minio_3d.Storage.{Bytes}
use minio_3d.Storage.Mock.{MockStorage}
use minio_3d.FileService.{FileHeader}

abbrev pub row_name : ℕ → String
row_name zero = "row-0"
row_name (suc zero) = "row-1"
row_name (suc (suc zero)) = "row-2"
row_name (suc (suc (suc n))) = "row-3"

abbrev pub postgres : Postgres
postgres = record { new_id = λ t. row_name (length t.files); now = λ t. 1000; choose = λ rows. 0 }

abbrev pub alice : User
alice = record {
  id = "alice";
  email = "alice@example.com";
  password_hash = "hash";
  storage_bytes_used = 0;
  storage_quota_bytes = 100;
  created_at = 1;
}

abbrev pub only_alice : Tables
only_alice = record {
  users = alice ∷ [];
  files = [];
  documents = [];
  pages = [];
  webhooks = [];
  api_keys = [];
}

-- The row and the tables after Alice has saved ten bytes.
abbrev pub first_file : FileMeta
first_file = record {
  id = "row-0";
  user_id = "alice";
  object_key = "users/alice/h/a.txt";
  sha256 = "h";
  size = 10;
  content_type = "text/plain";
  ref_count = 1;
  original_name = "a.txt";
  created_at = 1000;
  deleted_at = none;
}

abbrev pub with_first_file : Tables
with_first_file = record only_alice {
  users = record alice { storage_bytes_used = 10 } ∷ [];
  files = first_file ∷ [];
}

-- Two more rows of the same object, of two other users.
abbrev pub bob : User
bob = record alice { id = "bob"; email = "bob@example.com" }

abbrev pub carol : User
carol = record alice { id = "carol"; email = "carol@example.com" }

abbrev pub second_file : FileMeta
second_file = record first_file { id = "row-1"; user_id = "bob" }

abbrev pub third_file : FileMeta
third_file = record first_file { id = "row-2"; user_id = "carol" }

-- Three users, none with a file, and the tables after each has saved the same bytes and Alice has
-- deleted her file again.
abbrev pub three_users : Tables
three_users = record only_alice { users = alice ∷ bob ∷ carol ∷ [] }

abbrev pub after_alice : Tables
after_alice = record only_alice {
  users =
      alice
      ∷ record bob { storage_bytes_used = 10 }
      ∷ record carol { storage_bytes_used = 10 }
      ∷ [];
  files =
      record first_file { ref_count = 2; deleted_at = some 2000 } ∷ second_file ∷ third_file ∷ [];
}

abbrev pub sha256 : Bytes → String
sha256 body = "0123456789abcdef0123456789abcdef0123456789abcdef0123456789abcdef"

abbrev pub report : FileHeader
report = record {
  filename = "my report.pdf";
  size = 3;
  content_type = "";
  opening = ok tt;
  content = ok (1 ∷ 2 ∷ 3 ∷ []);
  seeking = ok tt;
}

abbrev pub empty_store : MockStorage
empty_store = record { objects = []; upload_err = none; get_presign_err = none; delete_err = none }
