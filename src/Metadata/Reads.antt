-- ===== src/Metadata/Reads.antt =====
-- storage/metadata.go: creating users, and the methods that only read. A statement is a function on
-- the tables, and a method runs its statements by `query`, one for each call of the driver.
use minio_3d.Base.{
  ℕ, String, Bool, ◌||◌, ◌&&◌, List, [], ◌∷◌, ◌++◌, ◌==◌, leb, any, select, order_by, if◌then◌else◌,
  Option,
}
use minio_3d.Errors.{ok, err}
use minio_3d.Types.{User, FileMeta, is_null}
use minio_3d.Exec.{label}
use minio_3d.Sql.{
  Tables, Postgres, Sql, Statement, query, reading, violation, one_row, chosen, limit_one,
  or_not_found,
}

-- `INSERT INTO users ... RETURNING ...`: `email` and `id` are unique.
unfoldable pub insert_user : Postgres → String → String → ℕ → Statement User
insert_user pg email password_hash quota t =
    let user : User = record {
      id = pg.new_id t;
      email = email;
      password_hash = password_hash;
      storage_bytes_used = 0;
      storage_quota_bytes = quota;
      created_at = pg.now t;
    } in
    if any (λ u. u.email == email || u.id == pg.new_id t) t.users
    then err violation
    else ok (user, record t { users = t.users ++ user ∷ [] })

unfoldable pub create_user : Postgres → String → String → ℕ → Sql User
unfolding insert_user query
create_user pg email password_hash quota =
    label "create user" (query (insert_user pg email password_hash quota))

unfoldable pub get_user_by_email : String → Sql User
unfolding query
get_user_by_email email =
    or_not_found "get user by email"
      (query (reading (λ t. one_row (select (λ u. u.email == email) t.users))))

unfoldable pub get_user_by_id : String → Sql User
unfolding query
get_user_by_id id =
    or_not_found "get user by id"
      (query (reading (λ t. one_row (select (λ u. u.id == id) t.users))))

-- `sha256 = $1 AND deleted_at IS NULL`
abbrev pub holds_hash : String → FileMeta → Bool
holds_hash hash f = f.sha256 == hash && is_null f.deleted_at

-- `id = $1 AND user_id = $2 AND deleted_at IS NULL`
abbrev pub is_owned : String → String → FileMeta → Bool
is_owned id user_id f = f.id == id && (f.user_id == user_id && is_null f.deleted_at)

-- The active row with the hash that `LIMIT 1` returns.
unfoldable pub canonical : Postgres → String → Tables → Option FileMeta
unfolding limit_one
canonical pg hash t = limit_one pg.choose (select (holds_hash hash) t.files)

unfoldable pub get_by_hash : Postgres → String → Sql FileMeta
unfolding query canonical
get_by_hash pg hash =
    or_not_found "get by hash" (query (reading (λ t. chosen (canonical pg hash t))))

unfoldable pub get_by_id : String → String → Sql FileMeta
unfolding query
get_by_id id user_id =
    or_not_found "get by id" (query (reading (λ t. one_row (select (is_owned id user_id) t.files))))

-- `ORDER BY created_at DESC`
abbrev pub newest_first : FileMeta → FileMeta → Bool
newest_first f g = leb g.created_at f.created_at

unfoldable pub list_by_user : String → Sql (List FileMeta)
unfolding query
list_by_user user_id = label "list by user" (
    query (
      reading (λ t. ok (
        order_by newest_first
          (select (λ f. f.user_id == user_id && is_null f.deleted_at) t.files)))))
