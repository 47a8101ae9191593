-- ===== src/Metadata/Save.antt =====
-- storage/metadata.go: `MetadataStore.Save`, one transaction.
pub mod Effect
use minio_3d.Base.{
  ℕ, ◌+◌, ◌^◌, String, Bool, not, ◌||◌, ◌&&◌, Option, none, some, List, [], ◌∷◌, ◌++◌, ◌==◌, ltb,
  leb, any, select, update, if◌then◌else◌,
}
use minio_3d.Errors.{Sentinel, sentinel, Result, ok, err}
use minio_3d.Types.{User, FileMeta, is_null}
use minio_3d.Exec.{pure, ◌>>=◌, ◌>>◌, guard, label}
use minio_3d.Sql.{
  Tables, Postgres, Sql, Statement, query, reading, transaction, violation, out_of_range,
}
use minio_3d.Metadata.Reads.{canonical}

pub record SaveResult : Type 0 where
  pub file : FileMeta
  pub duplicate : Bool

-- The bounds of BIGINT (and of Go's `int64`) and of INT.
abbrev pub int64_end : ℕ
int64_end = 2 ^ 63

abbrev pub int32_end : ℕ
int32_end = 2 ^ 31

-- `bytesUsed+size > quota` on `int64`: a sum past the end is negative, and so no larger.
abbrev pub exceeds : ℕ → ℕ → ℕ → Bool
exceeds used size quota = ltb (used + size) int64_end && ltb quota (used + size)

abbrev pub quotas : List User → Result (ℕ × ℕ)
quotas [] = err (sentinel Sentinel.no_rows)
quotas (u ∷ _) = ok (u.storage_bytes_used, u.storage_quota_bytes)

-- `SELECT storage_bytes_used, storage_quota_bytes FROM users WHERE id = $1 FOR UPDATE`
unfoldable pub lock_user : String → Statement (ℕ × ℕ)
lock_user user_id = reading (λ t. quotas (select (λ u. u.id == user_id) t.users))

-- `UPDATE users SET storage_bytes_used = storage_bytes_used + $1 WHERE id = $2`
unfoldable pub add_usage : ℕ → String → Statement (Unit {0})
add_usage size user_id t =
    if any (λ u. u.id == user_id && leb int64_end (u.storage_bytes_used + size)) t.users
    then err out_of_range
    else ok (
      tt,
      record t {
        users =
            update (λ u. u.id == user_id)
              (λ u. record u { storage_bytes_used = u.storage_bytes_used + size }) t.users;
      },
    )

-- `UPDATE files SET ref_count = ref_count + 1 WHERE id = $1`
unfoldable pub incr_ref : String → Statement (Unit {0})
incr_ref id t =
    if any (λ f. f.id == id && leb int32_end (f.ref_count + 1)) t.files
    then err out_of_range
    else ok (
      tt,
      record t {
        files = update (λ f. f.id == id) (λ f. record f { ref_count = f.ref_count + 1 }) t.files;
      },
    )

-- The row that both INSERT statements describe; `ref_count` is 1.
unfoldable pub new_file :
    Postgres → String → String → String → ℕ → String → String → Tables → FileMeta
new_file pg user_id object_key hash size content_type original_name t = record {
  id = pg.new_id t;
  user_id = user_id;
  object_key = object_key;
  sha256 = hash;
  size = size;
  content_type = content_type;
  ref_count = 1;
  original_name = original_name;
  created_at = pg.now t;
  deleted_at = none;
}

-- `INSERT INTO files ... RETURNING ...`: `id` is unique, and `user_id` refers to a user.
unfoldable pub insert_file : FileMeta → Statement FileMeta
insert_file f t =
    if any (λ g. g.id == f.id) t.files || not (any (λ u. u.id == f.user_id) t.users)
    then err violation
    else ok (f, record t { files = t.files ++ f ∷ [] })

module _ (pg : Postgres) (user_id object_key hash content_type original_name : String)
    (size : ℕ) where
  unfoldable pub insert_row : String → Statement FileMeta
  unfolding insert_file new_file
  insert_row key t = insert_file (new_file pg user_id key hash size content_type original_name t) t

  -- Step 3 and the two branches: a hit on the hash shares the object of the row that was found.
  unfoldable pub record_file : Option FileMeta → Sql FileMeta
  unfolding query insert_row incr_ref ◌>>=◌
  record_file none = label "insert new file" (query (insert_row object_key))
  record_file (some existing) =
      label "increment ref_count" (query (incr_ref existing.id))
      >> label "insert dedup row" (query (insert_row existing.object_key))

  unfoldable pub save_tx : Sql SaveResult
  unfolding query lock_user canonical record_file add_usage ◌>>=◌
  save_tx = do
    quota ← label "lock user" (query (lock_user user_id))
    guard (not (exceeds quota.0 size quota.1)) (sentinel Sentinel.quota_exceeded)
    existing ← label "find canonical" (query (reading (λ t. ok (canonical pg hash t))))
    file ← record_file existing
    label "update storage usage" (query (add_usage size user_id))
    pure (record { file = file; duplicate = not (is_null existing) })

  unfoldable pub save : Sql SaveResult
  unfolding save_tx transaction
  save = transaction "commit" save_tx
