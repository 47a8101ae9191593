-- ===== src/Metadata/Delete.antt =====
-- storage/metadata.go: `MetadataStore.Delete`, one transaction.
pub mod Effect
use minio_3d.Base.{ℕ, ◌-◌, String, Bool, some, ◌==◌, leb, select, update, discard, if◌then◌else◌}
use minio_3d.Errors.{ok}
use minio_3d.Types.{FileMeta}
use minio_3d.Exec.{pure, ◌>>=◌, ◌>>◌, label}
use minio_3d.Sql.{
  Postgres, Sql, Statement, query, reading, transaction, one_row, chosen, or_not_found,
}
use minio_3d.Metadata.Reads.{is_owned, canonical}

pub record DeleteResult : Type 0 where
  pub object_key : String
  pub should_delete_object : Bool

-- `SELECT ... FROM files WHERE id = $1 AND user_id = $2 AND deleted_at IS NULL FOR UPDATE`
unfoldable pub fetch_file : String → String → Statement FileMeta
fetch_file file_id user_id = reading (λ t. one_row (select (is_owned file_id user_id) t.files))

-- `DELETE FROM files WHERE id = $1`
unfoldable pub hard_delete : String → Statement (Unit {0})
hard_delete id t = ok (tt, record t { files = discard (λ f. f.id == id) t.files })

-- `UPDATE files SET deleted_at = $1 WHERE id = $2`
unfoldable pub soft_delete : ℕ → String → Statement (Unit {0})
soft_delete now id t = ok (
  tt,
  record t { files = update (λ f. f.id == id) (λ f. record f { deleted_at = some now }) t.files },
)

-- `UPDATE files SET ref_count = ref_count - 1 WHERE id = $1`, on a count of two or more.
unfoldable pub decr_ref : String → Statement (Unit {0})
decr_ref id t = ok (
  tt,
  record t {
    files = update (λ f. f.id == id) (λ f. record f { ref_count = f.ref_count - 1 }) t.files;
  },
)

-- `... SET storage_bytes_used = GREATEST(0, storage_bytes_used - $1) WHERE id = $2`: a difference
-- on ℕ stops at 0.
unfoldable pub sub_usage : ℕ → String → Statement (Unit {0})
sub_usage size user_id t = ok (
  tt,
  record t {
    users =
        update (λ u. u.id == user_id)
          (λ u. record u { storage_bytes_used = u.storage_bytes_used - size }) t.users;
  },
)

module _ (pg : Postgres) (now : ℕ) (file_id user_id : String) where
  -- The two branches on the count of the canonical row; `now` is `time.Now()`.
  unfoldable pub release : FileMeta → FileMeta → Sql (Unit {0})
  unfolding query hard_delete soft_delete decr_ref ◌>>=◌
  release f canon =
      if leb canon.ref_count 1
      then label "hard delete file" (query (hard_delete f.id))
      else label "soft delete file" (query (soft_delete now f.id))
        >> label "decrement ref_count" (query (decr_ref canon.id))

  unfoldable pub delete_tx : Sql DeleteResult
  unfolding query fetch_file canonical release sub_usage ◌>>=◌
  delete_tx = do
    f ← or_not_found "fetch file for delete" (query (fetch_file file_id user_id))
    canon ←
        label "find canonical for delete" (query (reading (λ t. chosen (canonical pg f.sha256 t))))
    release f canon
    label "update storage usage on delete" (query (sub_usage f.size user_id))
    pure (record { object_key = f.object_key; should_delete_object = leb canon.ref_count 1 })

  unfoldable pub delete : Sql DeleteResult
  unfolding delete_tx transaction
  delete = transaction "commit delete" delete_tx
