-- ===== src/Mocks/Metadata.antt =====
-- testutil/testutil.go: `MockMeta`, the users and files in memory.
use minio_3d.Base.{
  ℕ, String, true, ◌&&◌, Option, none, some, List, [], ◌∷◌, ◌==◌, any, select, not, if◌then◌else◌,
}
use minio_3d.Errors.{Error, plain, ok, err}
use minio_3d.Exec.{Exec, failing}
use minio_3d.Maps.{GoMap, find, put, remove, values, string_key}
use minio_3d.Paths.{concat, prefix}
use minio_3d.Types.{User, FileMeta, is_null}
use minio_3d.Metadata.Save.{SaveResult}
use minio_3d.Metadata.Delete.{DeleteResult}
use minio_3d.FileService.{MetadataRepository}
use minio_3d.Handlers.Accounts.{UserRepository}
use minio_3d.Mocks.Documents.{or_missing}

-- `files` and `by_hash` point to the same rows, which no method writes to.
pub record MockMeta : Type 0 where
  pub users : GoMap String User
  pub files : GoMap String FileMeta
  pub by_hash : GoMap String FileMeta
  pub save_err : Option Error
  pub delete_err : Option Error

-- `NewMockMeta`
abbrev pub new_mock_meta : MockMeta
new_mock_meta = record { users = []; files = []; by_hash = []; save_err = none; delete_err = none }

unfoldable pub add_user : User → MockMeta → MockMeta
add_user u m = record m { users = put u.id u m.users }

unfoldable pub add_file : FileMeta → MockMeta → MockMeta
add_file f m = record m { files = put f.id f m.files; by_hash = put f.sha256 f m.by_hash }

unfoldable pub get_by_hash : String → Exec MockMeta FileMeta
get_by_hash hash m = (or_missing (find hash m.by_hash), m)

-- `!ok || f.UserID != userID || f.DeletedAt != nil`
abbrev visible : String → Option FileMeta → Option FileMeta
visible user_id none = none
visible user_id (some f) = if f.user_id == user_id && is_null f.deleted_at then some f else none

unfoldable pub get_by_id : String → String → Exec MockMeta FileMeta
get_by_id id user_id m = (or_missing (visible user_id (find id m.files)), m)

-- `DELETE` of a row, which always lets the object go.
abbrev forgotten : String → String → Option FileMeta → Exec MockMeta DeleteResult
forgotten file_id user_id none m = (or_missing none, m)
forgotten file_id user_id (some f) m =
    if f.user_id == user_id
    then (
      ok (record { object_key = f.object_key; should_delete_object = true }),
      record m { files = remove file_id m.files; by_hash = remove f.sha256 m.by_hash },
    )
    else (or_missing none, m)

unfoldable pub delete : String → String → Exec MockMeta DeleteResult
delete file_id user_id m =
    failing m.delete_err (λ m. forgotten file_id user_id (find file_id m.files) m) m

abbrev first : List User → Option User
first [] = none
first (u ∷ us) = some u

-- The orders in which `range` goes through the maps, and the reading of the clock.
module _ (users_order : List User → List User) (files_order : List FileMeta → List FileMeta)
    (now : ℕ) where
  unfoldable pub list_by_user : String → Exec MockMeta (List FileMeta)
  list_by_user user_id m = (
    ok (select (λ f. f.user_id == user_id && is_null f.deleted_at) (files_order (values m.files))),
    m,
  )

  -- The hash has 64 characters. `RefCount` and `DeletedAt` are zero values.
  unfoldable pub save : String → String → String → String → String → ℕ → Exec MockMeta SaveResult
  save user_id object_key hash content_type original_name size m =
      let f : FileMeta = record {
        id = concat ("file-" ∷ prefix 8 hash ∷ []);
        user_id = user_id;
        object_key = object_key;
        sha256 = hash;
        size = size;
        content_type = content_type;
        ref_count = 0;
        original_name = original_name;
        created_at = now;
        deleted_at = none;
      } in
      failing m.save_err
        (λ m. (
          ok (record { file = f; duplicate = not (is_null (find hash m.by_hash)) }),
          record m { files = put f.id f m.files; by_hash = put hash f m.by_hash },
        ))
        m

  unfoldable pub create_user : String → String → ℕ → Exec MockMeta User
  create_user email password_hash quota_bytes m =
      let u : User = record {
        id = concat ("user-" ∷ email ∷ []);
        email = email;
        password_hash = password_hash;
        storage_bytes_used = 0;
        storage_quota_bytes = quota_bytes;
        created_at = now;
      } in
      if any (λ v. v.email == email) (users_order (values m.users))
      then (err (plain "duplicate email"), m)
      else (ok u, record m { users = put u.id u m.users })

  unfoldable pub get_user_by_email : String → Exec MockMeta User
  get_user_by_email email m =
      (or_missing (first (select (λ u. u.email == email) (users_order (values m.users)))), m)

  abbrev pub mock_metadata : MetadataRepository MockMeta
  mock_metadata = record {
    get_by_hash = get_by_hash;
    get_by_id = get_by_id;
    list_by_user = list_by_user;
    save = save;
    delete = delete;
  }

  abbrev pub mock_users : UserRepository MockMeta
  mock_users = record { create_user = create_user; get_user_by_email = get_user_by_email }
