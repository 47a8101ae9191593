-- ===== src/FileService.antt =====
-- service/file_service.go: `FileService`, over the interfaces that it is built on. `W` is the state
-- of the whole system. The hash of `crypto/sha256` is a parameter.
pub mod Production
pub mod Upload
pub mod Presence
use minio_3d.Base.{ℕ, String, Bool, ◌||◌, Option, List, [], ◌∷◌, ◌==◌, if◌then◌else◌}
use minio_3d.Errors.{Error, wrap, Result, ok, err}
use minio_3d.Types.{FileMeta}
use minio_3d.Paths.{concat, base, ext, lowers_to, prefix, underscores}
use minio_3d.Exec.{Exec, pure, raise, lift, label, recover, ignore, ◌>>=◌, ◌>>◌}
use minio_3d.Storage.{Bytes, Storage}
use minio_3d.Metadata.Save.{SaveResult}
use minio_3d.Metadata.Delete.{DeleteResult}

-- `*multipart.FileHeader`: what it says of the file, and how opening, reading and seeking end.
pub record FileHeader : Type 0 where
  pub filename : String
  pub size : ℕ
  pub content_type : String
  pub opening : Result (Unit {0})
  pub content : Result Bytes
  pub seeking : Result (Unit {0})

-- `MetadataRepository`, the interface that `MetadataStore` satisfies.
pub record MetadataRepository (W : Type 0) : Type 0 where
  pub get_by_hash : String → Exec W FileMeta
  pub get_by_id : String → String → Exec W FileMeta
  pub list_by_user : String → Exec W (List FileMeta)
  pub save : String → String → String → String → String → ℕ → Exec W SaveResult
  pub delete : String → String → Exec W DeleteResult

-- `FileUploadResult`
pub record FileUploadResult : Type 0 where
  pub file : FileMeta
  pub duplicate : Bool

abbrev any_of : (String → Bool) → String → String → Bool
any_of f a b = f a || f b

unfoldable pub detect_content_type : String → String
unfolding ext lowers_to
detect_content_type filename =
    let is = lowers_to (ext filename) in
    if is ".pdf"
    then "application/pdf"
    else if is ".png"
    then "image/png"
    else if any_of is ".jpg" ".jpeg"
    then "image/jpeg"
    else if is ".gif"
    then "image/gif"
    else if is ".svg"
    then "image/svg+xml"
    else if is ".txt"
    then "text/plain"
    else if any_of is ".html" ".htm"
    then "text/html"
    else if is ".json"
    then "application/json"
    else if is ".zip"
    then "application/zip"
    else if is ".mp4"
    then "video/mp4"
    else "application/octet-stream"

unfoldable pub build_object_key : String → String → String → String
unfolding base underscores
build_object_key user_id hash filename =
    concat ("users/" ∷ user_id ∷ "/" ∷ prefix 16 hash ∷ "/" ∷ underscores (base filename) ∷ [])

-- The content type of an upload: the client's, unless it says nothing.
unfoldable pub upload_content_type : String → String → String
unfolding detect_content_type
upload_content_type said filename =
    if said == "" || said == "application/octet-stream" then detect_content_type filename else said

abbrev hash_of : (Bytes → String) → Result Bytes → Result String
hash_of sha256 (ok body) = ok (sha256 body)
hash_of sha256 (err e) = err (wrap "sha256" e)

-- `storage.ComputeSHA256`
unfoldable pub compute_sha256 : {W : Type 0} → (Bytes → String) → FileHeader → Exec W String
compute_sha256 sha256 header = lift (hash_of sha256 header.content)

module _ {W : Type 0} (sha256 : Bytes → String) (store : Storage W)
    (metadata : MetadataRepository W) where
  unfoldable pub get_meta : String → String → Exec W FileMeta
  get_meta file_id user_id = metadata.get_by_id file_id user_id

  unfoldable pub list_files : String → Exec W (List FileMeta)
  list_files user_id = metadata.list_by_user user_id

  unfoldable pub presigned_url : String → String → Exec W String
  unfolding ◌>>=◌
  presigned_url file_id user_id =
      metadata.get_by_id file_id user_id >>= λ f. store.get_presigned_url f.object_key

  unfoldable pub delete_orphaned_meta : String → String → Exec W (Unit {0})
  unfolding ◌>>=◌
  delete_orphaned_meta file_id user_id = metadata.delete file_id user_id >>= λ _. pure tt

  -- A new file's bytes go to the store; if that fails, the row is taken back.
  unfoldable pub place : String → String → Bytes → ℕ → String → SaveResult → Exec W FileUploadResult
  unfolding ◌>>=◌ delete_orphaned_meta
  place user_id object_key body size content_type saved =
      let result : FileUploadResult = record { file = saved.file; duplicate = saved.duplicate } in
      if saved.duplicate
      then pure result
      else recover (store.upload object_key body size content_type >>= λ _. pure result) λ e.
        ignore (delete_orphaned_meta saved.file.id user_id) >> raise (wrap "storage upload" e)

  unfoldable pub upload : String → FileHeader → Exec W FileUploadResult
  unfolding ◌>>=◌ place compute_sha256
  upload user_id header = do
    label "open upload" (lift header.opening)
    hash ← label "compute hash" (compute_sha256 sha256 header)
    body ← lift header.content
    label "seek after hash" (lift header.seeking)
    let content_type = upload_content_type header.content_type header.filename
    saved ←
        metadata.save user_id (build_object_key user_id hash header.filename) hash content_type
          (base header.filename) header.size
    place user_id (build_object_key user_id hash header.filename) body header.size content_type
        saved

  abbrev remove_object : DeleteResult → Exec W (Unit {0})
  remove_object result =
      if result.should_delete_object then ignore (store.delete result.object_key) else pure tt

  -- A failure of the store is printed and dropped.
  unfoldable pub delete : String → String → Exec W (Unit {0})
  unfolding ◌>>=◌
  delete file_id user_id = metadata.delete file_id user_id >>= remove_object
