-- ===== src/Handlers/Files.antt =====
-- handlers/files.go: `FileHandler`, over the file service.
use minio_3d.Base.{ℕ, String, Bool, true, false, Option, none, some, List, length}
use minio_3d.Errors.{Result, ok, err}
use minio_3d.Types.{FileMeta}
use minio_3d.Storage.{Bytes, Storage}
use minio_3d.World.{World}
use minio_3d.FileService as Service
use minio_3d.FileService.{FileHeader, FileUploadResult, MetadataRepository}
use minio_3d.Handlers.{
  Response, respond, refuse, internal_error, missing_error, quota_error, finish,
}

-- The fields of the answer to an upload.
pub record Uploaded : Type 0 where
  pub file : FileMeta
  pub duplicate : Bool
  pub message : Option String

abbrev pub upload_answer : FileMeta → Bool → Response Uploaded
upload_answer file true = respond 200 (record {
  file = file;
  duplicate = true;
  message = some "file already exists; returning existing record";
})
upload_answer file false = respond 201 (record { file = file; duplicate = false; message = none })

abbrev pub uploaded_response : FileUploadResult → Response Uploaded
uploaded_response r = upload_answer r.file r.duplicate

module _ {W : Type 0} (sha256 : Bytes → String) (store : Storage W) (meta : MetadataRepository W)
    (user_id : String) where
  -- `Upload`, given what `c.FormFile("file")` returns.
  unfoldable pub upload : Result FileHeader → W → Response Uploaded × W
  unfolding Service.upload
  upload (err e) w = (refuse 400 "field 'file' is required", w)
  upload (ok header) w =
      finish quota_error uploaded_response (Service.upload sha256 store meta user_id header w)

  unfoldable pub list : W → Response (List FileMeta × ℕ) × W
  unfolding Service.list_files
  list w =
      finish internal_error (λ files. respond 200 (files, length files))
        (Service.list_files sha256 store meta user_id w)

  unfoldable pub get : String → W → Response FileMeta × W
  unfolding Service.get_meta
  get file_id w =
      finish (missing_error "file not found") (respond 200)
        (Service.get_meta sha256 store meta file_id user_id w)

  unfoldable pub presigned_url : String → W → Response String × W
  unfolding Service.presigned_url
  presigned_url file_id w =
      finish (missing_error "file not found") (respond 200)
        (Service.presigned_url sha256 store meta file_id user_id w)

  unfoldable pub delete : String → W → Response String × W
  unfolding Service.delete
  delete file_id w =
      finish (missing_error "file not found") (λ _. respond 200 "file deleted")
        (Service.delete sha256 store meta file_id user_id w)
