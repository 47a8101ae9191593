-- ===== src/Examples/Uploads.antt =====
-- Uploads and downloads of the service on a mock store, whole runs and the theorems at them.
use minio_3d.Base.{◌≡◌, refl, true, some, List, [], ◌∷◌}
use minio_3d.Errors.{Result, ok, err, plain, wrap}
use minio_3d.Sql.{Tables, quiet}
use minio_3d.World.{World, stored}
use minio_3d.Metadata.Save.{save}
use minio_3d.Metadata.Delete.{delete as delete_row}
use minio_3d.Storage.Mock.{
  upload as mock_upload, upload_read, delete, MockStorage, mock_storage, has, mock-IsObjectStore,
}
use minio_3d.Storage.Mock.Contents as Contents
use minio_3d.Storage.Mock.Contents.{content, Call, uploading, deleting}
use minio_3d.FileService.{FileUploadResult, upload, build_object_key}
use minio_3d.FileService.Production.{metadata_store}
use minio_3d.FileService.Upload.{upload-eq-err}
use minio_3d.FileService.Presence.{AllStored, upload-AllStored}
use minio_3d.Examples.Data.{
  postgres, only_alice, first_file, with_first_file, sha256, report, empty_store,
}

-- A store that has the object of the first file, and one whose uploads fail.
abbrev stocked : MockStorage
stocked = record empty_store { objects = ("users/alice/h/a.txt", 7 ∷ []) ∷ [] }

abbrev broken : MockStorage
broken = record empty_store { upload_err = some (plain "timeout") }

abbrev at : Tables → MockStorage → World MockStorage
at t s = record { conn = quiet t; objects = s }

abbrev uploaded : Tables → MockStorage → Result FileUploadResult × World MockStorage
uploaded t s =
    upload sha256 (stored mock_storage) (metadata_store postgres 2000) "alice" report (at t s)

upload-stocked :
    has "users/alice/0123456789abcdef/my_report.pdf" (uploaded with_first_file stocked).1.objects
    ≡ true
unfolding upload has save mock_upload build_object_key
upload-stocked = refl

first-stored : has first_file.object_key stocked ≡ true
unfolding has
first-stored = refl

upload-AllStored_example :
    let (_, w') = uploaded with_first_file stocked in AllStored has w'.objects w'.conn.tables.files
upload-AllStored_example =
    upload-AllStored sha256 mock_storage has mock-IsObjectStore postgres 2000 "alice" report
      with_first_file stocked (λ _. first-stored, tt)

upload-broken :
    uploaded only_alice broken
    ≡ (err (wrap "storage upload" (plain "timeout")), at only_alice broken)
unfolding upload save mock_upload delete_row
upload-broken = refl

upload-eq-err_example : (at only_alice broken).conn.tables ≡ only_alice
upload-eq-err_example =
    upload-eq-err sha256 mock_storage postgres 2000 "alice" report only_alice broken
      (wrap "storage upload" (plain "timeout")) (at only_alice broken) upload-broken

-- A store that a body which cannot be read leaves as it was, between an upload and a deletion.
abbrev writes : List Call
writes =
    uploading "k" (ok (1 ∷ 2 ∷ []))
    ∷ uploading "k" (err (plain "unexpected EOF"))
    ∷ uploading "j" (ok (3 ∷ []))
    ∷ deleting "j"
    ∷ []

stored-k : content "k" (Contents.run writes empty_store) ≡ some (1 ∷ 2 ∷ [])
unfolding Contents.run upload_read delete
stored-k = refl
