-- ===== src/Examples/Queueing.antt =====
-- A document that is uploaded, and the task that the worker then handles.
use minio_3d.Base.{◌≡◌, refl, ◌++◌, [], ◌∷◌}
use minio_3d.Errors.{ok}
use minio_3d.Storage.Mock.{MockStorage, mock_storage, has, mock-IsObjectStore}
use minio_3d.Storage.Mock as Mock
use minio_3d.Paths.{base}
use minio_3d.World.{stored}
use minio_3d.Documents.Rows as Rows
use minio_3d.Documents.Rows.{update_original_path}
use minio_3d.DocumentService.{PdfHeader, UploadResult, upload}
use minio_3d.DocumentService.Production.{document_store}
use minio_3d.Worker.Tasks.{System, enqueue, extract_pages}
use minio_3d.Worker.Extract.Announce.{resting}
use minio_3d.Worker.Enqueuer.{asynq_enqueuer, store_beside, documents_beside}
use minio_3d.Worker.Extract.{handle_extract_pages}
use minio_3d.Worker.Extract.Ready.{IsReady}
use minio_3d.Worker.Journey.{upload-IsReady}
use minio_3d.Documents.Pages.{save_page}
use minio_3d.Examples.Jobs.{machine, numbering, schedule, payload}
use minio_3d.Types.{DocumentStatus}
use minio_3d.Examples.Data.{only_alice, sha256, report, empty_store}

abbrev header : PdfHeader
header = record {
  file = report;
  first_read = ok (0x25 ∷ 0x50 ∷ 0x44 ∷ 0x46 ∷ []);
  rewinding = ok tt;
}

abbrev before : System MockStorage
before = resting only_alice empty_store []

abbrev after : System MockStorage
after =
    (upload (store_beside (stored mock_storage)) (documents_beside (document_store numbering))
      sha256 asynq_enqueuer "alice" header before).1

abbrev result : UploadResult
result = record {
  document_id = "row-0";
  status = DocumentStatus.processing;
  filename = "my report.pdf";
}

upload-ends :
    upload
      (store_beside (stored mock_storage))
      (documents_beside (document_store numbering))
      sha256
      asynq_enqueuer
      "alice"
      header
      before
    ≡ (ok result, after)
unfolding upload Rows.create_document Mock.upload update_original_path enqueue base
upload-ends = refl

abbrev extracted : System MockStorage
extracted = (handle_extract_pages machine mock_storage numbering schedule (ok payload) after).1

task-ends :
    handle_extract_pages machine mock_storage numbering schedule (ok payload) after
    ≡ (ok tt, extracted)
unfolding upload Rows.create_document Mock.upload update_original_path enqueue base
    handle_extract_pages Rows.get_document_by_id Mock.get_presigned_url save_page Rows.mark_ready
task-ends = refl

upload-IsReady_example :
    (after.queue.tasks ≡ before.queue.tasks ++ extract_pages payload ∷ [])
    × IsReady has "row-0" extracted.world
upload-IsReady_example =
    upload-IsReady machine mock_storage has mock-IsObjectStore numbering sha256 "alice" header
      schedule before result after extracted upload-ends task-ends
