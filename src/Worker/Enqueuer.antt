-- ===== src/Worker/Enqueuer.antt =====
-- service/document_service.go: `AsynqEnqueuer`, which puts the task of an upload on the queue, and
-- the document service on the system that has this queue.
use minio_3d.Base.{String, ◌≡◌, [], ◌∷◌, ◌++◌, arith}
use minio_3d.Errors.{Result, ok}
use minio_3d.Storage.{Bytes, Storage}
use minio_3d.World.{World}
use minio_3d.DocumentService.{DocumentRepository, TaskEnqueuer, PdfHeader, UploadResult, upload}
use minio_3d.Worker.Tasks.{System, enqueue, new_extract_pages_task, on_world, on_queue}

abbrev pub asynq_enqueuer : {S : Type 0} → TaskEnqueuer (System S)
asynq_enqueuer = record {
  enqueue_task = λ doc_id user_id. on_queue (enqueue (new_extract_pages_task doc_id user_id));
}

-- The store and the repository do not touch the queue.
abbrev pub store_beside : {S : Type 0} → Storage (World S) → Storage (System S)
store_beside store = record {
  upload = λ key body size content_type. on_world (store.upload key body size content_type);
  get_presigned_url = λ key. on_world (store.get_presigned_url key);
  exists = λ key. on_world (store.exists key);
  delete = λ key. on_world (store.delete key);
}

abbrev pub documents_beside :
    {S : Type 0} → DocumentRepository (World S) → DocumentRepository (System S)
documents_beside docs = record {
  create_document = λ user_id filename minio_path hash size_bytes.
      on_world (docs.create_document user_id filename minio_path hash size_bytes);
  get_document = λ id user_id. on_world (docs.get_document id user_id);
  list_documents = λ user_id. on_world (docs.list_documents user_id);
  mark_failed = λ doc_id err_msg. on_world (docs.mark_failed doc_id err_msg);
  update_original_path = λ doc_id path. on_world (docs.update_original_path doc_id path);
  get_page = λ doc_id number. on_world (docs.get_page doc_id number);
  get_page_range = λ doc_id start end. on_world (docs.get_page_range doc_id start end);
  list_pages = λ doc_id. on_world (docs.list_pages doc_id);
  create_webhook =
      λ user_id doc_id url secret. on_world (docs.create_webhook user_id doc_id url secret);
  delete_document = λ id user_id. on_world (docs.delete_document id user_id);
}

module _ {S : Type 0} (store : Storage (World S)) (docs : DocumentRepository (World S))
    (sha256 : Bytes → String) (user_id : String) (header : PdfHeader) where
  abbrev pub uploading : System S → Result UploadResult × System S
  uploading =
      upload (store_beside store) (documents_beside docs) sha256 asynq_enqueuer user_id header

  -- An upload of a document that ends well has put one task behind the tasks of the queue: the
  -- extraction of the document that it returns, for its user.
  pub upload-enqueue :
      (s : System S) (r : UploadResult) (s' : System S)
      → uploading s ≡ (ok r, s')
      → s'.queue.tasks ≡ s.queue.tasks ++ new_extract_pages_task r.document_id user_id ∷ []
  unfolding upload enqueue
  upload-enqueue s r s' h = ground arith
