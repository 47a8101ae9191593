-- ===== src/Worker/Journey.antt =====
-- service/document_service.go and worker/processor.go together: a document from its upload to its
-- pages.
mod Uploaded
use mathlib.Core.Path.{subst}
use minio_3d.Base.{
  ℕ, String, Bool, true, false, ◌≡◌, ◌≢◌, inl, inr, refl, sym, ap, ◌∙◌, List, [], ◌∷◌, ◌++◌, ◌==◌,
  eq_refl, any, arith,
}
use minio_3d.Errors.{Result, ok, err}
use minio_3d.Paths.{base}
use minio_3d.Exec.{Exec, label, lift, pure, ◌>>=◌}
use minio_3d.Exec.Laws.{>>=-eq-ok, relabel-eq-ok, guard-eq-ok}
use minio_3d.Types.{Document, processing}
use minio_3d.Sql.{Sql, Tables, Postgres, Conn}
use minio_3d.Counts.{any-last, any-update}
use minio_3d.Sql.Choice.{select-eq-nil}
use minio_3d.Storage.{Bytes, Storage, IsObjectStore}
use minio_3d.World.{stored, on_conn}
use minio_3d.Documents.Rows as Rows
use minio_3d.Documents.Changes.{rows_of, update_original_path-eq-ok}
use minio_3d.Documents.Usage.{create_document-Created}
use minio_3d.DocumentService.{
  DocumentRepository, PdfHeader, UploadResult, upload, store_original, validate_pdf,
}
use minio_3d.DocumentService.Production.{document_store}
use minio_3d.Worker.Tasks.{System, on_world, new_extract_pages_task}
use minio_3d.Worker.Enqueuer.{
  store_beside, documents_beside, uploading, upload-enqueue, asynq_enqueuer,
}
use minio_3d.Worker.Tasks.{ExtractPagesPayload, extract_pages}
use minio_3d.Worker.Pool.{Machine}
use minio_3d.Worker.Extract.{handle_extract_pages}
use minio_3d.Worker.Extract.Ready.{IsReady, handle_extract_pages-ready}
use minio_3d.FileService.{FileHeader, compute_sha256}
use minio_3d.Worker.Journey.Uploaded.{uploaded-row}

module _ {S : Type 0} (machine : Machine) (store : Storage S) (holds : String → S → Bool)
    (laws : IsObjectStore store holds) (pg : Postgres) (sha256 : Bytes → String) (user_id : String)
    (header : PdfHeader) (schedule : List ℕ) where
  -- The task that the upload of a document has to put on the queue.
  abbrev pub its_extraction : UploadResult → ExtractPagesPayload
  its_extraction r = record { document_id = r.document_id; user_id = user_id }

  -- Over a store that keeps its laws: an upload of a document that ends well has put one task behind
  -- those of the queue, the extraction of the document that it returns, for its user; and when the
  -- worker then handles this task and ends without an error, the document is ready: it has some
  -- number of pages, not zero, and from the first to the last of them each has a row that `GetPage`
  -- finds and an object in the store.
  pub upload-IsReady :
      (s : System S) (r : UploadResult) (s₁ s₂ : System S)
      → uploading (stored store) (document_store pg) sha256 user_id header s ≡ (ok r, s₁)
      → handle_extract_pages machine store pg schedule (ok (its_extraction r)) s₁ ≡ (ok tt, s₂)
      → (s₁.queue.tasks ≡ s.queue.tasks ++ extract_pages (its_extraction r) ∷ [])
        × IsReady holds r.document_id s₂.world
  upload-IsReady s r s₁ s₂ h handled = (
    upload-enqueue (stored store) (document_store pg) sha256 user_id header s r s₁ h,
    elim (handle_extract_pages-ready machine store holds laws pg schedule (its_extraction r) s₁ s₂
        handled) [
          | inl (missing, _, _, _) ↦
              absurd (uploaded-row store pg sha256 user_id header s r s₁ h missing)
          | inr ready ↦ ready
        ],
  )
