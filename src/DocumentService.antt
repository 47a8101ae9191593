-- ===== src/DocumentService.antt =====
-- service/document_service.go: `DocumentService`, over the interfaces that it is built on. `W` is the
-- state of the whole system. Goroutines run at once, and what they print is left out.
pub mod Pages
pub mod Archive
pub mod Production
use minio_3d.Base.{
  ℕ, String, Bool, true, false, ◌&&◌, Option, none, some, List, [], ◌∷◌, eqb, ltb, if◌then◌else◌,
}
use minio_3d.Errors.{plain, wrap, Sentinel, sentinel, Result, ok, err, message}
use minio_3d.Types.{
  Document, DocumentStatus, processing, ready, failed, DocumentPage, WebhookSubscription,
}
use minio_3d.Numbers.{decimal}
use minio_3d.Paths.{concat, base}
use minio_3d.Exec.{Exec, pure, raise, lift, label, recover, ignore, guard, ◌>>=◌, ◌>>◌}
use minio_3d.Storage.{Bytes, Storage}
use minio_3d.FileService.{FileHeader, compute_sha256}

-- `DocumentRepository`, the interface that `DocumentStore` satisfies, as far as the service calls it.
pub record DocumentRepository (W : Type 0) : Type 0 where
  pub create_document : String → String → String → String → ℕ → Exec W Document
  pub get_document : String → String → Exec W Document
  pub list_documents : String → Exec W (List Document)
  pub mark_failed : String → String → Exec W (Unit {0})
  pub update_original_path : String → String → Exec W (Unit {0})
  pub get_page : String → ℕ → Exec W DocumentPage
  pub get_page_range : String → ℕ → ℕ → Exec W (List DocumentPage)
  pub list_pages : String → Exec W (List DocumentPage)
  pub create_webhook : String → String → String → String → Exec W WebhookSubscription
  pub delete_document : String → String → Exec W Document

-- `TaskEnqueuer`
pub record TaskEnqueuer (W : Type 0) : Type 0 where
  pub enqueue_task : String → String → Exec W (Unit {0})

-- `UploadResult`
pub record UploadResult : Type 0 where
  pub document_id : String
  pub status : DocumentStatus
  pub filename : String

-- `PageWithURL`
pub record PageWithUrl : Type 0 where
  pub page_number : ℕ
  pub size_bytes : ℕ
  pub url : String

-- The upload of a PDF: what the first read of at most eight bytes gives, where the end of the file is
-- no error, and how going back to the start ends.
pub record PdfHeader : Type 0 where
  pub file : FileHeader
  pub first_read : Result Bytes
  pub rewinding : Result (Unit {0})

-- The bytes of "%PDF".
unfoldable pub has_magic : Bytes → Bool
has_magic (a ∷ b ∷ c ∷ d ∷ _) = eqb a 0x25 && (eqb b 0x50 && (eqb c 0x44 && eqb d 0x46))
has_magic _ = false

unfoldable pub validate_pdf : {W : Type 0} → Result Bytes → Exec W (Unit {0})
unfolding ◌>>=◌ has_magic
validate_pdf first_read = label "read header" (lift first_read) >>= λ bytes.
    guard (has_magic bytes) (sentinel Sentinel.invalid_pdf)

abbrev pub is_ready : DocumentStatus → Bool
is_ready processing = false
is_ready ready = true
is_ready failed = false

-- `if doc.TotalPages != nil && end > *doc.TotalPages { end = *doc.TotalPages }`
abbrev pub clamp_end : Option ℕ → ℕ → ℕ
clamp_end none end = end
clamp_end (some total) end = if ltb total end then total else end

-- `if start < 1 { start = 1 }`
abbrev pub clamp_start : ℕ → ℕ
clamp_start start = if ltb start 1 then 1 else start

abbrev pub is_empty : List DocumentPage → Bool
is_empty [] = true
is_empty (_ ∷ _) = false

module _ {W : Type 0} (store : Storage W) (docs : DocumentRepository W) where
  -- The steps of `Upload` once the row is there: a failure of the store marks the row.
  unfoldable pub store_original : Document → Bytes → ℕ → Exec W String
  unfolding ◌>>=◌
  store_original doc body size =
      let minio_path = concat ("documents/" ∷ doc.id ∷ "/original.pdf" ∷ []) in
      recover (store.upload minio_path body size "application/pdf" >>= λ _. pure minio_path) λ e.
        ignore (docs.mark_failed doc.id (concat ("upload failed: " ∷ message e ∷ [])))
        >> raise (wrap "store original" e)

  unfoldable pub upload :
      (Bytes → String) → TaskEnqueuer W → String → PdfHeader → Exec W UploadResult
  unfolding ◌>>=◌ validate_pdf compute_sha256 store_original
  upload sha256 enqueuer user_id header = do
    label "open upload" (lift header.file.opening)
    validate_pdf header.first_read
    label "seek" (lift header.rewinding)
    hash ← label "sha256" (compute_sha256 sha256 header.file)
    body ← lift header.file.content
    label "seek after hash" (lift header.file.seeking)
    doc ←
        label "create document record"
          (docs.create_document user_id (base header.file.filename) "" hash header.file.size)
    minio_path ← store_original doc body header.file.size
    label "update minio path" (docs.update_original_path doc.id minio_path)
    label "enqueue extraction" (enqueuer.enqueue_task doc.id user_id)
    pure
        (record { document_id = doc.id; status = processing; filename = base header.file.filename })

  unfoldable pub get_document : String → String → Exec W Document
  get_document doc_id user_id = docs.get_document doc_id user_id

  unfoldable pub list_documents : String → Exec W (List Document)
  list_documents user_id = docs.list_documents user_id

  -- The document of the caller, which must be ready.
  unfoldable pub ready_document : String → String → Exec W Document
  unfolding ◌>>=◌
  ready_document doc_id user_id = do
    doc ← docs.get_document doc_id user_id
    guard (is_ready doc.status) (sentinel Sentinel.not_ready)
    pure doc

  unfoldable pub get_page : String → String → ℕ → Exec W String
  unfolding ◌>>=◌ ready_document
  get_page doc_id user_id number = do
    doc ← ready_document doc_id user_id
    page ← docs.get_page doc_id number
    store.get_presigned_url page.minio_path

  -- `GetPageRange` as far as the pages that it then fetches and zips.
  unfoldable pub pages_of_range : String → String → ℕ → ℕ → Exec W (List DocumentPage)
  unfolding ◌>>=◌ ready_document decimal
  pages_of_range doc_id user_id start end = do
    doc ← ready_document doc_id user_id
    let last = clamp_end doc.total_pages end
    let first = clamp_start start
    guard (if ltb last first then false else true) (
        plain (concat ("start (" ∷ decimal first ∷ ") must be <= end (" ∷ decimal last ∷ ")" ∷ [])))
    pages ← docs.get_page_range doc_id first last
    guard (if is_empty pages then false else true) (sentinel Sentinel.not_found)
    pure pages

  -- The loop of `ListPages`.
  unfoldable pub with_urls : List DocumentPage → Exec W (List PageWithUrl)
  unfolding ◌>>=◌ decimal
  with_urls [] = pure []
  with_urls (p ∷ ps) = do
    url ←
        label (concat ("presign page " ∷ decimal p.page_number ∷ []))
          (store.get_presigned_url p.minio_path)
    rest ← with_urls ps
    pure (record { page_number = p.page_number; size_bytes = p.size_bytes; url = url } ∷ rest)

  unfoldable pub list_pages : String → String → Exec W (List PageWithUrl)
  unfolding ◌>>=◌ ready_document with_urls
  list_pages doc_id user_id = do
    doc ← ready_document doc_id user_id
    pages ← docs.list_pages doc_id
    with_urls pages

  unfoldable pub register_webhook : String → String → String → String → Exec W WebhookSubscription
  unfolding ◌>>=◌
  register_webhook user_id doc_id url secret = do
    doc ← docs.get_document doc_id user_id
    docs.create_webhook user_id doc_id url secret

  unfoldable pub remove_pages : List DocumentPage → Exec W (Unit {0})
  unfolding ◌>>=◌
  remove_pages [] = pure tt
  remove_pages (p ∷ ps) = ignore (store.delete p.minio_path) >> remove_pages ps

  unfoldable pub delete_document : String → String → Exec W (Unit {0})
  unfolding ◌>>=◌ remove_pages
  delete_document doc_id user_id = do
    pages ← label "list pages for delete" (docs.list_pages doc_id)
    doc ← docs.delete_document doc_id user_id
    ignore (store.delete doc.original_minio_path)
    remove_pages pages
