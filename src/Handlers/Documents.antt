-- ===== src/Handlers/Documents.antt =====
-- handlers/documents.go: `DocumentHandler`, over the document service.
pub mod Pages
pub mod Range
use minio_3d.Base.{
  ℕ, zero, suc, ◌^◌, String, Bool, true, false, Option, none, some, List, [], ◌∷◌, inl, inr, ◌⊎◌,
  ◌≡◌, ◌≤◌, ◌<◌, refl, arith, length, ltb, if◌then◌else◌,
}
use minio_3d.Errors.{Error, Sentinel, Result, ok, err, is, message}
use minio_3d.Numbers.{ℤ, pos, negsuc, decimal, atoi}
use minio_3d.Numbers.Laws.{atoi-decimal}
use minio_3d.Paths.{concat}
use minio_3d.Types.{Document, WebhookSubscription}
use minio_3d.Storage.{Bytes, Storage}
use minio_3d.DocumentService as Service
use minio_3d.DocumentService.{
  DocumentRepository, TaskEnqueuer, PdfHeader, UploadResult, PageWithUrl,
}
use minio_3d.Handlers.{
  Response, respond, refuse, internal_error, missing_error, unready_error, finish,
}

-- `strconv.Atoi`, and no number below 1.
abbrev pub at_least_one : Option ℤ → Option ℕ
at_least_one none = none
at_least_one (some (negsuc n)) = none
at_least_one (some (pos zero)) = none
at_least_one (some (pos (suc n))) = some (suc n)

unfoldable pub positive_integer : String → Option ℕ
unfolding atoi
positive_integer s = at_least_one (atoi s)

-- The answer to `GetPage`.
pub record PageUrl : Type 0 where
  pub url : String
  pub page : ℕ
  pub document_id : String

-- The body of the request to `RegisterWebhook`.
pub record WebhookRequest : Type 0 where
  pub url : String
  pub secret : String

abbrev upload_error : {A : Type 0} → Error → Response A
upload_error e =
    if is e Sentinel.invalid_pdf
    then refuse 422 "uploaded file is not a valid PDF"
    else if is e Sentinel.quota_exceeded
    then refuse 429 "storage quota exceeded"
    else internal_error e

-- The checks of `GetPageRange` on the query, before it calls the service; `start` is "1" if it is
-- not given, and `end` is empty.
abbrev pub or_default : String → Option String → String
or_default d none = d
or_default d (some s) = s

abbrev pub range_of : {A : Type 0} → Option ℕ → Option ℕ → Response A ⊎ (ℕ × ℕ)
range_of none end = inl (refuse 400 "start must be a positive integer")
range_of (some start) none = inl (refuse 400 "end must be a positive integer")
range_of (some start) (some end) =
    if ltb end start then inl (refuse 400 "start must be <= end") else inr (start, end)

unfoldable pub requested_range : {A : Type 0} → Option String → Option String → Response A ⊎ (ℕ × ℕ)
unfolding positive_integer
requested_range start end =
    range_of (positive_integer (or_default "1" start)) (positive_integer (or_default "" end))

abbrev pub page_answer : {W : Type 0} → String → ℕ → Result String × W → Response PageUrl × W
page_answer doc_id n q =
    finish (unready_error (concat ("page " ∷ decimal n ∷ " not found" ∷ [])))
      (λ url. respond 200 (record { url = url; page = n; document_id = doc_id })) q

module _ {W : Type 0} (store : Storage W) (docs : DocumentRepository W) (user_id : String) where
  -- `Upload`, given what `c.FormFile("file")` returns.
  unfoldable pub upload :
      (Bytes → String) → TaskEnqueuer W → Result PdfHeader → W → Response UploadResult × W
  unfolding Service.upload
  upload sha256 enqueuer (err e) w = (refuse 400 "field 'file' is required", w)
  upload sha256 enqueuer (ok header) w =
      finish upload_error (respond 202) (Service.upload store docs sha256 enqueuer user_id header w)

  unfoldable pub get_document : String → W → Response Document × W
  unfolding Service.get_document
  get_document doc_id w =
      finish (missing_error "document not found") (respond 200)
        (Service.get_document store docs doc_id user_id w)

  unfoldable pub list_documents : W → Response (List Document × ℕ) × W
  unfolding Service.list_documents
  list_documents w =
      finish internal_error (λ ds. respond 200 (ds, length ds))
        (Service.list_documents store docs user_id w)

  abbrev pub page_of : String → Option ℕ → W → Response PageUrl × W
  page_of doc_id none w = (refuse 400 "page must be a positive integer", w)
  page_of doc_id (some n) w = page_answer doc_id n (Service.get_page store docs doc_id user_id n w)

  unfoldable pub get_page : String → String → W → Response PageUrl × W
  unfolding Service.get_page positive_integer decimal
  get_page doc_id page w = page_of doc_id (positive_integer page) w

  unfoldable pub register_webhook :
      String → Result WebhookRequest → W → Response WebhookSubscription × W
  unfolding Service.register_webhook
  register_webhook doc_id (err e) w = (refuse 400 (message e), w)
  register_webhook doc_id (ok req) w =
      finish (missing_error "document not found") (respond 201)
        (Service.register_webhook store docs user_id doc_id req.url req.secret w)

  unfoldable pub list_pages : String → W → Response (List PageWithUrl × ℕ) × W
  unfolding Service.list_pages
  list_pages doc_id w =
      finish (unready_error "document not found") (λ pages. respond 200 (pages, length pages))
        (Service.list_pages store docs doc_id user_id w)

  unfoldable pub delete_document : String → W → Response String × W
  unfolding Service.delete_document
  delete_document doc_id w =
      finish (missing_error "document not found") (λ _. respond 200 "document deleted")
        (Service.delete_document store docs doc_id user_id w)
