-- ===== src/Mocks/Documents.antt =====
-- testutil/testutil.go: `MockDocStore`, the documents, pages and webhooks in memory.
use minio_3d.Base.{
  ℕ, zero, suc, ◌-◌, String, Option, none, some, List, [], ◌∷◌, ◌++◌, ◌==◌, select, if◌then◌else◌,
}
use minio_3d.Errors.{Error, Sentinel, sentinel, Result, ok, err}
use minio_3d.Exec.{Exec, failing, lift}
use minio_3d.Maps.{GoMap, find, put, alter, remove, values, nat_key, string_key}
use minio_3d.Numbers.{decimal}
use minio_3d.Paths.{concat, prefix}
use minio_3d.Types.{Document, DocumentPage, WebhookSubscription, processing, ready, failed}
use minio_3d.DocumentService.{DocumentRepository}

-- The fields that tests set make every call of a method fail.
pub record MockDocStore : Type 0 where
  pub docs : GoMap String Document
  pub pages : GoMap String (GoMap ℕ DocumentPage)
  pub webhooks : GoMap String (List WebhookSubscription)
  pub create_err : Option Error
  pub get_err : Option Error
  pub update_path_err : Option Error
  pub mark_failed_err : Option Error
  pub save_page_err : Option Error

-- `NewMockDocStore`
abbrev pub new_mock_doc_store : MockDocStore
new_mock_doc_store = record {
  docs = [];
  pages = [];
  webhooks = [];
  create_err = none;
  get_err = none;
  update_path_err = none;
  mark_failed_err = none;
  save_page_err = none;
}

-- The row of `CreateDocument`: the zero time stands for times that are not set. The hash has 64
-- characters.
abbrev pub mock_document : String → String → String → String → ℕ → Document
mock_document user_id filename minio_path hash size_bytes = record {
  id = concat ("doc-" ∷ prefix 8 hash ∷ []);
  user_id = user_id;
  filename = filename;
  original_minio_path = minio_path;
  sha256 = hash;
  status = processing;
  total_pages = none;
  error_message = none;
  size_bytes = size_bytes;
  created_at = 0;
  updated_at = 0;
}

unfoldable pub create_document : String → String → String → String → ℕ → Exec MockDocStore Document
create_document user_id filename minio_path hash size_bytes m =
    let doc = mock_document user_id filename minio_path hash size_bytes in
    failing m.create_err (λ m. (ok doc, record m { docs = put doc.id doc m.docs })) m

-- `!ok || d.UserID != userID`
abbrev pub owned : String → Option Document → Option Document
owned user_id none = none
owned user_id (some d) = if d.user_id == user_id then some d else none

abbrev pub or_missing {ℓ} : {A : Type ℓ} → Option A → Result A
or_missing none = err (sentinel Sentinel.not_found)
or_missing (some a) = ok a

unfoldable pub get_document : String → String → Exec MockDocStore Document
get_document id user_id m = failing m.get_err (lift (or_missing (owned user_id (find id m.docs)))) m

unfoldable pub get_document_by_id : String → Exec MockDocStore Document
get_document_by_id id m = (or_missing (find id m.docs), m)

unfoldable pub mark_ready : String → ℕ → Exec MockDocStore (Unit {0})
mark_ready doc_id total_pages m = (
  ok tt,
  record m {
    docs = alter doc_id (λ d. record d { status = ready; total_pages = some total_pages }) m.docs;
  },
)

unfoldable pub mark_failed : String → String → Exec MockDocStore (Unit {0})
mark_failed doc_id err_msg m =
    failing m.mark_failed_err
      (λ m. (
        ok tt,
        record m {
          docs =
              alter doc_id (λ d. record d { status = failed; error_message = some err_msg }) m.docs;
        },
      ))
      m

unfoldable pub update_original_path : String → String → Exec MockDocStore (Unit {0})
update_original_path doc_id path m =
    failing m.update_path_err
      (λ m. (
        ok tt,
        record m { docs = alter doc_id (λ d. record d { original_minio_path = path }) m.docs },
      ))
      m

-- The zero value of a slice or an inner map that is not there is empty.
abbrev pub or_empty {ℓ} : {A : Type ℓ} → Option (List A) → List A
or_empty none = []
or_empty (some xs) = xs

abbrev pub pages_of : String → GoMap String (GoMap ℕ DocumentPage) → GoMap ℕ DocumentPage
pages_of doc_id pages = or_empty (find doc_id pages)

abbrev pub mock_page : String → ℕ → String → ℕ → DocumentPage
mock_page doc_id number minio_path size_bytes = record {
  id = concat ("page-" ∷ doc_id ∷ "-" ∷ decimal number ∷ []);
  document_id = doc_id;
  page_number = number;
  minio_path = minio_path;
  size_bytes = size_bytes;
}

unfoldable pub save_page : String → ℕ → String → ℕ → Exec MockDocStore DocumentPage
save_page doc_id number minio_path size_bytes m =
    let p = mock_page doc_id number minio_path size_bytes in
    failing m.save_page_err
      (λ m.
        (ok p, record m { pages = put doc_id (put number p (pages_of doc_id m.pages)) m.pages }))
      m

unfoldable pub get_page : String → ℕ → Exec MockDocStore DocumentPage
get_page doc_id number m = (or_missing (find number (pages_of doc_id m.pages)), m)

-- The loop of `GetPageRange`, with the numbers that are left as fuel.
abbrev pub collect : GoMap ℕ DocumentPage → ℕ → ℕ → List DocumentPage
collect pages n zero = []
collect pages n (suc fuel) =
    let rest = collect pages (suc n) fuel in elim (find n pages) [ none ↦ rest | some p ↦ p ∷ rest ]

unfoldable pub get_page_range : String → ℕ → ℕ → Exec MockDocStore (List DocumentPage)
get_page_range doc_id start end m =
    (ok (collect (pages_of doc_id m.pages) start (suc end - start)), m)

unfoldable pub create_webhook :
    String → String → String → String → Exec MockDocStore WebhookSubscription
create_webhook user_id doc_id url secret m =
    let w : WebhookSubscription = record {
      id = concat ("hook-" ∷ doc_id ∷ []);
      user_id = user_id;
      document_id = doc_id;
      url = url;
      secret = secret;
      created_at = 0;
    } in
    (
      ok w,
      record m { webhooks = put doc_id (or_empty (find doc_id m.webhooks) ++ w ∷ []) m.webhooks },
    )

unfoldable pub get_webhooks_for_document : String → Exec MockDocStore (List WebhookSubscription)
get_webhooks_for_document doc_id m = (ok (or_empty (find doc_id m.webhooks)), m)

abbrev pub forgotten : String → Option Document → Exec MockDocStore Document
forgotten id none m = (err (sentinel Sentinel.not_found), m)
forgotten id (some d) m = (ok d, record m { docs = remove id m.docs; pages = remove id m.pages })

unfoldable pub delete_document : String → String → Exec MockDocStore Document
delete_document id user_id m = forgotten id (owned user_id (find id m.docs)) m

-- The pages that `SetReady` writes, from the first on.
abbrev fill : String → ℕ → GoMap ℕ DocumentPage → GoMap ℕ DocumentPage
fill doc_id zero pages = pages
fill doc_id (suc n) pages =
    let path = concat ("documents/" ∷ doc_id ∷ "/pages/" ∷ decimal (suc n) ∷ ".pdf" ∷ []) in
    put (suc n) (mock_page doc_id (suc n) path 1024) (fill doc_id n pages)

unfoldable pub set_ready : String → ℕ → MockDocStore → MockDocStore
set_ready doc_id page_count m = record m {
  docs = alter doc_id (λ d. record d { status = ready; total_pages = some page_count }) m.docs;
  pages = put doc_id (fill doc_id page_count (pages_of doc_id m.pages)) m.pages;
}

-- The orders in which `range` goes through a map of documents and one of pages.
module _ (documents_order : List Document → List Document)
    (pages_order : List DocumentPage → List DocumentPage) where
  unfoldable pub list_documents : String → Exec MockDocStore (List Document)
  list_documents user_id m =
      (ok (select (λ d. d.user_id == user_id) (documents_order (values m.docs))), m)

  unfoldable pub list_pages : String → Exec MockDocStore (List DocumentPage)
  list_pages doc_id m = (ok (pages_order (values (pages_of doc_id m.pages))), m)

  abbrev pub mock_doc_store : DocumentRepository MockDocStore
  mock_doc_store = record {
    create_document = create_document;
    get_document = get_document;
    list_documents = list_documents;
    mark_failed = mark_failed;
    update_original_path = update_original_path;
    get_page = get_page;
    get_page_range = get_page_range;
    list_pages = list_pages;
    create_webhook = create_webhook;
    delete_document = delete_document;
  }
