-- ===== src/Handlers/Documents/Pages.antt =====
-- handlers/documents.go: which page `GetPage` answers with.
use minio_3d.Base.{
  ℕ, zero, suc, ◌^◌, String, Option, none, some, ◌≡◌, ◌≤◌, ◌<◌, refl, arith, [], ◌∷◌,
}
use minio_3d.Errors.{Error, Result, ok, err}
use minio_3d.Exec.{◌>>=◌}
use minio_3d.Exec.Laws.{>>=-eq-ok}
use minio_3d.Numbers.{decimal}
use minio_3d.Numbers.Laws.{atoi-decimal}
use minio_3d.Types.{Document, DocumentStatus, DocumentPage}
use minio_3d.Paths.{concat}
use minio_3d.Storage.{Storage}
use minio_3d.DocumentService as Service
use minio_3d.DocumentService.{DocumentRepository, ready_document}
use minio_3d.DocumentService.Pages.{ready_document-eq-ok}
use minio_3d.Handlers.{Response, content, unready_error}
use minio_3d.Handlers.Documents.{positive_integer, page_of, page_answer, get_page, PageUrl}

-- Every page number, as a URL spells it, is the number that the handler reads.
positive_integer-decimal : (n : ℕ) → 1 ≤ n → n < 2 ^ 63 → positive_integer (decimal n) ≡ some n
unfolding positive_integer
positive_integer-decimal zero from below = absurd (omega arith)
positive_integer-decimal (suc n) from below = rw (atoi-decimal (suc n) below) refl

unready_error-status : (m : String) (e : Error) → 404 ≤ (unready_error {A = PageUrl} m e).status
unready_error-status m e = ground arith

module _ {W : Type 0} (store : Storage W) (docs : DocumentRepository W)
    (user_id doc_id : String) where
  -- What stands behind the URL of a page: the document of the caller, its status, and the page.
  pub record Granted (text : String) (w : W) (r : Response PageUrl) (w' : W) : Type 0 where
    pub page : ℕ
    pub doc : Document
    pub row : DocumentPage
    pub url : String
    pub w₁ : W
    pub w₂ : W
    pub asked : positive_integer text ≡ some page
    pub owned : docs.get_document doc_id user_id w ≡ (ok doc, w₁)
    pub is_ready : doc.status ≡ DocumentStatus.ready
    pub found : docs.get_page doc_id page w₁ ≡ (ok row, w₂)
    pub presigned : store.get_presigned_url row.minio_path w₂ ≡ (ok url, w')
    pub answered : r.body ≡ content (record { url = url; page = page; document_id = doc_id })

  granted :
      (text : String) (n : ℕ) (w : W) (q : Result String × W)
      → positive_integer text ≡ some n
      → Service.get_page store docs doc_id user_id n w ≡ q
      → (page_answer doc_id n q).0.status ≡ 200
      → Granted text w (page_answer doc_id n q).0 (page_answer doc_id n q).1
  unfolding Service.get_page
  granted text n w (ok url, w') asked h good =
      let (doc, w₁, readied, rest) =
        >>=-eq-ok (ready_document store docs doc_id user_id)
          (λ doc. docs.get_page doc_id n >>= λ page. store.get_presigned_url page.minio_path) w url
          w' h in
      let (row, w₂, found, presigned) =
        >>=-eq-ok (docs.get_page doc_id n) (λ page. store.get_presigned_url page.minio_path) w₁ url
          w' rest in
      let (owned, status) = ready_document-eq-ok store docs doc_id user_id w doc w₁ readied in
      record {
        page = n;
        doc = doc;
        row = row;
        url = url;
        w₁ = w₁;
        w₂ = w₂;
        asked = asked;
        owned = owned;
        is_ready = status;
        found = found;
        presigned = presigned;
        answered = refl;
      }
  granted text n w (err e, w') asked h good = absurd (
      omega
        (arith, good, unready_error-status (concat ("page " ∷ decimal n ∷ " not found" ∷ [])) e))

  asked_page :
      (text : String) (o : Option ℕ) (w : W)
      → positive_integer text ≡ o
      → (page_of store docs user_id doc_id o w).0.status ≡ 200
      → Granted text w
          (page_of store docs user_id doc_id o w).0
          (page_of store docs user_id doc_id o w).1
  asked_page text none w asked good = absurd (omega (arith, good))
  asked_page text (some n) w asked good =
      granted text n w (Service.get_page store docs doc_id user_id n w) asked refl good

  -- When `GetPage` answers with status 200, the path holds the number of a page, the document is one
  -- that the store finds for this caller, it is ready, the store finds the page in it, and the URL of
  -- the answer is the one that the object store has just signed for the path of that page.
  pub get_page-Granted :
      (text : String) (w : W)
      → let (r, w') = get_page store docs user_id doc_id text w in
        r.status ≡ 200 → Granted text w r w'
  unfolding get_page
  get_page-Granted text w good = asked_page text (positive_integer text) w refl good
