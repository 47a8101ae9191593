-- ===== src/Documents/Pages.antt =====
-- storage/document_store.go: the pages of a document.
pub mod Lookup
pub mod Range
use minio_3d.Base.{
  ℕ, String, Bool, not, ◌&&◌, ◌||◌, List, [], ◌∷◌, ◌++◌, ◌==◌, eqb, leb, any, select, update,
  order_by, if◌then◌else◌,
}
use minio_3d.Errors.{Result, ok, err}
use minio_3d.Types.{DocumentPage}
use minio_3d.Exec.{label}
use minio_3d.Sql.{
  Tables, Postgres, Sql, Statement, query, reading, violation, out_of_range, one_row, or_not_found,
}
use minio_3d.Metadata.Save.{int32_end}

-- `document_id = $1 AND page_number = $2`
abbrev pub is_page : String → ℕ → DocumentPage → Bool
is_page doc_id number p = p.document_id == doc_id && eqb p.page_number number

-- The row that `INSERT INTO document_pages` describes.
unfoldable pub new_page : Postgres → String → ℕ → String → ℕ → Tables → DocumentPage
new_page pg doc_id number minio_path size_bytes t = record {
  id = pg.new_id t;
  document_id = doc_id;
  page_number = number;
  minio_path = minio_path;
  size_bytes = size_bytes;
}

-- `ON CONFLICT ... DO UPDATE SET ...`: a row that has the page already keeps its id.
abbrev pub replaced : String → ℕ → DocumentPage → DocumentPage
replaced minio_path size_bytes p = record p { minio_path = minio_path; size_bytes = size_bytes }

-- A new row: `id` is unique, and `document_id` refers to a document.
abbrev pub insert_page : DocumentPage → Tables → Result (DocumentPage × Tables)
insert_page p t =
    if any (λ q. q.id == p.id) t.pages || not (any (λ d. d.id == p.document_id) t.documents)
    then err violation
    else ok (p, record t { pages = t.pages ++ p ∷ [] })

module _ (pg : Postgres) (doc_id : String) (number : ℕ) (minio_path : String) (size_bytes : ℕ) where
  -- A row that has the page is replaced, and is the answer to `RETURNING`; else there is a new row.
  abbrev pub upserted : List DocumentPage → Statement DocumentPage
  unfolding new_page
  upserted [] t = insert_page (new_page pg doc_id number minio_path size_bytes t) t
  upserted (p ∷ _) t = ok (
    replaced minio_path size_bytes p,
    record t { pages = update (is_page doc_id number) (replaced minio_path size_bytes) t.pages },
  )

  -- `page_number` is an INT.
  unfoldable pub upsert_page : Statement DocumentPage
  unfolding upserted
  upsert_page t =
      if leb int32_end number
      then err out_of_range
      else upserted (select (is_page doc_id number) t.pages) t

  unfoldable pub save_page : Sql DocumentPage
  unfolding query upsert_page
  save_page = label "save page" (query upsert_page)

abbrev pub page_in : String → ℕ → Tables → Result DocumentPage
page_in doc_id number t =
    if leb int32_end number
    then err out_of_range
    else one_row (select (is_page doc_id number) t.pages)

unfoldable pub get_page : String → ℕ → Sql DocumentPage
unfolding query
get_page doc_id number = or_not_found "get page" (query (reading (page_in doc_id number)))

-- `page_number BETWEEN $2 AND $3`
abbrev pub in_range : String → ℕ → ℕ → DocumentPage → Bool
in_range doc_id start end p =
    p.document_id == doc_id && (leb start p.page_number && leb p.page_number end)

-- `ORDER BY page_number ASC`
abbrev pub page_order : DocumentPage → DocumentPage → Bool
page_order p q = leb p.page_number q.page_number

unfoldable pub fetch_range : String → ℕ → ℕ → Statement (List DocumentPage)
fetch_range doc_id start end = reading (λ t.
    if leb int32_end start || leb int32_end end
    then err out_of_range
    else ok (order_by page_order (select (in_range doc_id start end) t.pages)))

unfoldable pub get_page_range : String → ℕ → ℕ → Sql (List DocumentPage)
unfolding query fetch_range
get_page_range doc_id start end = label "get page range" (query (fetch_range doc_id start end))

unfoldable pub list_pages : String → Sql (List DocumentPage)
unfolding query
list_pages doc_id = label "list pages" (
    query (reading (λ t. ok (order_by page_order (select (λ p. p.document_id == doc_id) t.pages)))))
