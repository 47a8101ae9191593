-- ===== src/Documents/Changes.antt =====
-- Reading a document, and its pages, after an UPDATE of its row.
use mathlib.Core.Path.{subst}
use minio_3d.Base.{
  ℕ, String, Bool, true, ◌≡◌, refl, sym, ap, ◌∙◌, List, [], ◌∷◌, some, ◌==◌, arith, select, update,
}
use minio_3d.Errors.{Error, Sentinel, is, Result, ok, err}
use minio_3d.Types.{ready, failed, Document}
use minio_3d.Sql.{Tables, Conn, quiet, Postgres, reading, beside, one_row}
use minio_3d.Sql.Laws.{label-query-eq-ok, or_not_found-query-eq-ok}
use minio_3d.Sql.Reading.{
  or_not_found-missing, or_not_found-quiet, or_not_found-query-faults, or_not_found-query-reading,
  or_not_found-reading, or_not_found-read,
}
use minio_3d.Documents.Rows.{
  change, get_document_by_id, set_ready, mark_ready, set_failed, mark_failed, set_path,
  update_original_path,
}
use minio_3d.Documents.Pages.{page_in, get_page}

one_row-update :
    {A : Type 0} (p : A → Bool) (f : A → A) (xs : List A) (d : A)
    → ((x : A) → p (f x) ≡ p x)
    → one_row (select p xs) ≡ ok d
    → one_row (select p (update p f xs)) ≡ ok (f d)
one_row-update p f [] d keeps h = cc
one_row-update p f (x ∷ xs) d keeps h =
    let later = one_row-update p f xs d keeps in let same = keeps x in ground arith

abbrev pub rows_of : String → Tables → List Document
rows_of doc_id t = select (λ d. d.id == doc_id) t.documents

beside-eq-ok :
    (t t' : Tables) (r : Result Document) (d : Document) → beside t r ≡ ok (d, t') → r ≡ ok d
beside-eq-ok t t' (ok x) d h = ground arith
beside-eq-ok t t' (err e) d h = cc

pub get_document_by_id-found :
    (doc_id : String) (t : Tables) (d : Document)
    → one_row (rows_of doc_id t) ≡ ok d
    → (get_document_by_id doc_id (quiet t)).0 ≡ ok d
unfolding get_document_by_id
get_document_by_id-found doc_id t d h =
    or_not_found-read "get document by id" (λ u. one_row (rows_of doc_id u)) t d h

pub get_document_by_id-row :
    (doc_id : String) (c : Conn) (d : Document) (c' : Conn)
    → get_document_by_id doc_id c ≡ (ok d, c')
    → one_row (rows_of doc_id c.tables) ≡ ok d
unfolding get_document_by_id
get_document_by_id-row doc_id c d c' h =
    beside-eq-ok c.tables c'.tables (one_row (rows_of doc_id c.tables)) d (
      or_not_found-query-eq-ok "get document by id" (reading (λ u. one_row (rows_of doc_id u))) c d
        c' h)

pub change-row :
    (doc_id : String) (f : Document → Document) (t : Tables) (d : Document)
    → ((x : Document) → (f x).id ≡ x.id)
    → one_row (rows_of doc_id t) ≡ ok d
    → one_row (rows_of doc_id (change doc_id f t)) ≡ ok (f d)
change-row doc_id f t d keeps h =
    one_row-update (λ x. x.id == doc_id) f t.documents d (λ x. rw (keeps x) refl) h

pub get_page-change :
    (doc_id : String) (f : Document → Document) (o : String) (n : ℕ) (t : Tables)
    → (get_page o n (quiet (change doc_id f t))).0 ≡ (get_page o n (quiet t)).0
unfolding get_page
get_page-change doc_id f o n t =
    or_not_found-reading "get page" (page_in o n) (change doc_id f t) t refl

-- `ErrNotFound` says that there is no such row, a failure of the driver is another error.
pub get_document_by_id-missing :
    (doc_id : String) (c : Conn) (e : Error) (c' : Conn)
    → get_document_by_id doc_id c ≡ (err e, c')
    → is e Sentinel.not_found ≡ true
    → rows_of doc_id c.tables ≡ []
unfolding get_document_by_id
get_document_by_id-missing doc_id c e c' h found =
    or_not_found-missing "get document by id" (rows_of doc_id) c e c' h found

pub get_document_by_id-quiet :
    (doc_id : String) (c : Conn) (e : Error) (c' : Conn)
    → c.faults ≡ []
    → get_document_by_id doc_id c ≡ (err e, c')
    → is e Sentinel.not_found ≡ true
unfolding get_document_by_id
get_document_by_id-quiet doc_id c e c' q h =
    or_not_found-quiet "get document by id" (rows_of doc_id) c e c' q h

pub get_document_by_id-faults :
    (doc_id : String) (c : Conn) → c.faults ≡ [] → (get_document_by_id doc_id c).1.faults ≡ []
unfolding get_document_by_id
get_document_by_id-faults doc_id c h =
    or_not_found-query-faults "get document by id" (reading (λ u. one_row (rows_of doc_id u))) c h

pub get_document_by_id-tables :
    (doc_id : String) (c : Conn) → (get_document_by_id doc_id c).1.tables ≡ c.tables
unfolding get_document_by_id
get_document_by_id-tables doc_id c =
    or_not_found-query-reading "get document by id" (λ u. one_row (rows_of doc_id u)) c

-- The row when `MarkReady` has succeeded.
abbrev pub readied : Postgres → ℕ → Tables → Document → Document
readied pg n t d = record d { status = ready; total_pages = some n; updated_at = pg.now t }

set_ready-eq-ok :
    (pg : Postgres) (doc_id : String) (n : ℕ) (t : Tables) (u : Unit) (t' : Tables)
    → set_ready pg doc_id n t ≡ ok (u, t')
    → t' ≡ change doc_id (readied pg n t) t
unfolding set_ready
set_ready-eq-ok pg doc_id n t u t' h = ground arith

pub mark_ready-eq-ok :
    (pg : Postgres) (doc_id : String) (n : ℕ) (c : Conn) (u : Unit) (c' : Conn)
    → mark_ready pg doc_id n c ≡ (ok u, c')
    → c'.tables ≡ change doc_id (readied pg n c.tables) c.tables
unfolding mark_ready
mark_ready-eq-ok pg doc_id n c u c' h =
    set_ready-eq-ok pg doc_id n c.tables u c'.tables
      (label-query-eq-ok "mark ready" (set_ready pg doc_id n) c u c' h)

set_failed-eq-ok :
    (pg : Postgres) (doc_id msg : String) (t : Tables) (u : Unit) (t' : Tables)
    → set_failed pg doc_id msg t ≡ ok (u, t')
    → t'
      ≡ change doc_id
          (λ d. record d { status = failed; error_message = some msg; updated_at = pg.now t })
          t
unfolding set_failed
set_failed-eq-ok pg doc_id msg t u t' h = ground arith

pub mark_failed-eq-ok :
    (pg : Postgres) (doc_id msg : String) (c : Conn) (u : Unit) (c' : Conn)
    → mark_failed pg doc_id msg c ≡ (ok u, c')
    → c'.tables
      ≡ change doc_id
          (λ d. record d {
            status = failed;
            error_message = some msg;
            updated_at = pg.now c.tables;
          })
          c.tables
unfolding mark_failed
mark_failed-eq-ok pg doc_id msg c u c' h =
    set_failed-eq-ok pg doc_id msg c.tables u c'.tables
      (label-query-eq-ok "mark failed" (set_failed pg doc_id msg) c u c' h)

set_path-eq-ok :
    (pg : Postgres) (doc_id path : String) (t : Tables) (u : Unit) (t' : Tables)
    → set_path pg doc_id path t ≡ ok (u, t')
    → t' ≡ change doc_id (λ d. record d { original_minio_path = path; updated_at = pg.now t }) t
unfolding set_path
set_path-eq-ok pg doc_id path t u t' h = ground arith

pub update_original_path-eq-ok :
    (pg : Postgres) (doc_id path : String) (c : Conn) (u : Unit) (c' : Conn)
    → update_original_path pg doc_id path c ≡ (ok u, c')
    → c'.tables
      ≡ change doc_id
          (λ d. record d { original_minio_path = path; updated_at = pg.now c.tables })
          c.tables
unfolding update_original_path
update_original_path-eq-ok pg doc_id path c u c' h =
    set_path-eq-ok pg doc_id path c.tables u c'.tables
      (label-query-eq-ok "update original path" (set_path pg doc_id path) c u c' h)

-- A document that has been marked as failed, by a task that is tried again or by the watchdog, can
-- still become ready: `MarkReady` does not look at the status, and it leaves the old error message in
-- the row.
pub mark_ready-mark_failed :
    (pg : Postgres) (doc_id msg : String) (n : ℕ) (c₀ c₁ c₂ c₃ : Conn) (d : Document)
    → get_document_by_id doc_id c₀ ≡ (ok d, c₁)
    → mark_failed pg doc_id msg c₁ ≡ (ok tt, c₂)
    → mark_ready pg doc_id n c₂ ≡ (ok tt, c₃)
    → (d' : Document) × ((get_document_by_id doc_id (quiet c₃.tables)).0 ≡ ok d')
      × (d'.status ≡ ready)
      × (d'.error_message ≡ some msg)
mark_ready-mark_failed pg doc_id msg n c₀ c₁ c₂ c₃ d found failing readying =
    let set : Document → Document =
      λ x. record x { status = failed; error_message = some msg; updated_at = pg.now c₁.tables } in
    let is_failed = mark_failed-eq-ok pg doc_id msg c₁ tt c₂ failing in
    let is_ready = mark_ready-eq-ok pg doc_id n c₂ tt c₃ readying in
    let same =
      ap (λ (q : Result Document × Conn). q.1.tables) (sym found)
      ∙ get_document_by_id-tables doc_id c₀ in
    let row₁ =
      subst (λ (t : Tables). one_row (rows_of doc_id t) ≡ ok d) (sym same)
        (get_document_by_id-row doc_id c₀ d c₁ found) in
    let row₂ =
      subst (λ (t : Tables). one_row (rows_of doc_id t) ≡ ok (set d)) (sym is_failed)
        (change-row doc_id set c₁.tables d (λ _. refl) row₁) in
    let row₃ =
      subst (λ (t : Tables). one_row (rows_of doc_id t) ≡ ok (readied pg n c₂.tables (set d)))
        (sym is_ready)
        (change-row doc_id (readied pg n c₂.tables) c₂.tables (set d) (λ _. refl) row₂) in
    (readied pg n c₂.tables (set d), get_document_by_id-found doc_id c₃.tables _ row₃, refl, refl)
