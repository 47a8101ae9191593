-- ===== src/Documents/Rows.antt =====
-- storage/document_store.go: the documents, and the watchdog's statement.
use minio_3d.Base.{
  ℕ, String, Bool, true, false, not, ◌&&◌, ◌||◌, none, some, List, [], ◌∷◌, ◌++◌, ◌==◌, ltb, leb,
  any, select, update, discard, count, order_by, if◌then◌else◌,
}
use minio_3d.Errors.{Result, ok, err}
use minio_3d.Types.{Document, DocumentStatus, processing, ready, failed}
use minio_3d.Exec.{pure, label, ◌>>=◌, ◌>>◌}
use minio_3d.Sql.{
  Tables, Postgres, Sql, Statement, query, reading, transaction, violation, out_of_range, one_row,
  or_not_found,
}
use minio_3d.Metadata.Save.{add_usage, int32_end}

-- The row that `INSERT INTO documents` describes: `status` is 'processing' by default.
unfoldable pub new_document : Postgres → String → String → String → String → ℕ → Tables → Document
new_document pg user_id filename minio_path hash size_bytes t = record {
  id = pg.new_id t;
  user_id = user_id;
  filename = filename;
  original_minio_path = minio_path;
  sha256 = hash;
  status = processing;
  total_pages = none;
  error_message = none;
  size_bytes = size_bytes;
  created_at = pg.now t;
  updated_at = pg.now t;
}

-- `INSERT INTO documents ... RETURNING ...`: `id` is unique, and `user_id` refers to a user.
unfoldable pub insert_document : Document → Statement Document
insert_document d t =
    if any (λ e. e.id == d.id) t.documents || not (any (λ u. u.id == d.user_id) t.users)
    then err violation
    else ok (d, record t { documents = t.documents ++ d ∷ [] })

module _ (pg : Postgres) (user_id filename minio_path hash : String) (size_bytes : ℕ) where
  unfoldable pub create_document_row : Statement Document
  unfolding new_document insert_document
  create_document_row t =
      insert_document (new_document pg user_id filename minio_path hash size_bytes t) t

  unfoldable pub create_document_tx : Sql Document
  unfolding query create_document_row add_usage ◌>>=◌
  create_document_tx = do
    d ← label "create document" (query create_document_row)
    label "update storage usage" (query (add_usage size_bytes user_id))
    pure d

  unfoldable pub create_document : Sql Document
  unfolding create_document_tx transaction
  create_document = transaction "commit" create_document_tx

-- `WHERE id = $1 AND user_id = $2`
abbrev pub owns_document : String → String → Document → Bool
owns_document id user_id d = d.id == id && d.user_id == user_id

unfoldable pub get_document : String → String → Sql Document
unfolding query
get_document id user_id =
    or_not_found "get document"
      (query (reading (λ t. one_row (select (owns_document id user_id) t.documents))))

unfoldable pub get_document_by_id : String → Sql Document
unfolding query
get_document_by_id id =
    or_not_found "get document by id"
      (query (reading (λ t. one_row (select (λ d. d.id == id) t.documents))))

unfoldable pub list_documents : String → Sql (List Document)
unfolding query
list_documents user_id = label "list documents" (
    query (
      reading (λ t. ok (
        order_by (λ d e. leb e.created_at d.created_at)
          (select (λ d. d.user_id == user_id) t.documents)))))

-- `UPDATE documents SET ... WHERE id = ...`
abbrev pub change : String → (Document → Document) → Tables → Tables
change doc_id f t = record t { documents = update (λ d. d.id == doc_id) f t.documents }

-- `total_pages` is an INT.
unfoldable pub set_ready : Postgres → String → ℕ → Statement (Unit {0})
set_ready pg doc_id total_pages t =
    if leb int32_end total_pages
    then err out_of_range
    else ok (
      tt,
      change doc_id
          (λ d. record d { status = ready; total_pages = some total_pages; updated_at = pg.now t })
          t,
    )

unfoldable pub mark_ready : Postgres → String → ℕ → Sql (Unit {0})
unfolding query set_ready
mark_ready pg doc_id total_pages = label "mark ready" (query (set_ready pg doc_id total_pages))

unfoldable pub set_failed : Postgres → String → String → Statement (Unit {0})
set_failed pg doc_id err_msg t = ok (
  tt,
  change doc_id
      (λ d. record d { status = failed; error_message = some err_msg; updated_at = pg.now t }) t,
)

unfoldable pub mark_failed : Postgres → String → String → Sql (Unit {0})
unfolding query set_failed
mark_failed pg doc_id err_msg = label "mark failed" (query (set_failed pg doc_id err_msg))

unfoldable pub set_path : Postgres → String → String → Statement (Unit {0})
set_path pg doc_id path t =
    ok (tt, change doc_id (λ d. record d { original_minio_path = path; updated_at = pg.now t }) t)

unfoldable pub update_original_path : Postgres → String → String → Sql (Unit {0})
unfolding query set_path
update_original_path pg doc_id path = label "update original path" (query (set_path pg doc_id path))

-- `DELETE ... RETURNING ...`: the row that goes, with its pages and webhooks (ON DELETE CASCADE).
abbrev pub dropped : String → String → Result Document → Tables → Result (Document × Tables)
dropped id user_id (err e) t = err e
dropped id user_id (ok d) t = ok (
  d,
  record t {
    documents = discard (owns_document id user_id) t.documents;
    pages = discard (λ p. p.document_id == id) t.pages;
    webhooks = discard (λ w. w.document_id == id) t.webhooks;
  },
)

unfoldable pub drop_document : String → String → Statement Document
drop_document id user_id t =
    dropped id user_id (one_row (select (owns_document id user_id) t.documents)) t

unfoldable pub delete_document : String → String → Sql Document
unfolding query drop_document
delete_document id user_id = or_not_found "delete document" (query (drop_document id user_id))

abbrev pub is_processing : DocumentStatus → Bool
is_processing processing = true
is_processing ready = false
is_processing failed = false

-- `WHERE status = 'processing' AND created_at < $1`
abbrev pub is_stuck : ℕ → Document → Bool
is_stuck cutoff d = is_processing d.status && ltb d.created_at cutoff

-- The timeout, as the watchdog records it.
abbrev pub timed_out : ℕ → Document → Document
timed_out now d = record d {
  status = failed;
  error_message = some "processing timeout: worker did not complete in time";
  updated_at = now;
}

unfoldable pub fail_stuck : Postgres → ℕ → Statement ℕ
fail_stuck pg cutoff t = ok (
  count (is_stuck cutoff) t.documents,
  record t { documents = update (is_stuck cutoff) (timed_out (pg.now t)) t.documents },
)

unfoldable pub fail_stuck_documents : Postgres → ℕ → Sql ℕ
unfolding query fail_stuck
fail_stuck_documents pg cutoff = label "fail stuck documents" (query (fail_stuck pg cutoff))
