-- ===== src/Documents/Calls.antt =====
-- storage/document_store.go and storage/metadata.go: the calls of the two stores that write, as
-- data, and any sequence of them.
use minio_3d.Base.{ℕ, String, List, [], ◌∷◌}
use minio_3d.Exec.{ignore}
use minio_3d.Sql.{Postgres, Conn, Sql}
use minio_3d.Sql.Keeps.{
  IsKept, query-IsKept, label-IsKept, or_not_found-IsKept, >>=-IsKept, transaction-IsKept,
  pure-IsKept, ignore-IsKept,
}
use minio_3d.Metadata.Save.{add_usage}
use minio_3d.Documents.Rows
use minio_3d.Documents.Rows.{create_document_row, create_document_tx}
use minio_3d.Documents.Pages
use minio_3d.Documents.Webhooks
use minio_3d.Documents.Webhooks.{new_webhook}
use minio_3d.Metadata.Reads
use minio_3d.Metadata.Save
use minio_3d.Metadata.Delete
use minio_3d.Documents.Invariant.Others.{create_user-IsKept, save-IsKept, delete-IsKept}
use minio_3d.Documents.Invariant.{IsSound}
use minio_3d.Documents.Invariant.Adding.{
  create_document_row-IsKept, add_usage-IsKept, upsert_page-IsKept, insert_webhook-IsKept,
}
use minio_3d.Documents.Invariant.Changing.{
  set_ready-IsKept, set_failed-IsKept, set_path-IsKept, fail_stuck-IsKept, drop_document-IsKept,
}

-- The methods that write.
pub data Call : Type 0 where
  create_document : String → String → String → String → ℕ → Call
  mark_ready : String → ℕ → Call
  mark_failed : String → String → Call
  update_original_path : String → String → Call
  save_page : String → ℕ → String → ℕ → Call
  create_webhook : String → String → String → String → Call
  delete_document : String → String → Call
  fail_stuck_documents : ℕ → Call
  create_user : String → String → ℕ → Call
  save : String → String → String → String → String → ℕ → Call
  delete : ℕ → String → String → Call

module _ (pg : Postgres) where
  -- A call, whatever it answers.
  unfoldable pub method : Call → Sql (Unit {0})
  method (Call.create_document user_id filename path hash size) =
      ignore (Rows.create_document pg user_id filename path hash size)
  method (Call.mark_ready id pages) = ignore (Rows.mark_ready pg id pages)
  method (Call.mark_failed id message) = ignore (Rows.mark_failed pg id message)
  method (Call.update_original_path id path) = ignore (Rows.update_original_path pg id path)
  method (Call.save_page id number path size) = ignore (Pages.save_page pg id number path size)
  method (Call.create_webhook user_id id url secret) =
      ignore (Webhooks.create_webhook pg user_id id url secret)
  method (Call.delete_document id user_id) = ignore (Rows.delete_document id user_id)
  method (Call.fail_stuck_documents cutoff) = ignore (Rows.fail_stuck_documents pg cutoff)
  method (Call.create_user email password_hash quota) =
      ignore (Reads.create_user pg email password_hash quota)
  method (Call.save user_id key hash content_type name size) =
      ignore (Save.save pg user_id key hash content_type name size)
  method (Call.delete now id user_id) = ignore (Delete.delete pg now id user_id)

  unfoldable pub run : List Call → Conn → Conn
  unfolding method
  run [] c = c
  run (call ∷ calls) c = run calls (method call c).1

  create_document-IsKept :
      (user_id filename path hash : String) (size : ℕ)
      → IsKept IsSound (Rows.create_document pg user_id filename path hash size)
  unfolding Rows.create_document create_document_tx
  create_document-IsKept user_id filename path hash size =
      transaction-IsKept IsSound "commit" (create_document_tx pg user_id filename path hash size) (
        >>=-IsKept IsSound _ _
          (label-IsKept IsSound _ _ (
            query-IsKept IsSound _ (create_document_row-IsKept pg user_id filename path hash size)))
          (λ d.
            >>=-IsKept IsSound _ _
              (label-IsKept IsSound _ _ (query-IsKept IsSound _ (add_usage-IsKept size user_id)))
              (λ u. pure-IsKept IsSound d)))

  -- Every call keeps the invariant, whether it succeeds or fails.
  method-IsKept : (call : Call) → IsKept IsSound (method call)
  unfolding method Rows.create_document Rows.mark_ready Rows.mark_failed Rows.update_original_path
      Pages.save_page Webhooks.create_webhook Rows.delete_document Rows.fail_stuck_documents
  method-IsKept (Call.create_document user_id filename path hash size) =
      ignore-IsKept IsSound _ (create_document-IsKept user_id filename path hash size)
  method-IsKept (Call.mark_ready id pages) =
      ignore-IsKept IsSound _
        (label-IsKept IsSound _ _ (query-IsKept IsSound _ (set_ready-IsKept pg id pages)))
  method-IsKept (Call.mark_failed id message) =
      ignore-IsKept IsSound _
        (label-IsKept IsSound _ _ (query-IsKept IsSound _ (set_failed-IsKept pg id message)))
  method-IsKept (Call.update_original_path id path) =
      ignore-IsKept IsSound _
        (label-IsKept IsSound _ _ (query-IsKept IsSound _ (set_path-IsKept pg id path)))
  method-IsKept (Call.save_page id number path size) = ignore-IsKept IsSound _ (
      label-IsKept IsSound _ _ (query-IsKept IsSound _ (upsert_page-IsKept pg id number path size)))
  method-IsKept (Call.create_webhook user_id id url secret) = ignore-IsKept IsSound _ (
      label-IsKept IsSound _ _
        (query-IsKept IsSound _ (insert_webhook-IsKept (new_webhook pg user_id id url secret))))
  method-IsKept (Call.delete_document id user_id) =
      ignore-IsKept IsSound _
        (or_not_found-IsKept IsSound _ _ (query-IsKept IsSound _ (drop_document-IsKept id user_id)))
  method-IsKept (Call.fail_stuck_documents cutoff) =
      ignore-IsKept IsSound _
        (label-IsKept IsSound _ _ (query-IsKept IsSound _ (fail_stuck-IsKept pg cutoff)))
  method-IsKept (Call.create_user email password_hash quota) =
      ignore-IsKept IsSound _ (create_user-IsKept pg email password_hash quota)
  method-IsKept (Call.save user_id key hash content_type name size) =
      ignore-IsKept IsSound _ (save-IsKept pg user_id key hash content_type name size)
  method-IsKept (Call.delete now id user_id) =
      ignore-IsKept IsSound _ (delete-IsKept pg now id user_id)

  -- Any sequence of the calls of the two stores that write, each of which succeeds or fails as the
  -- driver answers, keeps these facts: the ids of documents are unique, a document has one page of
  -- each number, every document has a row of its owner, every page and webhook has a row of its
  -- document, a ready document has its number of pages, and a failed one its message.
  pub run-IsSound : (calls : List Call) (c : Conn) → IsSound c.tables → IsSound (run calls c).tables
  unfolding run
  run-IsSound [] c s = s
  run-IsSound (call ∷ calls) c s =
      run-IsSound calls (method call c).1 ((method-IsKept call).holds c s)
