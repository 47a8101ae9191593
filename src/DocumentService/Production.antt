-- ===== src/DocumentService/Production.antt =====
-- `*DocumentStore` as the repository of `DocumentService`, as main.go composes them.
use minio_3d.Sql.{Postgres}
use minio_3d.World.{World, on_conn}
use minio_3d.Documents.Rows as Rows
use minio_3d.Documents.Pages as Pages
use minio_3d.Documents.Webhooks as Webhooks
use minio_3d.DocumentService.{DocumentRepository}

abbrev pub document_store : {S : Type 0} → Postgres → DocumentRepository (World S)
document_store pg = record {
  create_document = λ user_id filename minio_path hash size_bytes.
      on_conn (Rows.create_document pg user_id filename minio_path hash size_bytes);
  get_document = λ id user_id. on_conn (Rows.get_document id user_id);
  list_documents = λ user_id. on_conn (Rows.list_documents user_id);
  mark_failed = λ doc_id err_msg. on_conn (Rows.mark_failed pg doc_id err_msg);
  update_original_path = λ doc_id path. on_conn (Rows.update_original_path pg doc_id path);
  get_page = λ doc_id number. on_conn (Pages.get_page doc_id number);
  get_page_range = λ doc_id start end. on_conn (Pages.get_page_range doc_id start end);
  list_pages = λ doc_id. on_conn (Pages.list_pages doc_id);
  create_webhook =
      λ user_id doc_id url secret. on_conn (Webhooks.create_webhook pg user_id doc_id url secret);
  delete_document = λ id user_id. on_conn (Rows.delete_document id user_id);
}
