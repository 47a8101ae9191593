-- ===== src/Documents/Invariant.antt =====
-- The invariant of the documents, their pages and their webhooks: the keys of db/migrations, the
-- references, and what a settled document records.
pub mod Adding
pub mod Changing
pub mod Others
use minio_3d.Base.{ℕ, ◌≤◌, ◌≡◌, String, Bool, true, not, Option, ◌==◌, any, count, All}
use minio_3d.Types.{
  DocumentStatus, processing, ready, failed, Document, DocumentPage, WebhookSubscription, is_null,
}
use minio_3d.Sql.{Tables}
use minio_3d.Documents.Pages.{is_page}

-- A ready document has its number of pages, a failed one its message.
abbrev pub is_settled : DocumentStatus → Option ℕ → Option String → Bool
is_settled processing total_pages message = true
is_settled ready total_pages message = not (is_null total_pages)
is_settled failed total_pages message = not (is_null message)

abbrev pub IsSettled : Document → Type 0
IsSettled d = is_settled d.status d.total_pages d.error_message ≡ true

abbrev pub has_user : Tables → String → Bool
has_user t id = any (λ u. u.id == id) t.users

abbrev pub has_document : Tables → String → Bool
has_document t id = any (λ d. d.id == id) t.documents

pub record IsSound (t : Tables) : Type 0 where
  pub ids : (k : String) → count (λ d. d.id == k) t.documents ≤ 1
  pub numbers : (k : String) (n : ℕ) → count (is_page k n) t.pages ≤ 1
  pub owners : All (λ d. has_user t d.user_id ≡ true) t.documents
  pub settled : All IsSettled t.documents
  pub page_refs : All (λ p. has_document t p.document_id ≡ true) t.pages
  pub hook_refs : All (λ w. has_document t w.document_id ≡ true) t.webhooks
