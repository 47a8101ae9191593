-- ===== src/Documents.antt =====
-- storage/document_store.go: `DocumentStore`, the documents, their pages and their webhooks.
pub mod Rows
pub mod Invariant
pub mod Pages
pub mod Webhooks
pub mod Timeouts
pub mod Usage
pub mod Changes
pub mod Calls
