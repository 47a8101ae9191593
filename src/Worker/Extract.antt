-- ===== src/Worker/Extract.antt =====
-- worker/processor.go: `HandleExtractPages`, which takes a document from its upload to its pages, with
-- `downloadToFile`, `fail` and `enqueueWebhooks`. What is logged is left out.
pub mod Announce
pub mod Steps
pub mod Ready
pub mod Failed
use minio_3d.Base.{
  ℕ, zero, suc, String, true, false, Option, none, some, List, [], ◌∷◌, eqb, ltb, if◌then◌else◌,
}
use minio_3d.Errors.{Error, plain, wrap, Sentinel, Result, ok, err, message, is}
use minio_3d.Numbers.{decimal}
use minio_3d.Paths.{concat}
use minio_3d.Types.{Document, WebhookSubscription}
use minio_3d.Exec.{Exec, pure, raise, lift, label, ignore, guard, recover, ◌>>=◌, ◌>>◌}
use minio_3d.Sql.{Postgres}
use minio_3d.Storage.{Bytes, Storage}
use minio_3d.World.{World, on_conn, on_objects}
use minio_3d.Documents.Rows.{get_document_by_id, mark_ready, mark_failed}
use minio_3d.Documents.Webhooks.{get_webhooks_for_document}
use minio_3d.Worker.Tasks.{
  ExtractPagesPayload, Task, Queue, enqueue, new_fire_webhook_task, System, on_world, on_queue,
}
use minio_3d.Worker.Pool.{Machine, Pool, join}
use minio_3d.Worker.Pool.Complete.{extract_all}

-- The task of one subscription.
abbrev pub webhook_task : String → String → ℕ → WebhookSubscription → Task
webhook_task doc_id status total_pages hook = new_fire_webhook_task (record {
  document_id = doc_id;
  webhook_url = hook.url;
  secret = hook.secret;
  status = status;
  total_pages = total_pages;
})

-- The loop of `enqueueWebhooks`.
unfoldable pub enqueue_each : String → String → ℕ → List WebhookSubscription → Exec Queue (Unit {0})
unfolding ◌>>=◌ enqueue
enqueue_each doc_id status total_pages [] = pure tt
enqueue_each doc_id status total_pages (hook ∷ hooks) =
    ignore (enqueue (webhook_task doc_id status total_pages hook))
    >> enqueue_each doc_id status total_pages hooks

-- `if firstErr != nil`
abbrev pub reported : Option Error → Result (Unit {0})
reported none = ok tt
reported (some e) = err e

module _ {S : Type 0} where
  unfoldable pub enqueue_webhooks : String → String → ℕ → Exec (System S) (Unit {0})
  unfolding ◌>>=◌ enqueue_each
  enqueue_webhooks doc_id status total_pages = ignore (
      on_world (on_conn (get_webhooks_for_document doc_id)) >>= λ hooks.
      on_queue (enqueue_each doc_id status total_pages hooks))

module _ {ℓ} {S : Type 0} {A : Type ℓ} where
  -- `fail`: the error of `MarkFailed` is dropped, and the task returns its own.
  unfoldable pub fail : Postgres → String → Error → Exec (System S) A
  unfolding ◌>>=◌ enqueue_webhooks
  fail pg doc_id e =
      ignore (on_world (on_conn (mark_failed pg doc_id (message e))))
      >> (enqueue_webhooks doc_id "failed" 0 >> raise e)

-- The file that is downloaded, the directory of its pages, and how many there are.
pub record Original : Type 0 where
  pub bytes : Bytes
  pub pages_dir : String
  pub page_count : ℕ

module _ {S : Type 0} (machine : Machine) (store : Storage S) where
  unfoldable pub download_to_file : String → String → Exec (System S) Bytes
  unfolding ◌>>=◌ decimal
  download_to_file key dest = do
    url ← label "presign download" (on_world (on_objects (store.get_presigned_url key)))
    label "build download request" (lift (machine.new_request url))
    (status, body) ← label "download request" (lift (machine.do_request url))
    guard (eqb status 200) (plain (concat ("download returned " ∷ decimal status ∷ [])))
    label "create dest file" (lift (machine.create_file dest))
    label "write to disk" (lift body)

  -- `HandleExtractPages` from the temporary directory to the directory of the pages.
  unfoldable pub prepare : String → Document → Exec (System S) Original
  unfolding ◌>>=◌ download_to_file
  prepare doc_id doc = do
    tmp ←
        label "create temp dir"
          (lift (machine.mkdir_temp (concat ("pdfextract-" ∷ doc_id ∷ "-*" ∷ []))))
    bytes ←
        label "download original"
          (download_to_file doc.original_minio_path (join tmp "original.pdf"))
    page_count ← label "count pages" (lift (machine.page_count_file bytes))
    guard (if eqb page_count 0 then false else true) (plain "PDF has 0 pages")
    label "create pages dir" (lift (machine.mkdir_all (join tmp "pages")))
    pure (record { bytes = bytes; pages_dir = join tmp "pages"; page_count = page_count })

  module _ (pg : Postgres) (schedule : List ℕ) where
    -- The goroutines and `wg.Wait()`, with `firstErr` at their end.
    unfoldable pub extract : String → Original → Exec (World S) (Unit {0})
    unfolding extract_all
    extract doc_id original w =
        let p =
          extract_all machine store pg original.bytes original.pages_dir doc_id schedule
            original.page_count w in
        (reported p.first_err, p.world)

    -- The steps whose errors go through `fail`.
    unfoldable pub pages_of : String → Document → Exec (System S) ℕ
    unfolding ◌>>=◌ prepare extract
    pages_of doc_id doc = do
      original ← prepare doc_id doc
      on_world (extract doc_id original)
      pure original.page_count

    unfoldable pub process : String → Document → Exec (System S) (Unit {0})
    unfolding ◌>>=◌ pages_of fail enqueue_webhooks
    process doc_id doc = do
      page_count ← recover (pages_of doc_id doc) (fail pg doc_id)
      label "mark ready" (on_world (on_conn (mark_ready pg doc_id page_count)))
      enqueue_webhooks doc_id "ready" page_count

    -- A document that has been deleted in the meantime is no error.
    abbrev pub looked_up : String → Result Document × System S → Result (Unit {0}) × System S
    looked_up doc_id (ok doc, s) = process doc_id doc s
    looked_up doc_id (err e, s) =
        if is e Sentinel.not_found
        then (ok tt, s)
        else (err (wrap (concat ("get document " ∷ doc_id ∷ [])) e), s)

    unfoldable pub handle_extract_pages : Result ExtractPagesPayload → Exec (System S) (Unit {0})
    unfolding ◌>>=◌ process
    handle_extract_pages payload = do
      p ← label "unmarshal payload" (lift payload)
      λ s. looked_up p.document_id (on_world (on_conn (get_document_by_id p.document_id)) s)
