-- ===== src/Worker/Extract/Announce.antt =====
-- worker/processor.go: what `enqueueWebhooks` leaves in the queue.
use mathlib.Core.List.{map}
use mathlib.Core.List.{append_assoc, append-nil}
use minio_3d.Base.{
  sym, ℕ, String, ◌≡◌, refl, ap, ◌∙◌, List, [], ◌∷◌, ◌++◌, ◌==◌, select, some, none, Option,
}
use minio_3d.Errors.{Error, Result, ok, err, message}
use minio_3d.Types.{failed, WebhookSubscription}
use minio_3d.Exec.{continue, raise}
use minio_3d.Sql.{Tables, Conn, Postgres, quiet}
use minio_3d.Sql.Reading.{label-query-reading}
use minio_3d.World.{on_conn}
use minio_3d.Documents.Rows.{change, mark_failed}
use minio_3d.Documents.Webhooks.{get_webhooks_for_document}
use minio_3d.Worker.Tasks.{Task, fire_webhook, Queue, System, on_world, on_queue}
use minio_3d.Worker.Extract.{enqueue_each, enqueue_webhooks, fail}

-- The delivery that a subscription is owed.
abbrev pub owed : String → String → ℕ → WebhookSubscription → Task
owed doc_id status n hook = fire_webhook (record {
  document_id = doc_id;
  webhook_url = hook.url;
  secret = hook.secret;
  status = status;
  total_pages = n;
})

-- The deliveries that the subscriptions of a document are owed, in the order of the rows.
abbrev pub tasks_of : String → String → ℕ → Tables → List Task
tasks_of doc_id status n t =
    map (owed doc_id status n) (select (λ w. w.document_id == doc_id) t.webhooks)

-- The tasks that the client takes when each is handed to it once, and the failures that then remain.
abbrev pub accepted : List Task → List (Option Error) → List Task
accepted [] fs = []
accepted (t ∷ ts) [] = t ∷ accepted ts []
accepted (t ∷ ts) (none ∷ fs) = t ∷ accepted ts fs
accepted (t ∷ ts) (some e ∷ fs) = accepted ts fs

abbrev pub unused : List Task → List (Option Error) → List (Option Error)
unused [] fs = fs
unused (t ∷ ts) [] = []
unused (t ∷ ts) (f ∷ fs) = unused ts fs

-- A system whose driver goes on to answer, and one whose queue does so too.
abbrev pub calm : {S : Type 0} → Tables → S → List Task → List (Option Error) → System S
calm t o tasks faults = record {
  world = record { conn = quiet t; objects = o };
  queue = record { tasks = tasks; faults = faults };
}

abbrev pub resting : {S : Type 0} → Tables → S → List Task → System S
resting t o tasks = calm t o tasks []

unused-nil : (ts : List Task) → unused ts [] ≡ []
unused-nil [] = refl
unused-nil (t ∷ ts) = refl

module _ (doc_id status : String) (n : ℕ) where
  abbrev filled : List Task → List (Option Error) → Queue
  filled ts fs = record { tasks = ts; faults = fs }

  abbrev owed_to : List WebhookSubscription → List Task
  owed_to hooks = map (owed doc_id status n) hooks

  enqueue_each_lem :
      (hooks : List WebhookSubscription) (ts : List Task) (fs : List (Option Error))
      → enqueue_each doc_id status n hooks (filled ts fs)
        ≡ (ok tt, filled (ts ++ accepted (owed_to hooks) fs) (unused (owed_to hooks) fs))
  unfolding enqueue_each
  enqueue_each_lem [] ts fs = ap (λ l. (ok tt, filled l fs)) (sym (append-nil ts))
  enqueue_each_lem (hook ∷ hooks) ts [] =
      let task = owed doc_id status n hook in
      enqueue_each_lem hooks (ts ++ task ∷ []) []
      ∙ rw (append_assoc ts (task ∷ []) (accepted (owed_to hooks) []), unused-nil (owed_to hooks))
          refl
  enqueue_each_lem (hook ∷ hooks) ts (none ∷ fs) =
      let task = owed doc_id status n hook in
      enqueue_each_lem hooks (ts ++ task ∷ []) fs
      ∙ rw (append_assoc ts (task ∷ []) (accepted (owed_to hooks) fs)) refl
  enqueue_each_lem (hook ∷ hooks) ts (some e ∷ fs) = enqueue_each_lem hooks ts fs

  module _ {S : Type 0} where
    -- While the driver answers, and whichever calls of the queue fail: each subscription of the
    -- document is handed to the queue once, in the order of the rows, as a delivery to its address,
    -- with its secret, of the document's id, the status and the number of pages, also after a call
    -- that failed; the tasks that the queue takes come to its end, and nothing else changes.
    pub enqueue_webhooks_lem :
        (t : Tables) (o : S) (ts : List Task) (fs : List (Option Error))
        → enqueue_webhooks doc_id status n (calm t o ts fs) ≡ (
          ok tt,
          calm t o
              (ts ++ accepted (tasks_of doc_id status n t) fs)
              (unused (tasks_of doc_id status n t) fs),
        )
    unfolding enqueue_webhooks get_webhooks_for_document
    enqueue_webhooks_lem t o ts fs =
        ap (λ (r : Result (Unit {0}) × Queue). (ok tt, record (calm t o ts fs) { queue = r.1 }))
          (enqueue_each_lem (select (λ w. w.document_id == doc_id) t.webhooks) ts fs)

    announced :
        (r : Result (List WebhookSubscription) × Conn) (s : System S)
        → let q =
            continue
              (on_world (on_conn (λ _. r)) s)
              (λ hooks. on_queue (enqueue_each doc_id status n hooks)) in
          (q.1.world.conn ≡ r.1) × (q.1.world.objects ≡ s.world.objects)
    announced (ok hooks, c) s = (refl, refl)
    announced (err e, c) s = (refl, refl)

    -- Whatever fails, the tables and the objects are as before.
    pub enqueue_webhooks-world :
        (s : System S)
        → ((enqueue_webhooks doc_id status n s).1.world.conn.tables ≡ s.world.conn.tables)
          × ((enqueue_webhooks doc_id status n s).1.world.objects ≡ s.world.objects)
    unfolding enqueue_webhooks get_webhooks_for_document
    enqueue_webhooks-world s =
        let (conn_is, same) = announced (get_webhooks_for_document doc_id s.world.conn) s in
        (
          ap (λ (c : Conn). c.tables) conn_is
              ∙ label-query-reading "get webhooks"
                  (λ t. ok (select (λ w. w.document_id == doc_id) t.webhooks)) s.world.conn,
          same,
        )

-- The rows when a document has failed.
abbrev pub marked : Postgres → String → Error → Tables → Tables
marked pg doc_id e t =
    change doc_id
      (λ d. record d { status = failed; error_message = some (message e); updated_at = pg.now t }) t

module _ {S : Type 0} {A : Type 0} (pg : Postgres) (doc_id : String) (e : Error) where
  -- While the driver answers, `fail` returns its error, the document has failed with the text of the
  -- error, and its subscriptions are told so as far as the queue takes the tasks.
  pub fail_lem :
      (t : Tables) (o : S) (ts : List Task) (fs : List (Option Error))
      → fail {A = A} pg doc_id e (calm t o ts fs) ≡ (
        err e,
        calm
            (marked pg doc_id e t)
            o
            (ts ++ accepted (tasks_of doc_id "failed" 0 t) fs)
            (unused (tasks_of doc_id "failed" 0 t) fs),
      )
  unfolding fail mark_failed
  fail_lem t o ts fs =
      ap (λ (r : Result (Unit {0}) × System S). continue {B = A} r (λ _. raise e))
        (enqueue_webhooks_lem doc_id "failed" 0 (marked pg doc_id e t) o ts fs)
