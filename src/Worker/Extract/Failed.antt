-- ===== src/Worker/Extract/Failed.antt =====
-- worker/processor.go: a task of `HandleExtractPages` that ends with an error.
use mathlib.Core.Path.{subst, subst₂}
use minio_3d.Base.{
  ℕ, String, Bool, true, false, ◌≡◌, ◌≢◌, ◌⊎◌, inl, inr, refl, sym, ap, ◌∙◌, List, [], ◌++◌, Option,
  some, arith, ◌==◌, select, if◌then◌else◌,
}
use minio_3d.Errors.{Error, wrap, Sentinel, is, message, Result, ok, err}
use minio_3d.Types.{Document, DocumentStatus}
use minio_3d.Exec.{label, recover}
use minio_3d.Exec.Laws.{>>=-eq-err, handle-eq-err, relabel-eq-err}
use minio_3d.Sql.{Tables, Conn, Postgres, quiet, one_row}
use minio_3d.Storage.{Storage, IsObjectStore}
use minio_3d.World.{on_conn}
use minio_3d.Documents.Rows.{get_document_by_id, mark_ready}
use minio_3d.Documents.Changes.{
  rows_of, get_document_by_id-found, get_document_by_id-row, get_document_by_id-quiet,
  get_document_by_id-tables, get_document_by_id-faults, change-row,
}
use minio_3d.Worker.Tasks.{Queue, System, ExtractPagesPayload, on_world}
use minio_3d.Worker.Pool.{Machine}
use minio_3d.Worker.Extract.{
  enqueue_webhooks, fail, pages_of, process, looked_up, handle_extract_pages,
}
use minio_3d.Worker.Extract.Announce.{tasks_of, accepted, unused, calm, marked, fail_lem}
use minio_3d.Worker.Extract.Steps.{Quiet, pages_of-Quiet}
use minio_3d.Worker.Extract.Ready.{ending}

of_parts :
    {S : Type 0} (t : Tables) (o : S) (q : Queue) (fs : List (Option String))
    → fs ≡ []
    → ◌≡◌ {A = System S}
        (record {
          world = record { conn = record { tables = t; faults = fs }; objects = o };
          queue = q;
        })
        (calm t o q.tasks q.faults)
of_parts t o q fs h = rw h refl

ok_or_err : {A : Type 0} (a : A) (e : Error) → ◌≡◌ {A = Result A} (ok a) (err e) → ⊥
ok_or_err a e h = cc

module _ {S : Type 0} where
  calm_of :
      (s : System S)
      → s.world.conn.faults ≡ []
      → s ≡ calm s.world.conn.tables s.world.objects s.queue.tasks s.queue.faults
  calm_of s h = of_parts s.world.conn.tables s.world.objects s.queue s.world.conn.faults h

  enqueue_webhooks-eq-err :
      (doc_id status : String) (n : ℕ) (s : System S) (e : Error) (s' : System S)
      → enqueue_webhooks doc_id status n s ≢ (err e, s')
  unfolding enqueue_webhooks
  enqueue_webhooks-eq-err doc_id status n s e s' h =
      ok_or_err tt e (ap (λ (r : Result (Unit {0}) × System S). r.0) h)

-- What a client sees of a document that has failed, and the tasks that tell its subscribers, as far as
-- the queue has taken them.
pub record IsFailed {S : Type 0} (doc_id : String) (e : Error) (before : Queue) (s' : System S)
    : Type 0 where
  pub doc : Document
  pub found : (get_document_by_id doc_id (quiet s'.world.conn.tables)).0 ≡ ok doc
  pub status : doc.status ≡ DocumentStatus.failed
  pub error_message : doc.error_message ≡ some (message e)
  pub told :
      s'.queue.tasks
      ≡ before.tasks ++ accepted (tasks_of doc_id "failed" 0 s'.world.conn.tables) before.faults

module _ {S : Type 0} (pg : Postgres) (doc_id : String) (doc : Document) where
  marked-IsFailed :
      (x : Error) (t : Tables) (o : S) (q : Queue)
      → one_row (rows_of doc_id t) ≡ ok doc
      → IsFailed doc_id x q (
          calm
            (marked pg doc_id x t)
            o
            (q.tasks ++ accepted (tasks_of doc_id "failed" 0 t) q.faults)
            (unused (tasks_of doc_id "failed" 0 t) q.faults))
  marked-IsFailed x t o q row =
      let set : Document → Document = λ d. record d {
        status = DocumentStatus.failed;
        error_message = some (message x);
        updated_at = pg.now t;
      } in
      record {
        doc = set doc;
        found =
            get_document_by_id-found doc_id (marked pg doc_id x t) (set doc)
              (change-row doc_id set t doc (λ _. refl) row);
        status = refl;
        error_message = refl;
        told = refl;
      }

  fail-IsFailed :
      (x e : Error) (s s' : System S)
      → s.world.conn.faults ≡ []
      → fail {A = ℕ} pg doc_id x s ≡ (err e, s')
      → one_row (rows_of doc_id s.world.conn.tables) ≡ ok doc
      → IsFailed doc_id e s.queue s'
  fail-IsFailed x e s s' answers h row =
      let ended =
        sym (
          fail_lem {A = ℕ} pg doc_id x s.world.conn.tables s.world.objects s.queue.tasks
            s.queue.faults)
        ∙ ap (fail {A = ℕ} pg doc_id x) (sym (calm_of s answers))
        ∙ h in
      let (same_error, same_end) = refused x e _ s' ended in
      subst₂ (λ f (q : System S). IsFailed doc_id f s.queue q) same_error same_end
        (marked-IsFailed x s.world.conn.tables s.world.objects s.queue row)
    where
      refused :
          (x e : Error) (w w' : System S)
          → ◌≡◌ {A = Result ℕ × System S} (err x, w) (err e, w')
          → (x ≡ e) × (w ≡ w')
      refused x e w w' h = ground arith

-- Either the document has failed, or it is `MarkReady` that has.
abbrev pub Ended : {S : Type 0} → String → Error → Queue → System S → Type 0
Ended doc_id e before s' = ((x : Error) × (e ≡ wrap "mark ready" x)) ⊎ IsFailed doc_id e before s'

module _ {S : Type 0} (machine : Machine) (store : Storage S) (holds : String → S → Bool)
    (laws : IsObjectStore store holds) (pg : Postgres) (schedule : List ℕ) where
  process-eq-err :
      (doc_id : String) (doc : Document) (s : System S) (e : Error) (s' : System S)
      → s.world.conn.faults ≡ []
      → process machine store pg schedule doc_id doc s ≡ (err e, s')
      → one_row (rows_of doc_id s.world.conn.tables) ≡ ok doc
      → Ended doc_id e s.queue s'
  unfolding process
  process-eq-err doc_id doc s e s' answers h row =
      let steps = pages_of machine store pg schedule doc_id doc in
      elim (>>=-eq-err (recover steps (fail pg doc_id)) (ending pg doc_id) s e s' h) [
        | inl ran ↦
            let (x, s₁, failing, marking) = handle-eq-err (steps s) (fail pg doc_id) e s' ran in
            let v : Quiet s s₁ =
              subst (Quiet s) (ap (λ (q : Result ℕ × System S). q.1) failing)
                (pages_of-Quiet machine store holds laws pg schedule doc_id doc s) in
            inr (
              subst (λ q. IsFailed doc_id e q s') v.queue
                (fail-IsFailed pg doc_id doc x e s₁ s' (v.faults answers) marking (
                  subst (λ ds. one_row (select (λ d. d.id == doc_id) ds) ≡ ok doc) (sym v.documents)
                    row)))
        | inr (n, s₁, ran, more) ↦ inl (unmarked n s₁ e s' more)
      ]
    where
      unmarked :
          (n : ℕ) (s₁ : System S) (e : Error) (s' : System S)
          → ending pg doc_id n s₁ ≡ (err e, s')
          → (x : Error) × (e ≡ wrap "mark ready" x)
      unmarked n s₁ e s' more =
          let mark = on_world (on_conn (mark_ready pg doc_id n)) in
          elim (>>=-eq-err (label "mark ready" mark) (λ _. enqueue_webhooks doc_id "ready" n) s₁ e
            s' more) [
              | inl refusal ↦
                  let (x, _, is_wrapped) = relabel-eq-err "mark ready" (mark s₁) e s' refusal in
                  (x, is_wrapped)
              | inr (v, s₂, _, telling) ↦
                  absurd (enqueue_webhooks-eq-err doc_id "ready" n s₂ e s' telling)
            ]

  looked_up-eq-err :
      (doc_id : String) (s : System S) (r : Result Document × Conn) (e : Error) (s' : System S)
      → s.world.conn.faults ≡ []
      → get_document_by_id doc_id s.world.conn ≡ r
      → looked_up machine store pg schedule doc_id
          (r.0, record s { world = record s.world { conn = r.1 } })
        ≡ (err e, s')
      → Ended doc_id e s.queue s'
  looked_up-eq-err doc_id s (ok doc, c) e s' answers read h =
      let at : Result Document × Conn → Conn = λ q. q.1 in
      process-eq-err doc_id doc _ e s'
        (ap (λ (d : Conn). d.faults) (ap at (sym read))
          ∙ get_document_by_id-faults doc_id s.world.conn answers)
        h
        (subst (λ (t : Tables). one_row (rows_of doc_id t) ≡ ok doc)
          (sym (
            ap (λ (d : Conn). d.tables) (ap at (sym read))
            ∙ get_document_by_id-tables doc_id s.world.conn))
          (get_document_by_id-row doc_id s.world.conn doc c read))
  looked_up-eq-err doc_id s (err x, c) e s' answers read h = absurd (
      not_skipped (is x Sentinel.not_found) _ e _ s'
        (get_document_by_id-quiet doc_id s.world.conn x c answers read) h)
    where
      not_skipped :
          (b : Bool) (x e : Error) (w w' : System S)
          → b ≡ true
          → ◌≡◌ {A = Result (Unit {0}) × System S}
              (if b then (ok tt, w) else (err x, w))
              (err e, w')
          → ⊥
      not_skipped true x e w w' h k = cc
      not_skipped false x e w w' h k = cc

  -- Over a store that keeps its laws, when the driver goes on to answer and a task ends with an error,
  -- then unless the error is that of `MarkReady` the document has failed, its row keeps the text of
  -- the error, and each of its subscriptions has been handed to the queue once, as a delivery with its
  -- address and secret, the status "failed" and no pages: those that the queue takes come behind its
  -- tasks, in the order of the rows.
  pub handle_extract_pages-failed :
      (p : ExtractPagesPayload) (s : System S) (e : Error) (s' : System S)
      → s.world.conn.faults ≡ []
      → handle_extract_pages machine store pg schedule (ok p) s ≡ (err e, s')
      → Ended p.document_id e s.queue s'
  unfolding handle_extract_pages
  handle_extract_pages-failed p s e s' answers h =
      looked_up-eq-err p.document_id s (get_document_by_id p.document_id s.world.conn) e s' answers
        refl h
