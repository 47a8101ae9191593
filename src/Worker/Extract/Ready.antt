-- ===== src/Worker/Extract/Ready.antt =====
-- worker/processor.go: a task of `HandleExtractPages` that ends without an error.
use mathlib.Core.Path.{subst}
use minio_3d.Base.{
  ℕ, suc, String, Bool, true, false, ◌≡◌, ◌≢◌, ◌⊎◌, inl, inr, refl, sym, ap, ◌∙◌, List, [], some,
  arith, eqb, ◌==◌, select, if◌then◌else◌,
}
use minio_3d.Errors.{Error, Sentinel, is, Result, ok, err}
use minio_3d.Types.{Document, DocumentStatus}
use minio_3d.Exec.{Exec, label, recover, ◌>>◌}
use minio_3d.Exec.Laws.{>>=-eq-ok, handle-eq-ok, relabel-eq-ok}
use minio_3d.Sql.{Tables, Conn, Postgres, quiet, one_row}
use minio_3d.Storage.{Storage, IsObjectStore}
use minio_3d.World.{World, on_conn}
use minio_3d.Documents.Rows.{get_document_by_id, mark_ready, change}
use minio_3d.Documents.Changes.{
  rows_of, get_document_by_id-found, get_document_by_id-row, get_document_by_id-missing,
  get_document_by_id-tables, change-row, get_page-change, readied, mark_ready-eq-ok,
}
use minio_3d.Worker.Tasks.{System, ExtractPagesPayload, on_world}
use minio_3d.Worker.Pool.{Machine, page_path}
use minio_3d.Documents.Pages.{get_page}
use minio_3d.Worker.Extract.{
  enqueue_webhooks, fail, pages_of, process, looked_up, handle_extract_pages,
}
use minio_3d.Worker.Extract.Announce.{enqueue_webhooks-world}
use minio_3d.Worker.Extract.Steps.{HasPages, Extracted, pages_of-eq-ok}

fail-eq-err :
    {S : Type 0} (pg : Postgres) (doc_id : String) (e : Error) (s : System S) (n : ℕ)
    (s' : System S)
    → fail pg doc_id e s ≢ (ok n, s')
unfolding fail
fail-eq-err pg doc_id e s n s' h = differ (ap (λ (r : Result ℕ × System _). r.0) h)
  where
    differ : err e ≢ ok n
    differ h = cc

-- The steps of `HandleExtractPages` after its goroutines.
abbrev pub ending : {S : Type 0} → Postgres → String → ℕ → Exec (System S) (Unit {0})
ending pg doc_id n =
    label "mark ready" (on_world (on_conn (mark_ready pg doc_id n)))
    >> enqueue_webhooks doc_id "ready" n

skipped :
    {W : Type 0} (b : Bool) (e : Error) (w w' : W)
    → ◌≡◌ {A = Result (Unit {0}) × W} (if b then (ok tt, w) else (err e, w)) (ok tt, w')
    → (b ≡ true) × (w ≡ w')
skipped true e w w' h = (refl, ground arith)
skipped false e w w' h = cc

module _ {S : Type 0} (holds : String → S → Bool) (doc_id : String) where
  -- What a client sees of a document that is ready.
  pub record IsReady (w : World S) : Type 0 where
    pub n : ℕ
    pub doc : Document
    pub positive : eqb n 0 ≡ false
    pub found : (get_document_by_id doc_id (quiet w.conn.tables)).0 ≡ ok doc
    pub status : doc.status ≡ DocumentStatus.ready
    pub total_pages : doc.total_pages ≡ some n
    pub pages : HasPages holds doc_id n w

  -- A task that ends well: the document had been deleted, or it is ready.
  abbrev pub Done : System S → System S → Type 0
  Done s s' =
      ((rows_of doc_id s.world.conn.tables ≡ [])
        × (s'.world.conn.tables ≡ s.world.conn.tables)
        × (s'.world.objects ≡ s.world.objects)
        × (s'.queue ≡ s.queue))
      ⊎ IsReady s'.world

module _ {S : Type 0} (machine : Machine) (store : Storage S) (holds : String → S → Bool)
    (laws : IsObjectStore store holds) (pg : Postgres) (schedule : List ℕ) (doc_id : String) where
  module _ (doc : Document) where
    ended :
        (n : ℕ) (s : System S) (u : Unit) (s' : System S)
        → ending pg doc_id n s ≡ (ok u, s')
        → (s'.world.conn.tables
            ≡ change doc_id (readied pg n s.world.conn.tables) s.world.conn.tables)
          × (s'.world.objects ≡ s.world.objects)
    ended n s u s' h =
        let (v, s₁, marked, told) =
          >>=-eq-ok (label "mark ready" (on_world (on_conn (mark_ready pg doc_id n))))
            (λ _. enqueue_webhooks doc_id "ready" n) s u s' h in
        let written =
          relabel-eq-ok "mark ready" (on_world (on_conn (mark_ready pg doc_id n)) s) v s₁ marked in
        let (tables, objects) = enqueue_webhooks-world doc_id "ready" n s₁ in
        (
          ap (λ (q : Result (Unit {0}) × System S). q.1.world.conn.tables) (sym told)
              ∙ tables
              ∙ mark_ready-eq-ok pg doc_id n s.world.conn v s₁.world.conn
                  (ap (λ (q : Result (Unit {0}) × System S). (q.0, q.1.world.conn)) written),
          ap (λ (q : Result (Unit {0}) × System S). q.1.world.objects) (sym told)
              ∙ objects
              ∙ ap (λ (q : Result (Unit {0}) × System S). q.1.world.objects) (sym written),
        )

    Extracted-IsReady :
        (n : ℕ) (s s₁ s' : System S)
        → Extracted holds doc_id n s s₁
        → one_row (rows_of doc_id s.world.conn.tables) ≡ ok doc
        → s'.world.conn.tables
          ≡ change doc_id (readied pg n s₁.world.conn.tables) s₁.world.conn.tables
        → s'.world.objects ≡ s₁.world.objects
        → IsReady holds doc_id s'.world
    Extracted-IsReady n s s₁ s' x row tables objects = record {
      n = n;
      doc = readied pg n s₁.world.conn.tables doc;
      positive = x.positive;
      found =
          subst
            (λ (t : Tables).
              (get_document_by_id doc_id (quiet t)).0 ≡ ok (readied pg n s₁.world.conn.tables doc))
            (sym tables)
            (get_document_by_id-found doc_id _ _ (
              change-row doc_id (readied pg n s₁.world.conn.tables) s₁.world.conn.tables doc
                (λ _. refl)
                (subst (λ ds. one_row (select (λ d. d.id == doc_id) ds) ≡ ok doc) (sym x.documents)
                  row)));
      status = refl;
      total_pages = refl;
      pages = λ i h.
          let ((r, found, path), stored) = x.pages i h in
          (
            (
              r,
              ap (λ (t : Tables). (get_page doc_id (suc i) (quiet t)).0) tables
                  ∙ get_page-change doc_id (readied pg n s₁.world.conn.tables) doc_id (suc i)
                      s₁.world.conn.tables
                  ∙ found,
              path,
            ),
            ap (λ (o : S). holds (page_path doc_id (suc i)) o) objects ∙ stored,
          );
    }

    process-eq-ok :
        (s : System S) (u : Unit) (s' : System S)
        → process machine store pg schedule doc_id doc s ≡ (ok u, s')
        → one_row (rows_of doc_id s.world.conn.tables) ≡ ok doc
        → IsReady holds doc_id s'.world
    unfolding process
    process-eq-ok s u s' h row =
        let (n, s₁, ran, more) =
          >>=-eq-ok (recover (pages_of machine store pg schedule doc_id doc) (fail pg doc_id))
            (ending pg doc_id) s u s' h in
        let (tables, objects) = ended n s₁ u s' more in
        elim (handle-eq-ok (pages_of machine store pg schedule doc_id doc s) (fail pg doc_id) n s₁
          ran) [
            | inl done ↦
                Extracted-IsReady n s s₁ s'
                  (pages_of-eq-ok machine store holds laws pg schedule doc_id doc s n s₁ done) row
                  tables objects
            | inr (e, s₂, _, failed) ↦ absurd (fail-eq-err pg doc_id e s₂ n s₁ failed)
          ]

module _ {S : Type 0} (machine : Machine) (store : Storage S) (holds : String → S → Bool)
    (laws : IsObjectStore store holds) (pg : Postgres) (schedule : List ℕ) where
  looked_up-eq-ok :
      (doc_id : String) (s : System S) (r : Result Document × Conn) (s' : System S)
      → get_document_by_id doc_id s.world.conn ≡ r
      → looked_up machine store pg schedule doc_id
          (r.0, record s { world = record s.world { conn = r.1 } })
        ≡ (ok tt, s')
      → Done holds doc_id s s'
  looked_up-eq-ok doc_id s (ok doc, c) s' read h = inr (
      process-eq-ok machine store holds laws pg schedule doc_id doc _ tt s' h (
        subst (λ (t : Tables). one_row (rows_of doc_id t) ≡ ok doc)
          (sym (
            ap (λ (q : Result Document × Conn). q.1.tables) (sym read)
            ∙ get_document_by_id-tables doc_id s.world.conn))
          (get_document_by_id-row doc_id s.world.conn doc c read)))
  looked_up-eq-ok doc_id s (err e, c) s' read h =
      let same_tables =
        ap (λ (q : Result Document × Conn). q.1.tables) (sym read)
        ∙ get_document_by_id-tables doc_id s.world.conn in
      let missing = get_document_by_id-missing doc_id s.world.conn e c read in
      let (sure, same) = skipped (is e Sentinel.not_found) _ _ s' h in
      inl (
        missing sure,
        ap (λ (q : System S). q.world.conn.tables) (sym same) ∙ same_tables,
        ap (λ (q : System S). q.world.objects) (sym same),
        ap (λ (q : System S). q.queue) (sym same),
      )

  -- Over a store that keeps its laws, when a task ends without an error, either its document had
  -- been deleted, and the tables, the objects and the queue are as before, or the document is
  -- ready: it has some number of pages, not zero, and from the first to the last of them each has
  -- a row that `GetPage` finds and an object in the store.
  pub handle_extract_pages-ready :
      (p : ExtractPagesPayload) (s s' : System S)
      → handle_extract_pages machine store pg schedule (ok p) s ≡ (ok tt, s')
      → Done holds p.document_id s s'
  unfolding handle_extract_pages
  handle_extract_pages-ready p s s' h =
      looked_up-eq-ok p.document_id s (get_document_by_id p.document_id s.world.conn) s' refl h
