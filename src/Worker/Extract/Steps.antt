-- ===== src/Worker/Extract/Steps.antt =====
-- worker/processor.go: what `HandleExtractPages` changes up to the end of its goroutines.
use mathlib.Core.Path.{subst}
use minio_3d.Base.{
  ℕ, suc, ◌<◌, String, Bool, true, false, ◌≡◌, refl, sym, ap, ◌∙◌, List, [], Option, none, some,
  arith, eqb,
}
use minio_3d.Errors.{Error, Result, ok, err}
use minio_3d.Types.{Document}
use minio_3d.Exec.{Exec, pure, continue, ◌>>=◌}
use minio_3d.Exec.Laws.{>>=-eq-ok}
use minio_3d.Sql.{Conn, Postgres}
use minio_3d.Storage.{Storage, IsObjectStore}
use minio_3d.World.{World}
use minio_3d.Worker.Tasks.{System, on_world}
use minio_3d.Worker.Pool.{Machine, page_path}
use minio_3d.Worker.Pool.Contents.{HasPage}
use minio_3d.Worker.Pool.Complete.{extract_all, extract_all-IsPlaced, extract_all_lem}
use minio_3d.Worker.Extract.{Original, reported, download_to_file, prepare, extract, pages_of}

-- The queue and the database are as they were.
abbrev pub Beside : {S : Type 0} → System S → System S → Type 0
Beside s s' = (s'.queue ≡ s.queue) × (s'.world.conn ≡ s.world.conn)

-- Before the document is marked: the queue and the documents are as they were.
pub record Quiet {S : Type 0} (s s' : System S) : Type 0 where
  pub queue : s'.queue ≡ s.queue
  pub documents : s'.world.conn.tables.documents ≡ s.world.conn.tables.documents
  pub faults : s.world.conn.faults ≡ [] → s'.world.conn.faults ≡ []

answered :
    {W A : Type 0} (a b : A) (w w' : W)
    → ◌≡◌ {A = Result A × W} (ok a, w) (ok b, w')
    → (a ≡ b) × (w ≡ w')
answered a b w w' h = ground arith

module _ {S : Type 0} (machine : Machine) (store : Storage S) where
  download_to_file-Beside :
      (key dest : String) (s : System S) → Beside s (download_to_file machine store key dest s).1
  unfolding download_to_file
  download_to_file-Beside key dest s = (ground arith, ground arith)

  prepare-Beside :
      (doc_id : String) (doc : Document) (s : System S)
      → Beside s (prepare machine store doc_id doc s).1
  unfolding prepare
  prepare-Beside doc_id doc s = (ground arith, ground arith)

  prepare-positive :
      (doc_id : String) (doc : Document) (s : System S) (o : Original) (s' : System S)
      → prepare machine store doc_id doc s ≡ (ok o, s')
      → eqb o.page_count 0 ≡ false
  unfolding prepare
  prepare-positive doc_id doc s o s' h = ground arith

module _ {S : Type 0} (holds : String → S → Bool) (doc_id : String) where
  -- All pages of a document are there.
  abbrev pub HasPages : ℕ → World S → Type 0
  HasPages n w =
      (i : ℕ)
      → i < n
      → HasPage doc_id (suc i) w.conn.tables × (holds (page_path doc_id (suc i)) w.objects ≡ true)

  pub record Extracted (n : ℕ) (s s' : System S) : Type 0 where
    pub positive : eqb n 0 ≡ false
    pub pages : HasPages n s'.world
    pub documents : s'.world.conn.tables.documents ≡ s.world.conn.tables.documents

reported-eq-ok : (e : Option Error) (u : Unit) → reported e ≡ ok u → e ≡ none
reported-eq-ok none u h = refl
reported-eq-ok (some e) u h = cc

module _ {S : Type 0} (machine : Machine) (store : Storage S) (holds : String → S → Bool)
    (laws : IsObjectStore store holds) (pg : Postgres) (schedule : List ℕ) (doc_id : String) where
  extract-eq-ok :
      (o : Original) (w : World S) (u : Unit) (w' : World S)
      → extract machine store pg schedule doc_id o w ≡ (ok u, w')
      → HasPages holds doc_id o.page_count w' × (w'.conn.tables.documents ≡ w.conn.tables.documents)
  unfolding extract
  extract-eq-ok o w u w' h =
      let p = extract_all machine store pg o.bytes o.pages_dir doc_id schedule o.page_count w in
      let clean = reported-eq-ok p.first_err u (ap (λ (q : Result (Unit {0}) × World S). q.0) h) in
      subst
        (λ (v : World S).
          HasPages holds doc_id o.page_count v
          × (v.conn.tables.documents ≡ w.conn.tables.documents))
        (ap (λ (q : Result (Unit {0}) × World S). q.1) h)
        (extract_all_lem machine store holds laws pg o.bytes o.pages_dir doc_id schedule
          o.page_count w clean)

  extract-IsPlaced :
      (o : Original) (w : World S)
      → let w' = (extract machine store pg schedule doc_id o w).1 in
        (w'.conn.tables.documents ≡ w.conn.tables.documents)
        × (w.conn.faults ≡ [] → w'.conn.faults ≡ [])
  unfolding extract
  extract-IsPlaced o w =
      let v =
        extract_all-IsPlaced machine store holds laws pg o.bytes o.pages_dir doc_id schedule
          o.page_count w in
      (v.same_documents, v.quiet_still)

  abbrev extracting : Original → Exec (System S) (Unit {0})
  extracting o = on_world (extract machine store pg schedule doc_id o)

  abbrev rest : Original → Exec (System S) ℕ
  rest o = extracting o >>= λ _. pure o.page_count

  rest-eq-ok :
      (o : Original) (s : System S) (n : ℕ) (s' : System S)
      → rest o s ≡ (ok n, s')
      → (o.page_count ≡ n)
        × HasPages holds doc_id o.page_count s'.world
        × (s'.world.conn.tables.documents ≡ s.world.conn.tables.documents)
  rest-eq-ok o s n s' h =
      let (u, s₁, ran, done) = >>=-eq-ok (extracting o) (λ _. pure o.page_count) s n s' h in
      let (counted, same) = answered o.page_count n s₁ s' done in
      let (pages, documents) =
        extract-eq-ok o s.world u s₁.world
          (ap (λ (q : Result (Unit {0}) × System S). (q.0, q.1.world)) ran) in
      (
        counted,
        subst (λ (v : System S). HasPages holds doc_id o.page_count v.world) same pages,
        ap (λ (v : System S). v.world.conn.tables.documents) (sym same) ∙ documents,
      )

  pub pages_of-eq-ok :
      (doc : Document) (s : System S) (n : ℕ) (s' : System S)
      → pages_of machine store pg schedule doc_id doc s ≡ (ok n, s')
      → Extracted holds doc_id n s s'
  unfolding pages_of
  pages_of-eq-ok doc s n s' h =
      let (o, s₁, prepared, ran) = >>=-eq-ok (prepare machine store doc_id doc) rest s n s' h in
      let (counted, pages, documents) = rest-eq-ok o s₁ n s' ran in
      let beside =
        ap (λ (q : Result Original × System S). q.1.world.conn.tables.documents) prepared in
      record {
        positive =
            subst (λ m. eqb m 0 ≡ false) counted
              (prepare-positive machine store doc_id doc s o s₁ prepared);
        pages = subst (λ m. HasPages holds doc_id m s'.world) counted pages;
        documents =
            documents
            ∙ sym beside
            ∙ ap (λ (c : Conn). c.tables.documents) (prepare-Beside machine store doc_id doc s).1;
      }

  counted-Quiet :
      (n : ℕ) (r : Result (Unit {0})) (w : World S) (s : System S)
      → (w.conn.tables.documents ≡ s.world.conn.tables.documents)
        × (s.world.conn.faults ≡ [] → w.conn.faults ≡ [])
      → Quiet s (continue (r, record s { world = w }) (λ _. pure n)).1
  counted-Quiet n (ok u) w s (same, h) = record { queue = refl; documents = same; faults = h }
  counted-Quiet n (err e) w s (same, h) = record { queue = refl; documents = same; faults = h }

  rest-Quiet : (o : Original) (s : System S) → Quiet s (rest o s).1
  unfolding ◌>>=◌
  rest-Quiet o s =
      let (r, w) = extract machine store pg schedule doc_id o s.world in
      counted-Quiet o.page_count r w s (extract-IsPlaced o s.world)

  prepared-Quiet :
      (r : Result Original × System S) (s : System S) → Beside s r.1 → Quiet s (continue r rest).1
  prepared-Quiet (ok o, s₁) s (queue, conn) =
      let v = rest-Quiet o s₁ in
      record {
        queue = v.queue ∙ queue;
        documents = v.documents ∙ ap (λ (c : Conn). c.tables.documents) conn;
        faults = λ h. v.faults (ap (λ (c : Conn). c.faults) conn ∙ h);
      }
  prepared-Quiet (err e, s₁) s (queue, conn) = record {
    queue = queue;
    documents = ap (λ (c : Conn). c.tables.documents) conn;
    faults = λ h. ap (λ (c : Conn). c.faults) conn ∙ h;
  }

  pub pages_of-Quiet :
      (doc : Document) (s : System S) → Quiet s (pages_of machine store pg schedule doc_id doc s).1
  unfolding pages_of
  pages_of-Quiet doc s =
      prepared-Quiet (prepare machine store doc_id doc s) s
        (prepare-Beside machine store doc_id doc s)
