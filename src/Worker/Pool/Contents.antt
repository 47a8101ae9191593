-- ===== src/Worker/Pool/Contents.antt =====
-- What the goroutines leave in the database and in the object store.
use mathlib.Core.Path.{subst}
use minio_3d.Base.{ℕ, ◌≡◌, ◌≢◌, refl, ap, ◌∙◌, String, Bool, true, [], some, none, inr}
use minio_3d.Errors.{Error, Result, ok, err}
use minio_3d.Types.{DocumentPage}
use minio_3d.Sql.{Tables, Conn, Postgres, Statement, quiet}
use minio_3d.Sql.Laws.{label-query-eq-ok, label-query-eq-err, label-query-faults}
use minio_3d.Storage.{Bytes, Storage, IsObjectStore}
use minio_3d.World.{World}
use minio_3d.Documents.Pages.{upsert_page, save_page, get_page}
use minio_3d.Documents.Pages.Lookup.{get_page-save_page, upsert_page-documents}
use minio_3d.Worker.Pool.{
  Machine, Stage, waiting, started, located, uploaded, finished, page_path, sized, opened, named,
  extracted, sent, recorded, advance,
}

-- The row of a page that has been saved, as `GetPage` finds it.
abbrev pub HasPage : String → ℕ → Tables → Type 0
HasPage doc_id n t =
    (r : DocumentPage) × ((get_page doc_id n (quiet t)).0 ≡ ok r)
    × (r.minio_path ≡ page_path doc_id n)

module _ {S : Type 0} (holds : String → S → Bool) (doc_id : String) where
  -- What a goroutine that has come to a stage has left behind it.
  abbrev pub Placed : ℕ → Stage → World S → Type 0
  Placed n waiting w = Unit
  Placed n started w = Unit
  Placed n (located body size) w = Unit
  Placed n (uploaded size) w = holds (page_path doc_id n) w.objects ≡ true
  Placed n (finished none) w =
      HasPage doc_id n w.conn.tables × (holds (page_path doc_id n) w.objects ≡ true)
  Placed n (finished (some e)) w = Unit

  -- What a step for page n may change.
  pub record Keeps (n : ℕ) (w w' : World S) : Type 0 where
    pub objects : (k : String) → holds k w.objects ≡ true → holds k w'.objects ≡ true
    pub pages :
        (m : ℕ)
        → m ≢ n
        → (get_page doc_id m (quiet w'.conn.tables)).0 ≡ (get_page doc_id m (quiet w.conn.tables)).0
    pub documents : w'.conn.tables.documents ≡ w.conn.tables.documents
    pub quiet_still : w.conn.faults ≡ [] → w'.conn.faults ≡ []

  pub Keeps-refl : (n : ℕ) (w : World S) → Keeps n w w
  Keeps-refl n w = record {
    objects = λ k h. h;
    pages = λ m ne. refl;
    documents = refl;
    quiet_still = λ h. h;
  }

  pub Keeps-Placed :
      (n m : ℕ) (s : Stage) (w w' : World S) → Keeps n w w' → m ≢ n → Placed m s w → Placed m s w'
  Keeps-Placed n m waiting w w' k ne h = tt
  Keeps-Placed n m started w w' k ne h = tt
  Keeps-Placed n m (located body size) w w' k ne h = tt
  Keeps-Placed n m (uploaded size) w w' k ne h = k.objects (page_path doc_id m) h
  Keeps-Placed n m (finished none) w w' k ne ((r, found, path), h) =
      ((r, k.pages m ne ∙ found, path), k.objects (page_path doc_id m) h)
  Keeps-Placed n m (finished (some e)) w w' k ne h = tt

module _ (pg : Postgres) (doc_id : String) (n size : ℕ) (c : Conn) where
  abbrev page_row : Statement DocumentPage
  page_row = upsert_page pg doc_id n (page_path doc_id n) size

  saved-documents :
      (p : DocumentPage) (c' : Conn)
      → save_page pg doc_id n (page_path doc_id n) size c ≡ (ok p, c')
      → c'.tables.documents ≡ c.tables.documents
  unfolding save_page
  saved-documents p c' h =
      upsert_page-documents pg doc_id n (page_path doc_id n) size c.tables p c'.tables
        (label-query-eq-ok "save page" page_row c p c' h)

  saved-faults :
      (r : Result DocumentPage) (c' : Conn)
      → save_page pg doc_id n (page_path doc_id n) size c ≡ (r, c')
      → c.faults ≡ []
      → c'.faults ≡ []
  unfolding save_page
  saved-faults r c' h q = label-query-faults "save page" page_row c r c' q h

  refused-tables :
      (e : Error) (c' : Conn)
      → save_page pg doc_id n (page_path doc_id n) size c ≡ (err e, c')
      → c'.tables ≡ c.tables
  unfolding save_page
  refused-tables e c' h = label-query-eq-err "save page" page_row c e c' h

module _ {S : Type 0} (machine : Machine) (store : Storage S) (holds : String → S → Bool)
    (laws : IsObjectStore store holds) (pg : Postgres) (original : Bytes)
    (pages_dir doc_id : String) where
  pub record Stepped (n : ℕ) (s : Stage) (w : World S) (s' : Stage) (w' : World S) : Type 0 where
    pub placed : Placed holds doc_id n s w → Placed holds doc_id n s' w'
    pub keeps : Keeps holds doc_id n w w'

  -- The local steps leave nothing, and touch nothing.
  sized-Placed :
      (n : ℕ) (w : World S) (r : Result ℕ) (body : Bytes)
      → Placed holds doc_id n (sized machine pages_dir r body) w
  sized-Placed n w (ok size) body = tt
  sized-Placed n w (err e) body = tt

  opened-Placed :
      (n : ℕ) (w : World S) (name : String) (r : Result Bytes)
      → Placed holds doc_id n (opened machine pages_dir name r) w
  opened-Placed n w name (ok body) = sized-Placed n w (machine.stat_file name) body
  opened-Placed n w name (err e) = tt

  named-Placed :
      (n : ℕ) (w : World S) (r : Result String)
      → Placed holds doc_id n (named machine pages_dir r) w
  named-Placed n w (ok name) = opened-Placed n w name (machine.open_file name)
  named-Placed n w (err e) = tt

  extracted-Placed :
      (n m : ℕ) (w : World S) (r : Result (Unit {0}))
      → Placed holds doc_id n (extracted machine pages_dir m r) w
  extracted-Placed n m w (ok _) = named-Placed n w _
  extracted-Placed n m w (err e) = tt

  sent-Stepped :
      (n size : ℕ) (body : Bytes) (w : World S) (r : Result String × S)
      → store.upload (page_path doc_id n) body size "application/pdf" w.objects ≡ r
      → let (s', w') = sent n size (r.0, record w { objects = r.1 }) in
        Stepped n (located body size) w s' w'
  sent-Stepped n size body w (ok k, s) h = record {
    placed = λ _. laws.uploaded (page_path doc_id n) body size "application/pdf" w.objects k s h;
    keeps = record {
      objects = λ j stored.
          subst (λ (q : Result String × S). holds j q.1 ≡ true) h
            (laws.upload_keeps (page_path doc_id n) body size "application/pdf" j w.objects stored);
      pages = λ m ne. refl;
      documents = refl;
      quiet_still = λ h. h;
    };
  }
  sent-Stepped n size body w (err e, s) h = record {
    placed = λ _. tt;
    keeps = record {
      objects = λ j stored.
          subst (λ (q : Result String × S). holds j q.1 ≡ true) h
            (laws.upload_keeps (page_path doc_id n) body size "application/pdf" j w.objects stored);
      pages = λ m ne. refl;
      documents = refl;
      quiet_still = λ h. h;
    };
  }

  recorded-Stepped :
      (n size : ℕ) (w : World S) (r : Result DocumentPage × Conn)
      → save_page pg doc_id n (page_path doc_id n) size w.conn ≡ r
      → let (s', w') = recorded n (r.0, record w { conn = r.1 }) in
        Stepped n (uploaded size) w s' w'
  recorded-Stepped n size w (ok p, c) h =
      let (found, path, same_size, others) =
        get_page-save_page pg doc_id n (page_path doc_id n) size w.conn p c h in
      record {
        placed = λ stored. ((p, ap (λ (q : Result DocumentPage × Conn). q.0) found, path), stored);
        keeps = record {
          objects = λ j stored. stored;
          pages = λ m ne. others doc_id m (inr ne);
          documents = saved-documents pg doc_id n size w.conn p c h;
          quiet_still = saved-faults pg doc_id n size w.conn (ok p) c h;
        };
      }
  recorded-Stepped n size w (err e, c) h =
      let same = refused-tables pg doc_id n size w.conn e c h in
      record {
        placed = λ _. tt;
        keeps = record {
          objects = λ j stored. stored;
          pages = λ m ne. ap (λ t. (get_page doc_id m (quiet t)).0) same;
          documents = ap (λ (t : Tables). t.documents) same;
          quiet_still = saved-faults pg doc_id n size w.conn (err e) c h;
        };
      }

  pub advance-Stepped :
      (n : ℕ) (s : Stage) (w : World S)
      → let (s', w') = advance machine store pg original pages_dir doc_id n s w in
        Stepped n s w s' w'
  unfolding advance
  advance-Stepped n waiting w = record { placed = λ h. h; keeps = Keeps-refl holds doc_id n w }
  advance-Stepped n started w = record {
    placed = λ h. extracted-Placed n n w (machine.extract_pages_file original pages_dir n);
    keeps = Keeps-refl holds doc_id n w;
  }
  advance-Stepped n (located body size) w =
      sent-Stepped n size body w
        (store.upload (page_path doc_id n) body size "application/pdf" w.objects) refl
  advance-Stepped n (uploaded size) w =
      recorded-Stepped n size w (save_page pg doc_id n (page_path doc_id n) size w.conn) refl
  advance-Stepped n (finished r) w = record { placed = λ h. h; keeps = Keeps-refl holds doc_id n w }
