-- ===== src/Worker/Journey/Uploaded.antt =====
-- service/document_service.go: what an upload of a document has done to the database.
use mathlib.Core.Path.{subst}
use minio_3d.Base.{ℕ, String, true, false, ◌≡◌, ◌≢◌, refl, ap, ◌∙◌, [], ◌==◌, eq_refl, any, arith}
use minio_3d.Errors.{Result, ok, err}
use minio_3d.Paths.{base}
use minio_3d.Exec.{Exec, label, lift, pure, ◌>>=◌}
use minio_3d.Exec.Laws.{>>=-eq-ok, relabel-eq-ok, guard-eq-ok}
use minio_3d.Types.{Document, processing}
use minio_3d.Sql.{Sql, Tables, Postgres, Conn}
use minio_3d.Counts.{any-last, any-update}
use minio_3d.Sql.Choice.{select-eq-nil}
use minio_3d.Storage.{Bytes, Storage}
use minio_3d.World.{stored, on_conn}
use minio_3d.Documents.Rows as Rows
use minio_3d.Documents.Changes.{rows_of, update_original_path-eq-ok}
use minio_3d.Documents.Usage.{create_document-Created}
use minio_3d.DocumentService.{
  DocumentRepository, PdfHeader, UploadResult, upload, store_original, validate_pdf,
}
use minio_3d.DocumentService.Production.{document_store}
use minio_3d.Worker.Tasks.{System, on_world}
use minio_3d.Worker.Enqueuer.{store_beside, documents_beside, uploading, asynq_enqueuer}
use minio_3d.FileService.{FileHeader, compute_sha256}

-- Steps that leave the system as it is.
module _ {ℓ} {S : Type 0} {A : Type ℓ} where
  lift-eq-ok : (x : Result A) (s : S) (a : A) (s' : S) → lift x s ≡ (ok a, s') → s' ≡ s
  lift-eq-ok x s a s' h = ground arith

  label-lift-eq-ok :
      (m : String) (x : Result A) (s : S) (a : A) (s' : S)
      → label m (lift x) s ≡ (ok a, s')
      → s' ≡ s
  label-lift-eq-ok m (ok b) s a s' h = ground arith
  label-lift-eq-ok m (err e) s a s' h = cc

validate_pdf-eq-ok :
    {S : Type 0} (x : Result Bytes) (s : S) (u : Unit) (s' : S)
    → validate_pdf x s ≡ (ok u, s')
    → s' ≡ s
unfolding validate_pdf
validate_pdf-eq-ok (ok bytes) s u s' h = (guard-eq-ok _ _ s u s' h).1
validate_pdf-eq-ok (err e) s u s' h = ground arith

compute_sha256-eq-ok :
    {S : Type 0} (m : String) (sha256 : Bytes → String) (header : FileHeader) (s : S)
    (hash : String) (s' : S)
    → label m (compute_sha256 sha256 header) s ≡ (ok hash, s')
    → s' ≡ s
unfolding compute_sha256
compute_sha256-eq-ok m sha256 header s hash s' h = label-lift-eq-ok m _ s hash s' h

module _ {ℓ} {S : Type 0} {A : Type ℓ} where
  -- A labelled call of the database.
  on_conn-eq-ok :
      (m : String) (f : Sql A) (s : System S) (a : A) (s' : System S)
      → label m (on_world (on_conn f)) s ≡ (ok a, s')
      → f s.world.conn ≡ (ok a, s'.world.conn)
  on_conn-eq-ok m f s a s' h =
      ap (λ (q : Result A × System S). (q.0, q.1.world.conn))
        (relabel-eq-ok m (on_world (on_conn f) s) a s' h)

module _ {S : Type 0} (store : Storage S) (pg : Postgres) (sha256 : Bytes → String)
    (user_id : String) (header : PdfHeader) where
  store_original-conn :
      (doc : Document) (body : Bytes) (size : ℕ) (s : System S) (path : String) (s' : System S)
      → store_original
          (store_beside (stored store))
          (documents_beside (document_store pg))
          doc
          body
          size
          s
        ≡ (ok path, s')
      → s'.world.conn ≡ s.world.conn
  unfolding store_original
  store_original-conn doc body size s path s' h = ground arith

  abbrev docs : DocumentRepository (System S)
  docs = documents_beside (document_store pg)

  abbrev size : ℕ
  size = header.file.size

  abbrev name : String
  name = base header.file.filename

  -- The steps of `Upload` from the path of the document on, and from its bytes on.
  abbrev announcing : Document → String → Exec (System S) UploadResult
  announcing doc path = label "update minio path" (docs.update_original_path doc.id path) >>= λ _.
      label "enqueue extraction" (asynq_enqueuer.enqueue_task doc.id user_id) >>= λ _.
      pure (record { document_id = doc.id; status = processing; filename = name })

  abbrev storing : Bytes → Document → Exec (System S) UploadResult
  storing body doc =
      store_original (store_beside (stored store)) docs doc body size >>= announcing doc

  returned :
      (q r : UploadResult) (s s' : System S)
      → ◌≡◌ {A = Result UploadResult × System S} (ok q, s) (ok r, s')
      → r.document_id ≡ q.document_id
  returned q r s s' h = ground arith

  announcing-eq-ok :
      (doc : Document) (path : String) (s : System S) (r : UploadResult) (s' : System S)
      → announcing doc path s ≡ (ok r, s')
      → (Rows.update_original_path pg doc.id path s.world.conn ≡ (ok tt, s'.world.conn))
        × (r.document_id ≡ doc.id)
  announcing-eq-ok doc path s r s' h =
      let (u, s₁, moved, h₁) =
        >>=-eq-ok (label "update minio path" (docs.update_original_path doc.id path)) _ s r s' h in
      let (v, s₂, queued, fin) =
        >>=-eq-ok (label "enqueue extraction" (asynq_enqueuer.enqueue_task doc.id user_id)) _ s₁ r
          s' h₁ in
      let left : s₁.world.conn ≡ s'.world.conn =
        ap (λ (q : Result (Unit {0}) × System S). q.1.world.conn)
          (relabel-eq-ok "enqueue extraction" (asynq_enqueuer.enqueue_task doc.id user_id s₁) v s₂
            queued)
        ∙ ap (λ (q : Result UploadResult × System S). q.1.world.conn) fin in
      (
        subst (λ c. Rows.update_original_path pg doc.id path s.world.conn ≡ (ok tt, c)) left
            (on_conn-eq-ok "update minio path" (Rows.update_original_path pg doc.id path) s u s₁
              moved),
        returned (record { document_id = doc.id; status = processing; filename = name }) r s₂ s'
            fin,
      )

  storing-eq-ok :
      (body : Bytes) (doc : Document) (s : System S) (r : UploadResult) (s' : System S)
      → storing body doc s ≡ (ok r, s')
      → (path : String) × (Rows.update_original_path pg doc.id path s.world.conn
          ≡ (ok tt, s'.world.conn))
        × (r.document_id ≡ doc.id)
  storing-eq-ok body doc s r s' h =
      let (path, s₁, sent, rest) =
        >>=-eq-ok (store_original (store_beside (stored store)) docs doc body size) (announcing doc)
          s r s' h in
      let (moved, same) = announcing-eq-ok doc path s₁ r s' rest in
      (
        path,
        subst (λ c. Rows.update_original_path pg doc.id path c ≡ (ok tt, s'.world.conn))
            (store_original-conn doc body size s path s₁ sent) moved,
        same,
      )

  -- What an upload that ends well has done to the database.
  uploaded :
      (s : System S) (r : UploadResult) (s' : System S)
      → uploading (stored store) (document_store pg) sha256 user_id header s ≡ (ok r, s')
      → (hash path : String) × (doc : Document) × (c : Conn) × (Rows.create_document pg user_id name
            "" hash size s.world.conn
          ≡ (ok doc, c))
        × (Rows.update_original_path pg doc.id path c ≡ (ok tt, s'.world.conn))
        × (r.document_id ≡ doc.id)
  unfolding upload
  uploaded s r s' h =
      let (u₁, s₁, opened, h₁) =
        >>=-eq-ok (label "open upload" (lift header.file.opening)) _ s r s' h in
      let (u₂, s₂, valid, h₂) = >>=-eq-ok (validate_pdf header.first_read) _ s₁ r s' h₁ in
      let (u₃, s₃, sought, h₃) = >>=-eq-ok (label "seek" (lift header.rewinding)) _ s₂ r s' h₂ in
      let (hash, s₄, hashed, h₄) =
        >>=-eq-ok (label "sha256" (compute_sha256 sha256 header.file)) _ s₃ r s' h₃ in
      let (body, s₅, read, h₅) = >>=-eq-ok (lift header.file.content) _ s₄ r s' h₄ in
      let (u₆, s₆, rewound, h₆) =
        >>=-eq-ok (label "seek after hash" (lift header.file.seeking)) _ s₅ r s' h₅ in
      let (doc, s₇, created, h₇) =
        >>=-eq-ok (label "create document record" (docs.create_document user_id name "" hash size))
          (storing body) s₆ r s' h₆ in
      let before : s₆ ≡ s =
        label-lift-eq-ok "seek after hash" header.file.seeking s₅ u₆ s₆ rewound
        ∙ lift-eq-ok header.file.content s₄ body s₅ read
        ∙ compute_sha256-eq-ok "sha256" sha256 header.file s₃ hash s₄ hashed
        ∙ label-lift-eq-ok "seek" header.rewinding s₂ u₃ s₃ sought
        ∙ validate_pdf-eq-ok header.first_read s₁ u₂ s₂ valid
        ∙ label-lift-eq-ok "open upload" header.file.opening s u₁ s₁ opened in
      let (path, moved, same) = storing-eq-ok body doc s₇ r s' h₇ in
      (
        hash,
        path,
        doc,
        s₇.world.conn,
        subst
            (λ (t : System S).
              Rows.create_document pg user_id name "" hash size t.world.conn
              ≡ (ok doc, s₇.world.conn))
            before
            (on_conn-eq-ok "create document record"
              (Rows.create_document pg user_id name "" hash size) s₆ doc s₇ created),
        moved,
        same,
      )

  -- The document of the upload is in the table.
  pub uploaded-row :
      (s : System S) (r : UploadResult) (s' : System S)
      → uploading (stored store) (document_store pg) sha256 user_id header s ≡ (ok r, s')
      → rows_of r.document_id s'.world.conn.tables ≢ []
  uploaded-row s r s' h none_left =
      let (hash, path, doc, c, created, moved, same) = uploaded s r s' h in
      let made =
        create_document-Created pg user_id (base header.file.filename) "" hash header.file.size
          s.world.conn doc c created in
      let tables = update_original_path-eq-ok pg doc.id path c tt s'.world.conn moved in
      let here : any (λ d. d.id == doc.id) c.tables.documents ≡ true =
        rw made.documents
          (any-last (λ d. d.id == doc.id) s.world.conn.tables.documents doc (eq_refl doc.id)) in
      let moved_on : Document → Document =
        λ d. record d { original_minio_path = path; updated_at = pg.now c.tables } in
      let kept : any (λ d. d.id == doc.id) s'.world.conn.tables.documents ≡ true =
        ap (λ (t : Tables). any (λ d. d.id == doc.id) t.documents) tables
        ∙ (any-update (λ d. d.id == doc.id) (λ d. d.id == doc.id) moved_on (λ d. refl)
              c.tables.documents
            ∙ here) in
      let gone : any (λ d. d.id == doc.id) s'.world.conn.tables.documents ≡ false =
        select-eq-nil (λ d. d.id == doc.id) s'.world.conn.tables.documents
          (subst (λ k. rows_of k s'.world.conn.tables ≡ []) same none_left) in
      cc
