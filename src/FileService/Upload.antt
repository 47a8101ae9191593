-- ===== src/FileService/Upload.antt =====
-- How an upload ends, by the last step that it reached.
use minio_3d.Base.{
  ℕ, String, Bool, true, false, ◌≡◌, ◌⊎◌, refl, sym, ap, ◌∙◌, [], arith, Bool-cases, inl, inr,
}
pub mod Outcome
use mathlib.Core.Path.{subst}
use minio_3d.Errors.{Error, wrap, Result, ok, err, Result-cases}
use minio_3d.Exec.{continue, label, lift, recover, ignore, raise, pure, ◌>>=◌, ◌>>◌}
use minio_3d.Exec.Laws.{>>=-eq-ok}
use minio_3d.Paths.{base}
use minio_3d.Sql.{Tables, Postgres, Conn, quiet}
use minio_3d.Sql.Laws.{transaction-eq-err}
use minio_3d.Storage.{Bytes, Storage}
use minio_3d.World.{World, stored, on_conn, on_objects}
use minio_3d.Metadata.Save.{SaveResult, save, save_tx}
use minio_3d.FileService.{
  FileHeader, FileUploadResult, build_object_key, upload_content_type, compute_sha256, place,
  upload,
}
use minio_3d.FileService.Production.{metadata_store, save-quiet, delete-save}

unchanged :
    {S : Type 0} (x e : Error) (w w' : World S)
    → ◌≡◌ {A = Result FileUploadResult × World S} (err x, w) (err e, w')
    → w'.conn.tables ≡ w.conn.tables
unchanged x e w w' h = ground arith

module _ {S : Type 0} (sha256 : Bytes → String) (store : Storage S) (pg : Postgres) (now : ℕ)
    (user_id : String) (header : FileHeader) where
  abbrev pub start : Tables → S → World S
  start t s = record { conn = quiet t; objects = s }

  -- The call of `Save` for these bytes, and the call of the store.
  abbrev pub type_of : String
  type_of = upload_content_type header.content_type header.filename

  abbrev pub key_for : Bytes → String
  key_for body = build_object_key user_id (sha256 body) header.filename

  abbrev pub saving : Bytes → Conn → Result SaveResult × Conn
  saving body =
      save pg user_id (key_for body) (sha256 body) type_of (base header.filename) header.size

  abbrev pub storing : Bytes → S → Result String × S
  storing body = store.upload (key_for body) body header.size type_of

  abbrev pub placing : Bytes → SaveResult → World S → Result FileUploadResult × World S
  placing body saved =
      place sha256 (stored store) (metadata_store pg now) user_id (key_for body) body header.size
        type_of saved

  -- The cleanup after a failure of the store.
  placing-eq-err :
      (body : Bytes) (r : SaveResult) (t t' : Tables) (s : S) (e : Error) (w' : World S)
      → saving body (quiet t) ≡ (ok r, quiet t')
      → placing body r (start t' s) ≡ (err e, w')
      → w'.conn.tables ≡ t
  unfolding place
  placing-eq-err body r t t' s e w' h p = elim (Bool-cases r.duplicate) [
    | inl hit ↦ let q = rw hit at p in cc
    | inr new_row ↦
        let d =
          delete-save pg user_id (key_for body) (sha256 body) type_of (base header.filename)
            header.size now t t' r h new_row in
        ground arith
  ]

  saving-eq-err :
      (body : Bytes) (t : Tables) (x : Error) (c : Conn)
      → saving body (quiet t) ≡ (err x, c)
      → c.tables ≡ t
  unfolding save
  saving-eq-err body t x c h =
      transaction-eq-err "commit"
        (save_tx pg user_id (key_for body) (sha256 body) type_of (base header.filename) header.size)
        (quiet t) x c h

  -- The connection that `Save` leaves goes on to answer.
  still_quiet :
      (body : Bytes) (t : Tables) (r : SaveResult) (c : Conn)
      → saving body (quiet t) ≡ (ok r, c)
      → c ≡ quiet c.tables
  still_quiet body t r c h =
      let q =
        save-quiet pg user_id (key_for body) (sha256 body) type_of (base header.filename)
          header.size t in
      let faults : c.faults ≡ [] = ap (λ (p : Result SaveResult × Conn). p.1.faults) (sym h) ∙ q in
      ground arith

  -- The last step of the upload, on what `Save` has answered.
  finished-eq-err :
      (body : Bytes) (t : Tables) (s : S) (res : Result SaveResult × Conn) (e : Error)
      (w' : World S)
      → saving body (quiet t) ≡ res
      → continue (res.0, record { conn = res.1; objects = s }) (placing body) ≡ (err e, w')
      → w'.conn.tables ≡ t
  finished-eq-err body t s (ok r, c) e w' h p =
      let same = still_quiet body t r c h in
      placing-eq-err body r t c.tables s e w' (h ∙ ap (λ d. (ok r, d)) same)
        (subst (λ d. placing body r (record { conn = d; objects = s }) ≡ (err e, w')) same p)
  finished-eq-err body t s (err x, c) e w' h p = ground (arith, saving-eq-err body t x c h)

  -- On a driver that answers, an upload that ends in an error, in the request, the database or the
  -- store, leaves the database exactly as it was.
  pub upload-eq-err :
      (t : Tables) (s : S) (e : Error) (w' : World S)
      → upload sha256 (stored store) (metadata_store pg now) user_id header (start t s)
        ≡ (err e, w')
      → w'.conn.tables ≡ t
  unfolding upload
  upload-eq-err t s e w' h = elim (Result-cases header.opening) [
    | inr (x, closed) ↦ unchanged (wrap "open upload" x) e (start t s) w' (rw closed at h)
    | inl (u, opened) ↦ elim (Result-cases header.content) [
      | inr (x, unread) ↦
          unchanged (wrap "compute hash" (wrap "sha256" x)) e (start t s) w'
            (rw (opened, unread) at h)
      | inl (body, read) ↦ elim (Result-cases header.seeking) [
        | inr (x, stuck) ↦
            unchanged (wrap "seek after hash" x) e (start t s) w' (rw (opened, read, stuck) at h)
        | inl (v, sought) ↦
            let q = rw (opened, read, sought) at h in
            finished-eq-err body t s (saving body (quiet t)) e w' refl q
      ]
    ]
  ]
