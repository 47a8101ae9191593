-- ===== src/FileService/Upload/Outcome.antt =====
-- What an upload that ends well has done, and what any upload has done to the store.

use minio_3d.Base.{
  ℕ, String, true, false, ◌≡◌, ◌⊎◌, refl, sym, ap, ◌∙◌, arith, Bool-cases, inl, inr,
}
use minio_3d.Errors.{Error, wrap, Result, ok, err, Result-cases}
use minio_3d.Exec.{continue}
use minio_3d.Sql.{Tables, Postgres, Conn, quiet}
use minio_3d.Storage.{Bytes, Storage}
use minio_3d.World.{World, stored}
use minio_3d.Metadata.Save.{SaveResult}
use minio_3d.Metadata.Delete.{delete}
use minio_3d.FileService.{delete_orphaned_meta, FileHeader, FileUploadResult, place, upload}
use minio_3d.FileService.Production.{metadata_store}
use minio_3d.FileService.Upload.{start, saving, storing, placing}

answered :
    {S : Type 0} (x r : FileUploadResult) (w w' : World S)
    → ◌≡◌ {A = Result FileUploadResult × World S} (ok x, w) (ok r, w')
    → (r ≡ x) × (w'.conn ≡ w.conn) × (w'.objects ≡ w.objects)
answered x r w w' h = ground arith

not_answered :
    {S : Type 0} (x : Error) (r : FileUploadResult) (w w' : World S)
    → ◌≡◌ {A = Result FileUploadResult × World S} (err x, w) (ok r, w')
    → ⊥
not_answered x r w w' h = cc

pair_of {ℓ κ} :
    {A : Type ℓ} {B : Type κ} (p : A × B) (a : A) (b : B) → p.0 ≡ a → b ≡ p.1 → p ≡ (a, b)
pair_of p a b e f = λ i. (e i, sym f i)

module _ {S : Type 0} (sha256 : Bytes → String) (store : Storage S) (pg : Postgres) (now : ℕ)
    (user_id : String) (header : FileHeader) where
  abbrev pub begin : Tables → S → World S
  begin = start sha256 store pg now user_id header

  abbrev pub run : World S → Result FileUploadResult × World S
  run = upload sha256 (stored store) (metadata_store pg now) user_id header

  abbrev pub save_call : Bytes → Conn → Result SaveResult × Conn
  save_call = saving sha256 store pg now user_id header

  abbrev pub store_call : Bytes → S → Result String × S
  store_call = storing sha256 store pg now user_id header

  abbrev pub place_call : Bytes → SaveResult → World S → Result FileUploadResult × World S
  place_call = placing sha256 store pg now user_id header

  -- How an upload that ends well has gone.
  pub record Uploaded (t : Tables) (s : S) (r : FileUploadResult) (w' : World S) : Type 0 where
    pub body : Bytes
    pub saved : SaveResult
    pub saving : save_call body (quiet t) ≡ (ok saved, w'.conn)
    pub file : r.file ≡ saved.file
    pub duplicate : r.duplicate ≡ saved.duplicate
    pub objects :
        ((saved.duplicate ≡ true) × (w'.objects ≡ s))
        ⊎ ((saved.duplicate ≡ false) × ((k : String) × (store_call body s ≡ (ok k, w'.objects))))

  place-eq-ok :
      (body : Bytes) (saved : SaveResult) (c : Conn) (s : S) (r : FileUploadResult) (w' : World S)
      → place_call body saved (record { conn = c; objects = s }) ≡ (ok r, w')
      → (r.file ≡ saved.file)
        × (r.duplicate ≡ saved.duplicate)
        × (w'.conn ≡ c)
        × (((saved.duplicate ≡ true) × (w'.objects ≡ s))
            ⊎ ((saved.duplicate ≡ false)
                × ((k : String) × (store_call body s ≡ (ok k, w'.objects)))))
  unfolding place
  place-eq-ok body saved c s r w' h = elim (Bool-cases saved.duplicate) [
    | inl hit ↦
        let (file, conn, objects) =
          answered (record { file = saved.file; duplicate = true }) r
            (record { conn = c; objects = s }) w' (rw hit at h) in
        (
          ap (λ (x : FileUploadResult). x.file) file,
          ap (λ (x : FileUploadResult). x.duplicate) file ∙ sym hit,
          conn,
          inl (hit, objects),
        )
    | inr new_row ↦ elim (Result-cases (store_call body s).0) [
      | inl (k, sent) ↦
          let (file, conn, objects) =
            answered (record { file = saved.file; duplicate = false }) r
              (record { conn = c; objects = (store_call body s).1 }) w' (rw (new_row, sent) at h) in
          (
            ap (λ (x : FileUploadResult). x.file) file,
            ap (λ (x : FileUploadResult). x.duplicate) file ∙ sym new_row,
            conn,
            inr (new_row, (k, pair_of (store_call body s) (ok k) w'.objects sent objects)),
          )
      | inr (x, lost) ↦
          absurd (not_answered (wrap "storage upload" x) r _ w' (rw (new_row, lost) at h))
    ]
  ]

  -- What `Save` has answered, and the rest of the upload.
  finish-eq-ok :
      (body : Bytes) (t : Tables) (s : S) (res : Result SaveResult × Conn) (r : FileUploadResult)
      (w' : World S)
      → save_call body (quiet t) ≡ res
      → continue (res.0, record { conn = res.1; objects = s }) (place_call body) ≡ (ok r, w')
      → Uploaded t s r w'
  finish-eq-ok body t s (ok saved, c) r w' h p =
      let (file, duplicate, conn, objects) = place-eq-ok body saved c s r w' p in
      record {
        body = body;
        saved = saved;
        saving = h ∙ ap (λ d. (ok saved, d)) (sym conn);
        file = file;
        duplicate = duplicate;
        objects = objects;
      }
  finish-eq-ok body t s (err x, c) r w' h p = absurd (not_answered x r _ w' p)

  pub upload-eq-ok :
      (t : Tables) (s : S) (r : FileUploadResult) (w' : World S)
      → run (begin t s) ≡ (ok r, w')
      → Uploaded t s r w'
  unfolding upload
  upload-eq-ok t s r w' h = elim (Result-cases header.opening) [
    | inr (x, closed) ↦ absurd (not_answered (wrap "open upload" x) r _ w' (rw closed at h))
    | inl (u, opened) ↦ elim (Result-cases header.content) [
      | inr (x, unread) ↦
          absurd
            (not_answered (wrap "compute hash" (wrap "sha256" x)) r _ w' (rw (opened, unread) at h))
      | inl (body, read) ↦ elim (Result-cases header.seeking) [
        | inr (x, stuck) ↦
            absurd (not_answered (wrap "seek after hash" x) r _ w' (rw (opened, read, stuck) at h))
        | inl (v, sought) ↦
            finish-eq-ok body t s (save_call body (quiet t)) r w' refl
              (rw (opened, read, sought) at h)
      ]
    ]
  ]

  -- The store after an upload: untouched, or as its one call of the store has left it.
  abbrev pub Touched : S → S → Type 0
  Touched s s' = (s' ≡ s) ⊎ ((body : Bytes) × (s' ≡ (store_call body s).1))

  -- The cleanup touches the database alone.
  orphan-objects :
      (file_id : String) (w : World S)
      → (delete_orphaned_meta sha256
          (stored store)
          (metadata_store pg now)
          file_id
          user_id
          w).1.objects
        ≡ w.objects
  unfolding delete_orphaned_meta
  orphan-objects file_id w = elim (Result-cases (delete pg now file_id user_id w.conn).0) [
    | inl (d, gone) ↦ rw gone
    | inr (x, kept) ↦ rw kept
  ]

  place-objects :
      (body : Bytes) (saved : SaveResult) (c : Conn) (s : S)
      → Touched s (place_call body saved (record { conn = c; objects = s })).1.objects
  unfolding place
  place-objects body saved c s = elim (Bool-cases saved.duplicate) [
    | inl hit ↦ inl (rw hit)
    | inr new_row ↦ elim (Result-cases (store_call body s).0) [
      | inl (k, sent) ↦ inr (body, rw (new_row, sent))
      | inr (x, lost) ↦ inr (
        body,
        rw (new_row, lost)
            (orphan-objects saved.file.id (record { conn = c; objects = (store_call body s).1 })),
      )
    ]
  ]

  finish-objects :
      (body : Bytes) (s : S) (res : Result SaveResult × Conn)
      → Touched s
          (continue (res.0, record { conn = res.1; objects = s }) (place_call body)).1.objects
  finish-objects body s (ok saved, c) = place-objects body saved c s
  finish-objects body s (err x, c) = inl refl

  pub upload-objects : (t : Tables) (s : S) → Touched s (run (begin t s)).1.objects
  unfolding upload
  upload-objects t s = elim (Result-cases header.opening) [
    | inr (x, closed) ↦ inl (rw closed)
    | inl (u, opened) ↦ elim (Result-cases header.content) [
      | inr (x, unread) ↦ inl (rw (opened, unread))
      | inl (body, read) ↦ elim (Result-cases header.seeking) [
        | inr (x, stuck) ↦ inl (rw (opened, read, stuck))
        | inl (v, sought) ↦
            rw (opened, read, sought) (finish-objects body s (save_call body (quiet t)))
      ]
    ]
  ]
