-- ===== src/Metadata/Lookup.antt =====
-- What `GetByID` finds after `Save` and after `Delete`.
use minio_3d.Base.{
  ℕ, String, true, false, ◌≡◌, List, [], ◌∷◌, ◌++◌, ◌==◌, refl, eq_refl, eq_iff, arith, any, select,
  discard, leb, ◌∙◌, Bool-cases, inl, inr,
}
use minio_3d.Errors.{ok, err, Sentinel, sentinel}
use minio_3d.Types.{FileMeta}
use minio_3d.Sql.{Tables, Postgres, Conn, quiet, one_row}
use minio_3d.Sql.Choice.{select-absent}
use minio_3d.Metadata.Reads.{is_owned, canonical, get_by_id}
use minio_3d.Metadata.Save.{SaveResult, save}
use minio_3d.Metadata.Save.Effect
use minio_3d.Metadata.Save.Effect.{referenced, any-referenced}
use minio_3d.Metadata.Delete.{DeleteResult, delete}
use minio_3d.Metadata.Delete.Effect as Deleted
use minio_3d.Metadata.Delete.Effect.{soft_deleted}
use minio_3d.Metadata.Bytes.{one_row-passes}

pub last_row :
    (user_id : String) (fs : List FileMeta) (f : FileMeta)
    → any (λ g. g.id == f.id) fs ≡ false
    → is_owned f.id user_id f ≡ true
    → one_row (select (is_owned f.id user_id) (fs ++ f ∷ [])) ≡ ok f
last_row user_id [] f h o = rw o
last_row user_id (g ∷ fs) f h o = ground (arith, last_row user_id fs f)

module _ (pg : Postgres) (user_id object_key hash content_type original_name : String)
    (size : ℕ) where
  -- The row that `Save` returns is the row that `GetByID` then finds for its owner.
  get_by_id-save :
      (c : Conn) (r : SaveResult) (c' : Conn)
      → save pg user_id object_key hash content_type original_name size c ≡ (ok r, c')
      → get_by_id r.file.id user_id (quiet c'.tables) ≡ (ok r.file, quiet c'.tables)
  unfolding get_by_id
  get_by_id-save c r c' h =
      let e =
        Effect.save-Effect pg user_id object_key hash content_type original_name size c r c' h in
      let old = referenced (canonical pg hash c.tables) c.tables.files in
      let fresh = any-referenced r.file.id (canonical pg hash c.tables) c.tables.files in
      let mine : is_owned r.file.id user_id r.file ≡ true =
        rw (e.owner, e.active) (ground (arith, eq_refl r.file.id, eq_refl user_id)) in
      rw (e.files, last_row user_id old r.file (fresh ∙ e.fresh) mine)

-- No row passes a test that each row fails.
gone-discard :
    (file_id user_id : String) (fs : List FileMeta)
    → select (is_owned file_id user_id) (discard (λ g. g.id == file_id) fs) ≡ []
gone-discard file_id user_id [] = refl
gone-discard file_id user_id (g ∷ fs) = ground (arith, gone-discard file_id user_id fs)

gone-soft_deleted :
    (now : ℕ) (file_id canon_id user_id : String) (fs : List FileMeta)
    → select (is_owned file_id user_id) (soft_deleted now file_id canon_id fs) ≡ []
gone-soft_deleted now file_id canon_id user_id [] = refl
gone-soft_deleted now file_id canon_id user_id (g ∷ fs) =
    ground (arith, gone-soft_deleted now file_id canon_id user_id fs)

module _ (pg : Postgres) (now : ℕ) (file_id user_id : String) where
  fetched-id :
      (c : Conn) (r : DeleteResult) (c' : Conn)
      (e : Deleted.Effect pg now file_id user_id c.tables r c'.tables)
      → e.file.id ≡ file_id
  fetched-id c r c' e =
      let p = one_row-passes (is_owned file_id user_id) c.tables.files e.file e.fetched in
      ground (arith, eq_iff e.file.id file_id)

  -- After `Delete` has succeeded, by either branch, nobody finds the file under its id.
  get_by_id-delete :
      (c : Conn) (r : DeleteResult) (c' : Conn)
      → delete pg now file_id user_id c ≡ (ok r, c')
      → (who : String)
      → get_by_id file_id who (quiet c'.tables)
        ≡ (err (sentinel Sentinel.not_found), quiet c'.tables)
  unfolding get_by_id
  get_by_id-delete c r c' h who =
      let e = Deleted.delete-Effect pg now file_id user_id c r c' h in
      let id = fetched-id c r c' e in
      elim (Bool-cases (leb e.canon.ref_count 1)) [
        | inl last ↦ rw (e.files, last, id, gone-discard file_id who c.tables.files)
        | inr shared ↦
            rw (e.files, shared, id, gone-soft_deleted now file_id e.canon.id who c.tables.files)
      ]

  -- A file that is not the caller's, or not active, is "not found", and nothing changes.
  delete-not_owned :
      (t : Tables)
      → any (is_owned file_id user_id) t.files ≡ false
      → delete pg now file_id user_id (quiet t) ≡ (err (sentinel Sentinel.not_found), quiet t)
  unfolding delete
  delete-not_owned t h = ground (arith, select-absent (is_owned file_id user_id) t.files h)
