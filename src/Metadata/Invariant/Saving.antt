-- ===== src/Metadata/Invariant/Saving.antt =====
-- `Save` and the invariant of users and files.
use minio_3d.Base.{
  ℕ, ◌+◌, ◌≡◌, ◌≢◌, String, [], ◌∷◌, ◌==◌, arith, refl, eq_iff, sym, eq_refl, ◌∙◌, if◌then◌else◌,
}
use minio_3d.Errors.{Result, ok, err}
use minio_3d.Sql.{Tables, Postgres, Conn}
use minio_3d.Sql.Laws.{transaction-eq-err}
use minio_3d.Metadata.Bytes.{share, file_bytes, file_bytes-append, file_bytes-referenced}
use minio_3d.Metadata.Ids.{append-HasUniqueIds, referenced-HasUniqueIds}
use minio_3d.Metadata.Quota.{Saved-account, Saved-account_ne}
use minio_3d.Metadata.Reads.{canonical}
use minio_3d.Metadata.Save.{SaveResult, save, save_tx}
use minio_3d.Metadata.Save.Effect
use minio_3d.Metadata.Save.Effect.{referenced, any-referenced}
use minio_3d.Metadata.Invariant.{IsValid, Fits, IsValid-of_Fits, ok_pair, by_user}

module _ (charged : String → ℕ) (pg : Postgres)
    (user_id object_key hash content_type original_name : String) (size : ℕ) where
  abbrev Saved : Tables → SaveResult → Tables → Type 0
  Saved = Effect.Effect pg user_id object_key hash content_type original_name size

  Saved-file_bytes :
      (t : Tables) (r : SaveResult) (t' : Tables) (e : Saved t r t') (who : String)
      → file_bytes who t'.files ≡ file_bytes who t.files + share who r.file
  Saved-file_bytes t r t' e who =
      rw
        (
          e.files,
          file_bytes-append who (referenced (canonical pg hash t) t.files) (r.file ∷ []),
          file_bytes-referenced who (canonical pg hash t) t.files,
        )
        (omega arith)

  share-Saved :
      (t : Tables) (r : SaveResult) (t' : Tables) (e : Saved t r t') (who : String)
      → share who r.file ≡ (if user_id == who then size else 0)
  share-Saved t r t' e who = rw (e.owner, e.active, e.file_size) (ground arith)

  Saved-Fits_self :
      (t : Tables) (r : SaveResult) (t' : Tables) (e : Saved t r t')
      → IsValid charged t
      → Fits charged user_id t'
  Saved-Fits_self t r t' e v used quota h =
      let (before, after, bound) =
        Saved-account pg user_id object_key hash content_type original_name size t r t' e in
      let old = v.usage user_id e.used e.quota before in
      let counted : share user_id r.file ≡ size =
        share-Saved t r t' e user_id ∙ rw (eq_refl user_id) in
      let bytes = Saved-file_bytes t r t' e user_id in
      let same : (e.used + size ≡ used) × (e.quota ≡ quota) = ok_pair (sym after ∙ h) in
      (omega arith, omega arith)

  Saved-Fits_ne :
      (t : Tables) (r : SaveResult) (t' : Tables) (e : Saved t r t')
      → IsValid charged t
      → (who : String) → who ≢ user_id
      → Fits charged who t'
  Saved-Fits_ne t r t' e v who ne used quota h =
      let before =
        sym (
          Saved-account_ne pg user_id object_key hash content_type original_name size t r t' e who
            ne)
        ∙ h in
      let old = v.usage who used quota before in
      let bound = v.within who used quota before in
      let counted : share who r.file ≡ 0 =
        share-Saved t r t' e who ∙ ground (arith, eq_iff user_id who) in
      let bytes = Saved-file_bytes t r t' e who in (omega arith, omega arith)

  Saved-IsValid :
      (t : Tables) (r : SaveResult) (t' : Tables) (e : Saved t r t')
      → IsValid charged t
      → IsValid charged t'
  Saved-IsValid t r t' e v =
      IsValid-of_Fits charged t'
        (rw e.files (
          append-HasUniqueIds (referenced (canonical pg hash t) t.files) r.file
            (referenced-HasUniqueIds (canonical pg hash t) t.files v.ids)
            (any-referenced r.file.id (canonical pg hash t) t.files ∙ e.fresh)))
        λ who.
          by_user user_id (λ w. Fits charged w t') (Saved-Fits_self t r t' e v)
            (Saved-Fits_ne t r t' e v) who

  save-IsValid_result :
      (res : Result SaveResult) (c c' : Conn)
      → save pg user_id object_key hash content_type original_name size c ≡ (res, c')
      → IsValid charged c.tables
      → IsValid charged c'.tables
  unfolding save
  save-IsValid_result (ok r) c c' h v =
      Saved-IsValid c.tables r c'.tables
        (Effect.save-Effect pg user_id object_key hash content_type original_name size c r c' h) v
  save-IsValid_result (err x) c c' h v =
      rw
        (transaction-eq-err "commit"
          (save_tx pg user_id object_key hash content_type original_name size) c x c' h)
        v

  -- `Save` keeps the invariant, however it ends and whichever calls of the driver fail.
  pub save-IsValid :
      (c : Conn)
      → IsValid charged c.tables
      → IsValid charged (save pg user_id object_key hash content_type original_name size c).1.tables
  save-IsValid c v =
      let (r, c') = save pg user_id object_key hash content_type original_name size c in
      save-IsValid_result r c c' refl v
