-- ===== src/Metadata/Invariant/Deleting.antt =====
-- `Delete` and the invariant of users and files.
use minio_3d.Base.{
  ℕ, ◌+◌, ◌≡◌, ◌≢◌, String, true, ◌==◌, arith, Bool-cases, inl, inr, refl, eq_iff, leb, sym,
  eq_refl, ◌∙◌, if◌then◌else◌,
}
use minio_3d.Errors.{Result, ok, err}
use minio_3d.Sql.{Tables, Postgres, Conn}
use minio_3d.Sql.Laws.{transaction-eq-err}
use minio_3d.Metadata.Accounts.{account, account_before_refund, account-refunded_ne}
use minio_3d.Metadata.Bytes.{
  HasUniqueIds, share, file_bytes, file_bytes-decr, file_bytes-discard, file_bytes-mark,
  one_row-passes,
}
use minio_3d.Metadata.Ids.{discard-HasUniqueIds, soft_deleted-HasUniqueIds}
use minio_3d.Metadata.Reads.{is_owned}
use minio_3d.Metadata.Delete.{DeleteResult, delete, delete_tx}
use minio_3d.Metadata.Delete.Effect as Deleted
use minio_3d.Metadata.Invariant.{IsValid, Fits, IsValid-of_Fits, by_user}

module _ (charged : String → ℕ) (pg : Postgres) (now : ℕ) (file_id user_id : String) where
  abbrev Gone : Tables → DeleteResult → Tables → Type 0
  Gone = Deleted.Effect pg now file_id user_id

  owned :
      (t : Tables) (r : DeleteResult) (t' : Tables) (e : Gone t r t')
      → is_owned file_id user_id e.file ≡ true
  owned t r t' e = one_row-passes (is_owned file_id user_id) t.files e.file e.fetched

  share-owned :
      (t : Tables) (r : DeleteResult) (t' : Tables) (e : Gone t r t') (who : String)
      → share who e.file ≡ (if user_id == who then e.file.size else 0)
  share-owned t r t' e who = let o = owned t r t' e in ground (arith, eq_iff e.file.user_id user_id)

  released-file_bytes :
      (t : Tables) (r : DeleteResult) (t' : Tables) (e : Gone t r t') (who : String)
      → HasUniqueIds t.files
      → file_bytes who t'.files + share who e.file ≡ file_bytes who t.files
  released-file_bytes t r t' e who u = elim (Bool-cases (leb e.canon.ref_count 1)) [
    | inl last ↦
        rw (e.files, last) (file_bytes-discard file_id user_id e.file who t.files u e.fetched)
    | inr shared ↦
        rw (e.files, shared, file_bytes-decr who e.canon.id)
          (file_bytes-mark file_id user_id e.file now who t.files u e.fetched)
  ]

  Gone-Fits_self :
      (t : Tables) (r : DeleteResult) (t' : Tables) (e : Gone t r t')
      → IsValid charged t
      → Fits charged user_id t'
  Gone-Fits_self t r t' e v used quota h =
      let (old, before, less) =
        account_before_refund user_id e.file.size t.users used quota (rw e.users at h) in
      let usage = v.usage user_id old quota before in
      let bound = v.within user_id old quota before in
      let counted : share user_id e.file ≡ e.file.size =
        share-owned t r t' e user_id ∙ rw (eq_refl user_id) in
      let bytes = released-file_bytes t r t' e user_id v.ids in (omega arith, omega arith)

  Gone-Fits_ne :
      (t : Tables) (r : DeleteResult) (t' : Tables) (e : Gone t r t')
      → IsValid charged t
      → (who : String) → who ≢ user_id
      → Fits charged who t'
  Gone-Fits_ne t r t' e v who ne used quota h =
      let before : account who t ≡ ok (used, quota) =
        sym (account-refunded_ne user_id e.file.size who t.users ne) ∙ (rw e.users at h) in
      let usage = v.usage who used quota before in
      let bound = v.within who used quota before in
      let counted : share who e.file ≡ 0 =
        share-owned t r t' e who ∙ ground (arith, eq_iff user_id who) in
      let bytes = released-file_bytes t r t' e who v.ids in (omega arith, omega arith)

  Gone-ids :
      (t : Tables) (r : DeleteResult) (t' : Tables) (e : Gone t r t')
      → HasUniqueIds t.files
      → HasUniqueIds t'.files
  Gone-ids t r t' e u = elim (Bool-cases (leb e.canon.ref_count 1)) [
    | inl last ↦ rw (e.files, last) (discard-HasUniqueIds e.file.id t.files u)
    | inr shared ↦
        rw (e.files, shared) (soft_deleted-HasUniqueIds now e.file.id e.canon.id t.files u)
  ]

  delete-IsValid_result :
      (res : Result DeleteResult) (c c' : Conn)
      → delete pg now file_id user_id c ≡ (res, c')
      → IsValid charged c.tables
      → IsValid charged c'.tables
  unfolding delete
  delete-IsValid_result (ok r) c c' h v =
      let e = Deleted.delete-Effect pg now file_id user_id c r c' h in
      IsValid-of_Fits charged c'.tables (Gone-ids c.tables r c'.tables e v.ids) λ who.
        by_user user_id (λ w. Fits charged w c'.tables) (Gone-Fits_self c.tables r c'.tables e v)
          (Gone-Fits_ne c.tables r c'.tables e v) who
  delete-IsValid_result (err x) c c' h v =
      rw (transaction-eq-err "commit delete" (delete_tx pg now file_id user_id) c x c' h) v

  -- `Delete` keeps the invariant, however it ends and whichever calls of the driver fail.
  pub delete-IsValid :
      (c : Conn)
      → IsValid charged c.tables
      → IsValid charged (delete pg now file_id user_id c).1.tables
  delete-IsValid c v =
      let (r, c') = delete pg now file_id user_id c in delete-IsValid_result r c c' refl v
