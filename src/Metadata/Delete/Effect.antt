-- ===== src/Metadata/Delete/Effect.antt =====
-- What a successful `Delete` has done to the tables, read off its statements.
use mathlib.Core.Path.{subst₂}
use minio_3d.Base.{
  ℕ, ◌-◌, String, ◌≡◌, Option, none, some, List, ◌==◌, sym, arith, leb, select, update, discard,
  if◌then◌else◌, Bool-cases, inl, inr,
}
use minio_3d.Errors.{Result, ok, err}
use minio_3d.Types.{User, FileMeta}
use minio_3d.Exec.{pure, ◌>>=◌, ◌>>◌, label}
use minio_3d.Sql.{
  Tables, Postgres, Conn, Sql, query, beside, reading, one_row, chosen, or_not_found,
}
use minio_3d.Exec.Laws.{>>=-eq-ok}
use minio_3d.Sql.Laws.{label-query-eq-ok, or_not_found-query-eq-ok, transaction-eq-ok}
use minio_3d.Metadata.Reads.{is_owned, canonical}
use minio_3d.Metadata.Delete.{
  DeleteResult, fetch_file, hard_delete, soft_delete, decr_ref, sub_usage, release, delete_tx,
  delete,
}

abbrev pub soft_deleted : ℕ → String → String → List FileMeta → List FileMeta
soft_deleted now id canon_id fs =
    update (λ f. f.id == canon_id) (λ f. record f { ref_count = f.ref_count - 1 })
      (update (λ f. f.id == id) (λ f. record f { deleted_at = some now }) fs)

-- The files after a row is released, by the count of its canonical row.
abbrev pub released : ℕ → FileMeta → FileMeta → List FileMeta → List FileMeta
released now f canon fs =
    if leb canon.ref_count 1
    then discard (λ g. g.id == f.id) fs
    else soft_deleted now f.id canon.id fs

abbrev pub refunded : String → ℕ → List User → List User
refunded user_id size us =
    update (λ u. u.id == user_id)
      (λ u. record u { storage_bytes_used = u.storage_bytes_used - size }) us

-- A statement that only reads leaves the tables, and its rows are the rows read.
module _ {ℓ} {A : Type ℓ} where
  pub beside-eq-ok :
      (t : Tables) (r : Result A) (a : A) (t' : Tables)
      → beside t r ≡ ok (a, t')
      → (r ≡ ok a) × (t' ≡ t)
  beside-eq-ok t (ok b) a t' h = ground arith
  beside-eq-ok t (err e) a t' h = cc

  pub chosen-eq-ok : (o : Option A) (a : A) → chosen o ≡ ok a → o ≡ some a
  chosen-eq-ok none a h = cc
  chosen-eq-ok (some b) a h = ground arith

module _ (pg : Postgres) (now : ℕ) (file_id user_id : String) where
  pub record Effect (t : Tables) (r : DeleteResult) (t' : Tables) : Type 0 where
    pub file : FileMeta
    pub canon : FileMeta
    pub fetched : one_row (select (is_owned file_id user_id) t.files) ≡ ok file
    pub found : canonical pg file.sha256 t ≡ some canon
    pub files : t'.files ≡ released now file canon t.files
    pub users : t'.users ≡ refunded user_id file.size t.users
    pub object_key : r.object_key ≡ file.object_key
    pub should_delete : r.should_delete_object ≡ leb canon.ref_count 1

  hard-effect :
      (id : String) (c : Conn) (c' : Conn)
      → label "hard delete file" (query (hard_delete id)) c ≡ (ok tt, c')
      → (c'.tables.files ≡ discard (λ g. g.id == id) c.tables.files)
        × (c'.tables.users ≡ c.tables.users)
  unfolding hard_delete
  hard-effect id c c' h =
      let e = label-query-eq-ok "hard delete file" (hard_delete id) c tt c' h in ground arith

  soft-effect :
      (id canon_id : String) (c : Conn) (c' : Conn)
      → (label "soft delete file" (query (soft_delete now id))
            >> label "decrement ref_count" (query (decr_ref canon_id)))
          c
        ≡ (ok tt, c')
      → (c'.tables.files ≡ soft_deleted now id canon_id c.tables.files)
        × (c'.tables.users ≡ c.tables.users)
  unfolding soft_delete decr_ref
  soft-effect id canon_id c c' h =
      let (u, c₁, softly, rest) =
        >>=-eq-ok (label "soft delete file" (query (soft_delete now id)))
          (λ _. label "decrement ref_count" (query (decr_ref canon_id))) c tt c' h in
      let e₁ = label-query-eq-ok "soft delete file" (soft_delete now id) c u c₁ softly in
      let e₂ = label-query-eq-ok "decrement ref_count" (decr_ref canon_id) c₁ tt c' rest in
      ground arith

  release-effect :
      (f canon : FileMeta) (c : Conn) (c' : Conn)
      → release pg now file_id user_id f canon c ≡ (ok tt, c')
      → (c'.tables.files ≡ released now f canon c.tables.files) × (c'.tables.users ≡ c.tables.users)
  unfolding release
  release-effect f canon c c' h = elim (Bool-cases (leb canon.ref_count 1)) [
    | inl last ↦ rw last (hard-effect f.id c c' (rw last at h))
    | inr shared ↦ rw shared (soft-effect f.id canon.id c c' (rw shared at h))
  ]

  abbrev refund : FileMeta → FileMeta → Sql DeleteResult
  refund f canon =
      label "update storage usage on delete" (query (sub_usage f.size user_id))
      >> pure (record { object_key = f.object_key; should_delete_object = leb canon.ref_count 1 })

  abbrev drop : FileMeta → FileMeta → Sql DeleteResult
  drop f canon = release pg now file_id user_id f canon >> refund f canon

  abbrev look : FileMeta → Sql DeleteResult
  look f =
      label "find canonical for delete" (query (reading (λ t. chosen (canonical pg f.sha256 t))))
      >>= λ canon. drop f canon

  refund-effect :
      (f canon : FileMeta) (c : Conn) (r : DeleteResult) (c' : Conn)
      → refund f canon c ≡ (ok r, c')
      → (c'.tables.files ≡ c.tables.files)
        × (c'.tables.users ≡ refunded user_id f.size c.tables.users)
        × (r ≡ record { object_key = f.object_key; should_delete_object = leb canon.ref_count 1 })
  unfolding sub_usage
  refund-effect f canon c r c' h =
      let (u, c₁, paid, rest) =
        >>=-eq-ok (label "update storage usage on delete" (query (sub_usage f.size user_id)))
          (λ _.
            pure
              (record { object_key = f.object_key; should_delete_object = leb canon.ref_count 1 }))
          c r c' h in
      let e =
        label-query-eq-ok "update storage usage on delete" (sub_usage f.size user_id) c u c₁ paid in
      ground arith

  -- The body of the transaction, statement by statement.
  delete_tx-Effect :
      (c : Conn) (r : DeleteResult) (c' : Conn)
      → delete_tx pg now file_id user_id c ≡ (ok r, c')
      → Effect c.tables r c'.tables
  unfolding delete_tx
  delete_tx-Effect c r c' h =
      let (f, c₁, fetching, h₁) =
        >>=-eq-ok (or_not_found "fetch file for delete" (query (fetch_file file_id user_id))) look c
          r c' h in
      let (fetched, same₁) =
        beside-eq-ok c.tables (one_row (select (is_owned file_id user_id) c.tables.files)) f
          c₁.tables
          (unfold fetch_file in
            or_not_found-query-eq-ok "fetch file for delete" (fetch_file file_id user_id) c f c₁
              fetching) in
      let (canon, c₂, finding, h₂) =
        >>=-eq-ok
          (label "find canonical for delete"
            (query (reading (λ t. chosen (canonical pg f.sha256 t)))))
          (drop f) c₁ r c' h₁ in
      let (found, same₂) =
        beside-eq-ok c₁.tables (chosen (canonical pg f.sha256 c₁.tables)) canon c₂.tables (
          label-query-eq-ok "find canonical for delete"
            (reading (λ t. chosen (canonical pg f.sha256 t))) c₁ canon c₂ finding) in
      let (u, c₃, releasing, h₃) =
        >>=-eq-ok (release pg now file_id user_id f canon) (λ _. refund f canon) c₂ r c' h₂ in
      let dropped = release-effect f canon c₂ c₃ releasing in
      let paid = refund-effect f canon c₃ r c' h₃ in
      let some_canon = chosen-eq-ok (canonical pg f.sha256 c₁.tables) canon found in
      record {
        file = f;
        canon = canon;
        fetched = fetched;
        found = cc (some_canon, same₁);
        files = cc (paid.0, dropped.0, same₂, same₁);
        users = cc (paid.1, dropped.1, same₂, same₁);
        object_key = cc paid.2;
        should_delete = cc paid.2;
      }

  -- A successful `Delete` has this effect on the tables that it found.
  pub delete-Effect :
      (c : Conn) (r : DeleteResult) (c' : Conn)
      → delete pg now file_id user_id c ≡ (ok r, c')
      → Effect c.tables r c'.tables
  unfolding delete
  delete-Effect c r c' h =
      let (c₁, c₂, before, ran, after) =
        transaction-eq-ok "commit delete" (delete_tx pg now file_id user_id) c r c' h in
      subst₂ (λ a b. Effect a r b) before (sym after) (delete_tx-Effect c₁ r c₂ ran)
