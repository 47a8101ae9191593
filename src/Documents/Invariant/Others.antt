-- ===== src/Documents/Invariant/Others.antt =====
-- The calls of storage/metadata.go, which write users and files, and the invariant of the documents.
use mathlib.Core.Path.{subst}
use minio_3d.Base.{
  ℕ, ◌≡◌, refl, ◌∙◌, String, true, ◌==◌, ◌-◌, ◌+◌, List, [], ◌∷◌, ◌++◌, any, arith, update, leb,
  Option, none, some, not, discard, Bool-cases, inl, inr,
}
use minio_3d.Errors.{ok}
use minio_3d.Counts.{any-update, any-append, All-weaken}
use minio_3d.Types.{FileMeta, User, is_null}
use minio_3d.Sql.{Tables, Postgres}
use minio_3d.Sql.Keeps.{
  IsKept, IsKeptBy, query-IsKept, label-IsKept, or_not_found-IsKept, reading-IsKept, guard-IsKept,
  pure-IsKept, >>=-IsKept, transaction-IsKept,
}
use minio_3d.Metadata.Reads.{canonical, insert_user, create_user}
use minio_3d.Metadata.Save.{
  lock_user, incr_ref, insert_file, insert_row, record_file, save_tx, save,
}
use minio_3d.Metadata.Delete.{
  fetch_file, hard_delete, soft_delete, decr_ref, sub_usage, release, delete_tx, delete,
}
use minio_3d.Documents.Invariant.{IsSound, has_user}
use minio_3d.Documents.Invariant.Adding.{add_usage-IsKept}

-- A change of the users that removes none, and of the files.
abbrev others : List User → List FileMeta → Tables → Tables
others users files t = record t { users = users; files = files }

others-IsSound :
    (users : List User) (files : List FileMeta) (t : Tables)
    → ((k : String) → has_user t k ≡ true → any (λ u. u.id == k) users ≡ true)
    → IsSound t
    → IsSound (others users files t)
others-IsSound users files t keeps s = record {
  ids = s.ids;
  numbers = s.numbers;
  owners = All-weaken _ _ t.documents (λ d. keeps d.user_id) s.owners;
  settled = s.settled;
  page_refs = s.page_refs;
  hook_refs = s.hook_refs;
}

files-IsSound :
    (files : List FileMeta) (t t' : Tables)
    → record t { files = files } ≡ t'
    → IsSound t
    → IsSound t'
files-IsSound files t t' same s = subst IsSound same (others-IsSound t.users files t (λ k h. h) s)

write_files-IsKept :
    (g : Tables → List FileMeta)
    → IsKeptBy IsSound {A = Unit {0}} (λ t. ok (tt, record t { files = g t }))
write_files-IsKept g t x t' h =
    let same : record t { files = g t } ≡ t' = ground arith in files-IsSound (g t) t t' same

module _ (pg : Postgres) where
  insert_user-IsKept :
      (email password_hash : String) (quota : ℕ)
      → IsKeptBy IsSound (insert_user pg email password_hash quota)
  unfolding insert_user
  insert_user-IsKept email password_hash quota t x t' h s =
      let user : User = record {
        id = pg.new_id t;
        email = email;
        password_hash = password_hash;
        storage_bytes_used = 0;
        storage_quota_bytes = quota;
        created_at = pg.now t;
      } in
      let same : others (t.users ++ user ∷ []) t.files t ≡ t' = ground arith in
      subst IsSound same (
        others-IsSound (t.users ++ user ∷ []) t.files t
          (λ k. any-append (λ u. u.id == k) t.users user) s)

  pub create_user-IsKept :
      (email password_hash : String) (quota : ℕ)
      → IsKept IsSound (create_user pg email password_hash quota)
  unfolding create_user
  create_user-IsKept email password_hash quota =
      label-IsKept IsSound _ _
        (query-IsKept IsSound _ (insert_user-IsKept email password_hash quota))

  incr_ref-IsKept : (id : String) → IsKeptBy IsSound (incr_ref id)
  unfolding incr_ref
  incr_ref-IsKept id t x t' h =
      let same : record t {
        files = update (λ f. f.id == id) (λ f. record f { ref_count = f.ref_count + 1 }) t.files;
      }
          ≡ t' =
        ground arith in
      files-IsSound _ t t' same

  insert_file-IsKept : (row : Tables → FileMeta) → IsKeptBy IsSound (λ t. insert_file (row t) t)
  unfolding insert_file
  insert_file-IsKept row t x t' h =
      let same : record t { files = t.files ++ row t ∷ [] } ≡ t' = ground arith in
      files-IsSound _ t t' same

  module _ (user_id object_key hash content_type original_name : String) (size : ℕ) where
    record_file-IsKept :
        (existing : Option FileMeta)
        → IsKept IsSound
            (record_file pg user_id object_key hash content_type original_name size existing)
    unfolding record_file insert_row
    record_file-IsKept none =
        label-IsKept IsSound _ _ (query-IsKept IsSound _ (insert_file-IsKept _))
    record_file-IsKept (some f) =
        >>=-IsKept IsSound _ _
          (label-IsKept IsSound _ _ (query-IsKept IsSound _ (incr_ref-IsKept f.id)))
          (λ u. label-IsKept IsSound _ _ (query-IsKept IsSound _ (insert_file-IsKept _)))

    pub save-IsKept :
        IsKept IsSound (save pg user_id object_key hash content_type original_name size)
    unfolding save save_tx lock_user
    save-IsKept = transaction-IsKept IsSound "commit" _ (
        >>=-IsKept IsSound _ _ (label-IsKept IsSound _ _ (reading-IsKept IsSound _)) (λ quota.
          >>=-IsKept IsSound _ _ (guard-IsKept IsSound _ _) (λ u.
            >>=-IsKept IsSound _ _
              (label-IsKept IsSound "find canonical" _
                (reading-IsKept IsSound (λ t. ok (canonical pg hash t))))
              (λ o. >>=-IsKept IsSound _ _ (record_file-IsKept o) (λ f.
                >>=-IsKept IsSound _ _
                  (label-IsKept IsSound "update storage usage" _
                    (query-IsKept IsSound _ (add_usage-IsKept size user_id)))
                  (λ u. pure-IsKept IsSound (record { file = f; duplicate = not (is_null o) })))))))

  sub_usage-IsKept : (size : ℕ) (user_id : String) → IsKeptBy IsSound (sub_usage size user_id)
  unfolding sub_usage
  sub_usage-IsKept size user_id t x t' h s =
      let f : User → User = λ u. record u { storage_bytes_used = u.storage_bytes_used - size } in
      let same : others (update (λ u. u.id == user_id) f t.users) t.files t ≡ t' = ground arith in
      subst IsSound same (
        others-IsSound _ t.files t
          (λ k found.
            any-update (λ u. u.id == k) (λ u. u.id == user_id) f (λ u. refl) t.users ∙ found)
          s)

  module _ (now : ℕ) (file_id user_id : String) where
    release-IsKept : (f canon : FileMeta) → IsKept IsSound (release pg now file_id user_id f canon)
    unfolding release hard_delete soft_delete decr_ref
    release-IsKept f canon = elim (Bool-cases (leb canon.ref_count 1)) [
      | inl last ↦ rw last (
          label-IsKept IsSound _ _ (
            query-IsKept IsSound (hard_delete f.id)
              (write_files-IsKept (λ t. discard (λ g. g.id == f.id) t.files))))
      | inr shared ↦ rw shared (
          >>=-IsKept IsSound _ _
            (label-IsKept IsSound _ _ (
              query-IsKept IsSound (soft_delete now f.id) (
                write_files-IsKept (λ t.
                  update (λ g. g.id == f.id) (λ g. record g { deleted_at = some now }) t.files))))
            (λ u. label-IsKept IsSound _ _ (
              query-IsKept IsSound (decr_ref canon.id) (
                write_files-IsKept (λ t.
                  update (λ g. g.id == canon.id) (λ g. record g { ref_count = g.ref_count - 1 })
                    t.files)))))
    ]

    pub delete-IsKept : IsKept IsSound (delete pg now file_id user_id)
    unfolding delete delete_tx fetch_file
    delete-IsKept = transaction-IsKept IsSound "commit delete" _ (
        >>=-IsKept IsSound _ _ (or_not_found-IsKept IsSound _ _ (reading-IsKept IsSound _)) (λ f.
          >>=-IsKept IsSound _ _ (label-IsKept IsSound _ _ (reading-IsKept IsSound _)) (λ canon.
            >>=-IsKept IsSound _ _ (release-IsKept f canon) (λ u.
              >>=-IsKept IsSound _ _
                (label-IsKept IsSound _ _
                  (query-IsKept IsSound _ (sub_usage-IsKept f.size user_id)))
                (λ u. pure-IsKept IsSound _)))))
