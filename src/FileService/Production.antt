-- ===== src/FileService/Production.antt =====
-- `*MetadataStore` as the repository of `FileService`, as main.go composes them, and what a new row
-- looks like to the `Delete` that takes it back.
use minio_3d.Base.{
  ℕ, ◌%◌, String, true, false, not, ◌≡◌, refl, sym, ap, leb, ◌∙◌, Option, none, some, List, [], ◌∷◌,
  ◌++◌, ◌==◌, eq_refl, arith, any, select, discard,
}
use minio_3d.Errors.{Result, ok}
use minio_3d.Types.{User, FileMeta, is_null}
use minio_3d.Sql.{Tables, Postgres, Conn, quiet, SameOthers, limit_one, one_row}
use minio_3d.World.{World, on_conn}
use minio_3d.Metadata.Reads.{holds_hash, is_owned, canonical, get_by_hash, get_by_id, list_by_user}
use minio_3d.Metadata.Save.{SaveResult, save}
use minio_3d.Metadata.Save.Effect
use minio_3d.Metadata.Save.Effect.{charged}
use minio_3d.Metadata.Delete.{DeleteResult, delete}
use minio_3d.Metadata.Delete.Effect.{released, refunded}
use minio_3d.Metadata.Dedup.{canonical-eq-none}
use minio_3d.Metadata.Lookup.{last_row}
use minio_3d.Metadata.Sharing.{delete_lem}
use minio_3d.FileService.{MetadataRepository}

-- `now` is the reading of `time.Now()` in `Delete`.
abbrev pub metadata_store : {S : Type 0} → Postgres → ℕ → MetadataRepository (World S)
metadata_store pg now = record {
  get_by_hash = λ hash. on_conn (get_by_hash pg hash);
  get_by_id = λ id user_id. on_conn (get_by_id id user_id);
  list_by_user = λ user_id. on_conn (list_by_user user_id);
  save = λ user_id object_key hash content_type original_name size.
      on_conn (save pg user_id object_key hash content_type original_name size);
  delete = λ file_id user_id. on_conn (delete pg now file_id user_id);
}

refunded-charged :
    (user_id : String) (size : ℕ) (us : List User)
    → refunded user_id size (charged user_id size us) ≡ us
refunded-charged user_id size [] = refl
refunded-charged user_id size (u ∷ us) = ground (arith, refunded-charged user_id size us)

discard-append :
    (k : String) (fs : List FileMeta) (f : FileMeta)
    → any (λ g. g.id == k) fs ≡ false
    → (f.id == k) ≡ true
    → discard (λ g. g.id == k) (fs ++ f ∷ []) ≡ fs
discard-append k [] f h e = rw e
discard-append k (g ∷ fs) f h e = ground (arith, discard-append k fs f)

select-append :
    (hash : String) (fs : List FileMeta) (f : FileMeta)
    → any (holds_hash hash) fs ≡ false
    → holds_hash hash f ≡ true
    → select (holds_hash hash) (fs ++ f ∷ []) ≡ f ∷ []
select-append hash [] f h e = rw e
select-append hash (g ∷ fs) f h e = ground (arith, select-append hash fs f)

only_row {ℓ} : {A : Type ℓ} (choose : List A → ℕ) (x : A) → limit_one choose (x ∷ []) ≡ some x
unfolding limit_one
only_row choose x = let e : choose (x ∷ []) % 1 ≡ 0 = omega arith in rw e

null_of : {A : Type 0} (o : Option A) → not (is_null o) ≡ false → o ≡ none
null_of none h = refl
null_of (some a) h = cc

restored :
    (now : ℕ) (t t' : Tables) (f : FileMeta) (size : ℕ) (user_id : String)
    → f.ref_count ≡ 1
    → f.size ≡ size
    → discard (λ g. g.id == f.id) t'.files ≡ t.files
    → t'.users ≡ charged user_id size t.users
    → SameOthers t t'
    → ◌≡◌ {A = Result DeleteResult × Conn}
        (
          ok (record { object_key = f.object_key; should_delete_object = leb f.ref_count 1 }),
          quiet (record t' {
            files = released now f f t'.files;
            users = refunded user_id f.size t'.users;
          }),
        )
        (ok (record { object_key = f.object_key; should_delete_object = true }), quiet t)
restored now t t' f size user_id one same gone us others =
    ground (arith, refunded-charged user_id size t.users)

module _ (pg : Postgres) (user_id object_key hash content_type original_name : String)
    (size : ℕ) where
  -- A `Save` on a driver that answers leaves a driver that answers.
  pub save-quiet :
      (t : Tables)
      → (save pg user_id object_key hash content_type original_name size (quiet t)).1.faults ≡ []
  unfolding save
  save-quiet t = ground arith

  -- On a driver that answers, `Delete` of a row that `Save` has just made, with no other active row
  -- of its hash, restores the tables exactly, and tells its caller to remove the object.
  pub delete-save :
      (now : ℕ) (t t' : Tables) (r : SaveResult)
      → save pg user_id object_key hash content_type original_name size (quiet t) ≡ (ok r, quiet t')
      → r.duplicate ≡ false
      → delete pg now r.file.id user_id (quiet t')
        ≡ (ok (record { object_key = r.file.object_key; should_delete_object = true }), quiet t)
  unfolding canonical
  delete-save now t t' r h new_row =
      let e =
        Effect.save-Effect pg user_id object_key hash content_type original_name size (quiet t) r
          (quiet t') h in
      let unseen = null_of (canonical pg hash t) (sym e.duplicate ∙ new_row) in
      let absent = canonical-eq-none pg hash t unseen in
      let files : t'.files ≡ t.files ++ r.file ∷ [] = rw unseen at e.files in
      let holds : holds_hash hash r.file ≡ true =
        rw (e.sha256, e.active) (ground (arith, eq_refl hash)) in
      let mine : is_owned r.file.id user_id r.file ≡ true =
        rw (e.owner, e.active) (ground (arith, eq_refl r.file.id, eq_refl user_id)) in
      let fetched : one_row (select (is_owned r.file.id user_id) t'.files) ≡ ok r.file =
        rw (files, last_row user_id t.files r.file e.fresh mine) in
      let found : canonical pg hash t' ≡ some r.file =
        rw (files, select-append hash t.files r.file absent holds) (only_row pg.choose r.file) in
      let gone = discard-append r.file.id t.files r.file e.fresh (eq_refl r.file.id) in
      delete_lem pg now r.file.id user_id t' r.file r.file fetched
        (ap (λ k. canonical pg k t') e.sha256 ∙ found)
      ∙ restored now t t' r.file size user_id e.ref_count e.file_size
          (ap (λ fs. discard (λ g. g.id == r.file.id) fs) files ∙ gone) e.users e.others
