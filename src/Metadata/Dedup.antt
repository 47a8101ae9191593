-- ===== src/Metadata/Dedup.antt =====
-- Which object the row of a successful `Save` shares.
use mathlib.Core.List.{Mem}
use minio_3d.Base.{
  ℕ, String, true, false, ◌≡◌, ◌⊎◌, inl, inr, none, some, any, select, Option-cases,
}
use minio_3d.Errors.{ok}
use minio_3d.Types.{FileMeta}
use minio_3d.Sql.{Tables, Postgres, Conn}
use minio_3d.Sql.Choice.{limit_one-eq-none, limit_one-eq-some, select-eq-nil}
use minio_3d.Metadata.Reads.{holds_hash, canonical}
use minio_3d.Metadata.Save.{SaveResult, save}
use minio_3d.Metadata.Save.Effect

-- No row is found exactly when no active row has the hash.
pub canonical-eq-none :
    (pg : Postgres) (hash : String) (t : Tables)
    → canonical pg hash t ≡ none
    → any (holds_hash hash) t.files ≡ false
unfolding canonical
canonical-eq-none pg hash t h =
    select-eq-nil (holds_hash hash) t.files
      (limit_one-eq-none pg.choose (select (holds_hash hash) t.files) h)

pub canonical-eq-some :
    (pg : Postgres) (hash : String) (t : Tables) (f : FileMeta)
    → canonical pg hash t ≡ some f
    → (holds_hash hash f ≡ true) × (any (holds_hash hash) t.files ≡ true) × Mem f t.files
unfolding canonical
canonical-eq-some pg hash t f h = limit_one-eq-some pg.choose (holds_hash hash) t.files f h

module _ (pg : Postgres) (user_id object_key hash content_type original_name : String)
    (size : ℕ) where
  -- `Save` reports a duplicate exactly when an active row has the hash already. Then the new row
  -- has the object key of such a row; otherwise it has the key that the caller made.
  pub save-dedup :
      (c : Conn) (r : SaveResult) (c' : Conn)
      → save pg user_id object_key hash content_type original_name size c ≡ (ok r, c')
      → (r.duplicate ≡ any (holds_hash hash) c.tables.files)
        × (((r.duplicate ≡ false) × (r.file.object_key ≡ object_key))
            ⊎ ((f : FileMeta) × Mem f c.tables.files
                × (holds_hash hash f ≡ true)
                × (r.file.object_key ≡ f.object_key)))
  save-dedup c r c' h =
      let e =
        Effect.save-Effect pg user_id object_key hash content_type original_name size c r c' h in
      elim (Option-cases (canonical pg hash c.tables)) [
        | inl fresh ↦
            let absent = canonical-eq-none pg hash c.tables fresh in
            let new_row : r.duplicate ≡ false = rw fresh at e.duplicate in
            (cc, inl (new_row, rw fresh at e.key))
        | inr (f, hit) ↦
            let (holds, present, m) = canonical-eq-some pg hash c.tables f hit in
            let shared : r.duplicate ≡ true = rw hit at e.duplicate in
            (cc, inr (f, m, holds, rw hit at e.key))
      ]
