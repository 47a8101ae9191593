-- ===== src/Metadata/Sharing.antt =====
-- What `Delete` tells its caller about the object, and the files that it leaves.
use mathlib.Core.Logic.Or
use mathlib.Core.List.{Mem, mem-cons, not-mem-nil, Mem-prop}
use minio_3d.Base.{
  ℕ, ◌≤◌, String, true, ◌≡◌, ◌≢◌, some, List, [], ◌∷◌, ◌==◌, eq_iff, ap, arith, select, discard,
  leb, Bool-cases, inl, inr, ◌∙◌,
}
use minio_3d.Errors.{ok}
use minio_3d.Types.{FileMeta}
use minio_3d.Sql.{Tables, Postgres, quiet, one_row}
use minio_3d.Metadata.Reads.{is_owned, canonical}
use minio_3d.Metadata.Delete.{delete}
use minio_3d.Metadata.Delete.Effect.{released, refunded}

module _ (pg : Postgres) (now : ℕ) (file_id user_id : String) where
  -- On a driver that answers, `Delete` of a file that is found ends well, with these tables: the
  -- count of the chosen row alone decides the branch.
  pub delete_lem :
      (t : Tables) (f canon : FileMeta)
      → one_row (select (is_owned file_id user_id) t.files) ≡ ok f
      → canonical pg f.sha256 t ≡ some canon
      → delete pg now file_id user_id (quiet t) ≡ (
        ok (record { object_key = f.object_key; should_delete_object = leb canon.ref_count 1 }),
        quiet (record t {
          files = released now f canon t.files;
          users = refunded user_id f.size t.users;
        }),
      )
  unfolding delete
  delete_lem t f canon fetched found = ground arith

mem-discard :
    (k : String) (g : FileMeta) (fs : List FileMeta)
    → Mem g fs
    → g.id ≢ k
    → Mem g (discard (λ f. f.id == k) fs)
mem-discard k g [] m ne = absurd (not-mem-nil m)
mem-discard k g (f ∷ fs) m ne = elim (Bool-cases (f.id == k)) [
  | inl hit ↦ rw hit (
      Or.elim Mem-prop (mem-cons.0 m)
        (λ e. absurd (ne (ap (λ (x : FileMeta). x.id) e ∙ (eq_iff f.id k).0 hit)))
        (λ later. mem-discard k g fs later ne))
  | inr miss ↦ rw miss (
      mem-cons.1 (
        Or.elim (λ x y. squash₁ x y) (mem-cons.0 m) (λ e. Or.inl e)
          (λ later. Or.inr (mem-discard k g fs later ne))))
]

module _ (pg : Postgres) (now : ℕ) (file_id user_id : String) where
  -- Where the row that `LIMIT 1` returns has a count of one or less, `Delete` tells its caller to
  -- remove the object although another active row of the same object stays in the table.
  pub delete-drops_shared :
      (t : Tables) (f g canon : FileMeta)
      → one_row (select (is_owned file_id user_id) t.files) ≡ ok f
      → canonical pg f.sha256 t ≡ some canon
      → canon.ref_count ≤ 1
      → Mem g t.files
      → g.id ≢ f.id
      → g.object_key ≡ f.object_key
      → (t' : Tables) × (delete pg now file_id user_id (quiet t)
          ≡ (ok (record { object_key = g.object_key; should_delete_object = true }), quiet t'))
        × Mem g t'.files
  delete-drops_shared t f g canon fetched found few m ne same =
      let last : leb canon.ref_count 1 ≡ true = ground arith in
      (
        record t { files = released now f canon t.files; users = refunded user_id f.size t.users },
        rw (delete_lem pg now file_id user_id t f canon fetched found, last, same),
        rw last (mem-discard f.id g t.files m ne),
      )
