-- ===== src/Metadata/Bytes.antt =====
-- The bytes of a user's active files, and what the updates of `files` do to them.
use minio_3d.Base.{
  ℕ, ◌+◌, ◌-◌, String, Bool, true, false, ◌&&◌, ◌≡◌, Option, none, some, List, [], ◌∷◌, ◌++◌, ◌==◌,
  refl, eq_iff, eq_refl, arith, any, select, update, discard, sum_by, if◌then◌else◌,
}
use minio_3d.Errors.{ok}
use minio_3d.Types.{FileMeta, is_null}
use minio_3d.Sql.{one_row}
use minio_3d.Metadata.Reads.{is_owned}
use minio_3d.Metadata.Save.Effect.{referenced}

abbrev pub share : String → FileMeta → ℕ
share user_id f = if f.user_id == user_id && is_null f.deleted_at then f.size else 0

-- The sizes of the user's active files, added up.
abbrev pub file_bytes : String → List FileMeta → ℕ
file_bytes user_id fs = sum_by (share user_id) fs

-- `files.id` is a primary key.
abbrev pub HasUniqueIds : List FileMeta → Type 0
HasUniqueIds [] = Unit
HasUniqueIds (f ∷ fs) = (any (λ g. g.id == f.id) fs ≡ false) × HasUniqueIds fs

module _ (user_id : String) where
  pub file_bytes-append :
      (fs gs : List FileMeta)
      → file_bytes user_id (fs ++ gs) ≡ file_bytes user_id fs + file_bytes user_id gs
  file_bytes-append [] gs = omega arith
  file_bytes-append (f ∷ fs) gs = omega (arith, file_bytes-append fs gs)

  pub file_bytes-referenced :
      (ex : Option FileMeta) (fs : List FileMeta)
      → file_bytes user_id (referenced ex fs) ≡ file_bytes user_id fs
  file_bytes-referenced none fs = refl
  file_bytes-referenced (some e) [] = refl
  file_bytes-referenced (some e) (f ∷ fs) = ground (arith, file_bytes-referenced (some e) fs)

  pub file_bytes-decr :
      (k : String) (fs : List FileMeta)
      → file_bytes user_id
          (update (λ f. f.id == k) (λ f. record f { ref_count = f.ref_count - 1 }) fs)
        ≡ file_bytes user_id fs
  file_bytes-decr k [] = refl
  file_bytes-decr k (f ∷ fs) = ground (arith, file_bytes-decr k fs)

  discard-absent :
      (k : String) (fs : List FileMeta)
      → any (λ g. g.id == k) fs ≡ false
      → file_bytes user_id (discard (λ g. g.id == k) fs) ≡ file_bytes user_id fs
  discard-absent k [] h = refl
  discard-absent k (f ∷ fs) h = ground (arith, discard-absent k fs)

  mark-absent :
      (now : ℕ) (k : String) (fs : List FileMeta)
      → any (λ g. g.id == k) fs ≡ false
      → file_bytes user_id (update (λ f. f.id == k) (λ f. record f { deleted_at = some now }) fs)
        ≡ file_bytes user_id fs
  mark-absent now k [] h = refl
  mark-absent now k (f ∷ fs) h = ground (arith, mark-absent now k fs)

-- The row that a query reads passes its test, and is one of the rows.
pub one_row-passes {ℓ} :
    {A : Type ℓ} (p : A → Bool) (xs : List A) (x : A) → one_row (select p xs) ≡ ok x → p x ≡ true
one_row-passes p [] x h = cc
one_row-passes p (y ∷ xs) x h = ground (arith, one_row-passes p xs x)

pub one_row-any {ℓ} :
    {A : Type ℓ} (p q : A → Bool) (xs : List A) (x : A)
    → one_row (select p xs) ≡ ok x
    → any q xs ≡ false
    → q x ≡ false
one_row-any p q [] x h n = cc
one_row-any p q (y ∷ xs) x h n = ground (arith, one_row-any p q xs x)

module _ (file_id user_id : String) (f : FileMeta) where
  -- The deleted row no longer counts for its owner, and counted for nobody else.
  pub file_bytes-discard :
      (other : String) (fs : List FileMeta)
      → HasUniqueIds fs
      → one_row (select (is_owned file_id user_id) fs) ≡ ok f
      → file_bytes other (discard (λ g. g.id == f.id) fs) + share other f ≡ file_bytes other fs
  file_bytes-discard other [] u h = cc
  file_bytes-discard other (g ∷ fs) u h = ground (
    arith,
    file_bytes-discard other fs u.1,
    one_row-any (is_owned file_id user_id) (λ x. x.id == g.id) fs f,
    discard-absent other g.id fs,
    eq_iff g.id f.id,
    eq_iff f.id g.id,
    eq_refl g.id,
  )

  pub file_bytes-mark :
      (now : ℕ) (other : String) (fs : List FileMeta)
      → HasUniqueIds fs
      → one_row (select (is_owned file_id user_id) fs) ≡ ok f
      → file_bytes other (update (λ g. g.id == f.id) (λ g. record g { deleted_at = some now }) fs)
          + share other f
        ≡ file_bytes other fs
  file_bytes-mark now other [] u h = cc
  file_bytes-mark now other (g ∷ fs) u h = ground (
    arith,
    file_bytes-mark now other fs u.1,
    one_row-any (is_owned file_id user_id) (λ x. x.id == g.id) fs f,
    mark-absent other now g.id fs,
    eq_iff g.id f.id,
    eq_iff f.id g.id,
    eq_refl g.id,
  )
