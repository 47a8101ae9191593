-- ===== src/Metadata/Ids.antt =====
-- The primary key of `files` under each update of the table.
use minio_3d.Base.{
  ℕ, ◌+◌, ◌-◌, String, Bool, false, ◌≡◌, Option, none, some, List, [], ◌∷◌, ◌++◌, ◌==◌, eq_iff,
  arith, any, update, discard, refl,
}
use minio_3d.Types.{FileMeta}
use minio_3d.Metadata.Save.Effect.{referenced}
use minio_3d.Metadata.Delete.Effect.{soft_deleted}
use minio_3d.Metadata.Bytes.{HasUniqueIds}

any-append_ne :
    (k : String) (fs : List FileMeta) (f : FileMeta)
    → any (λ g. g.id == k) fs ≡ false
    → (f.id == k) ≡ false
    → any (λ g. g.id == k) (fs ++ f ∷ []) ≡ false
any-append_ne k [] f h n = ground arith
any-append_ne k (g ∷ fs) f h n = ground (arith, any-append_ne k fs f)

pub append-HasUniqueIds :
    (fs : List FileMeta) (f : FileMeta)
    → HasUniqueIds fs
    → any (λ g. g.id == f.id) fs ≡ false
    → HasUniqueIds (fs ++ f ∷ [])
append-HasUniqueIds [] f u h = (refl, tt)
append-HasUniqueIds (g ∷ fs) f u h = ground (
  arith,
  append-HasUniqueIds fs f u.1,
  any-append_ne g.id fs f u.0,
  eq_iff g.id f.id,
  eq_iff f.id g.id,
)

any-discard :
    (k j : String) (fs : List FileMeta)
    → any (λ g. g.id == k) fs ≡ false
    → any (λ g. g.id == k) (discard (λ g. g.id == j) fs) ≡ false
any-discard k j [] h = refl
any-discard k j (g ∷ fs) h = ground (arith, any-discard k j fs)

pub discard-HasUniqueIds :
    (j : String) (fs : List FileMeta) → HasUniqueIds fs → HasUniqueIds (discard (λ g. g.id == j) fs)
discard-HasUniqueIds j [] u = tt
discard-HasUniqueIds j (g ∷ fs) u =
    ground (arith, discard-HasUniqueIds j fs u.1, any-discard g.id j fs u.0)

-- An update that leaves the ids alone.
module _ (p : FileMeta → Bool) (f : FileMeta → FileMeta)
    (keeps : (g : FileMeta) → (f g).id ≡ g.id) where
  any-update :
      (k : String) (fs : List FileMeta)
      → any (λ g. g.id == k) (update p f fs) ≡ any (λ g. g.id == k) fs
  any-update k [] = refl
  any-update k (g ∷ fs) = ground (arith, any-update k fs, keeps g)

  pub update-HasUniqueIds : (fs : List FileMeta) → HasUniqueIds fs → HasUniqueIds (update p f fs)
  update-HasUniqueIds [] u = tt
  update-HasUniqueIds (g ∷ fs) u =
      ground (arith, update-HasUniqueIds fs u.1, any-update g.id fs, keeps g)

pub referenced-HasUniqueIds :
    (ex : Option FileMeta) (fs : List FileMeta) → HasUniqueIds fs → HasUniqueIds (referenced ex fs)
referenced-HasUniqueIds none fs u = u
referenced-HasUniqueIds (some e) fs u =
    update-HasUniqueIds (λ g. g.id == e.id) (λ g. record g { ref_count = g.ref_count + 1 })
      (λ g. refl) fs u

pub soft_deleted-HasUniqueIds :
    (now : ℕ) (id canon_id : String) (fs : List FileMeta)
    → HasUniqueIds fs
    → HasUniqueIds (soft_deleted now id canon_id fs)
soft_deleted-HasUniqueIds now id canon_id fs u =
    update-HasUniqueIds (λ g. g.id == canon_id) (λ g. record g { ref_count = g.ref_count - 1 })
      (λ g. refl) _
      (update-HasUniqueIds (λ g. g.id == id) (λ g. record g { deleted_at = some now }) (λ g. refl)
        fs u)
