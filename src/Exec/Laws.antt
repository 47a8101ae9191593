-- ===== src/Exec/Laws.antt =====
-- Inversion of a step.
use minio_3d.Base.{String, Bool, true, false, ◌≡◌, ◌⊎◌, inl, inr, refl, arith}
use minio_3d.Errors.{Error, wrap, Result, ok, err}
use minio_3d.Exec.{Exec, relabel, handle, continue, ◌>>=◌, guard}

module _ {ℓ κ} {S : Type 0} {A : Type ℓ} {B : Type κ} where
  pub continue-eq-ok :
      (r : Result A × S) (f : A → Exec S B) (b : B) (c' : S)
      → continue r f ≡ (ok b, c')
      → (a : A) × (c₁ : S) × (r ≡ (ok a, c₁)) × (f a c₁ ≡ (ok b, c'))
  continue-eq-ok (ok a, c) f b c' h = (a, c, refl, h)
  continue-eq-ok (err e, c) f b c' h = cc

  pub >>=-eq-ok :
      (m : Exec S A) (f : A → Exec S B) (c : S) (b : B) (c' : S)
      → (m >>= f) c ≡ (ok b, c')
      → (a : A) × (c₁ : S) × (m c ≡ (ok a, c₁)) × (f a c₁ ≡ (ok b, c'))
  unfolding ◌>>=◌
  >>=-eq-ok m f c b c' h = continue-eq-ok (m c) f b c' h

  continue-eq-err :
      (r : Result A × S) (f : A → Exec S B) (e : Error) (c' : S)
      → continue r f ≡ (err e, c')
      → (r ≡ (err e, c')) ⊎ ((a : A) × (c₁ : S) × (r ≡ (ok a, c₁)) × (f a c₁ ≡ (err e, c')))
  continue-eq-err (ok a, c) f e c' h = inr (a, c, refl, h)
  continue-eq-err (err x, c) f e c' h = inl (ground arith)

  pub >>=-eq-err :
      (m : Exec S A) (f : A → Exec S B) (c : S) (e : Error) (c' : S)
      → (m >>= f) c ≡ (err e, c')
      → (m c ≡ (err e, c')) ⊎ ((a : A) × (c₁ : S) × (m c ≡ (ok a, c₁)) × (f a c₁ ≡ (err e, c')))
  unfolding ◌>>=◌
  >>=-eq-err m f c e c' h = continue-eq-err (m c) f e c' h

module _ {ℓ} {S : Type 0} {A : Type ℓ} where
  pub handle-eq-ok :
      (r : Result A × S) (f : Error → Exec S A) (a : A) (c' : S)
      → handle r f ≡ (ok a, c')
      → (r ≡ (ok a, c')) ⊎ ((e : Error) × (c₁ : S) × (r ≡ (err e, c₁)) × (f e c₁ ≡ (ok a, c')))
  handle-eq-ok (ok b, c) f a c' h = inl h
  handle-eq-ok (err e, c) f a c' h = inr (e, c, refl, h)

  pub handle-eq-err :
      (r : Result A × S) (f : Error → Exec S A) (e : Error) (c' : S)
      → handle r f ≡ (err e, c')
      → (x : Error) × (c₁ : S) × (r ≡ (err x, c₁)) × (f x c₁ ≡ (err e, c'))
  handle-eq-err (ok b, c) f e c' h = cc
  handle-eq-err (err x, c) f e c' h = (x, c, refl, h)

  pub relabel-eq-err :
      (m : String) (r : Result A × S) (e : Error) (c' : S)
      → relabel m r ≡ (err e, c')
      → (x : Error) × (r ≡ (err x, c')) × (e ≡ wrap m x)
  relabel-eq-err m (ok b, c) e c' h = cc
  relabel-eq-err m (err x, c) e c' h = (x, ground arith, ground arith)

  pub relabel-eq-ok :
      (m : String) (r : Result A × S) (a : A) (c' : S) → relabel m r ≡ (ok a, c') → r ≡ (ok a, c')
  relabel-eq-ok m (ok b, c) a c' h = h
  relabel-eq-ok m (err e, c) a c' h = cc

pub guard-eq-ok :
    {S : Type 0} (b : Bool) (e : Error) (c : S) (u : Unit) (c' : S)
    → guard b e c ≡ (ok u, c')
    → (b ≡ true) × (c' ≡ c)
guard-eq-ok true e c u c' h = ground arith
guard-eq-ok false e c u c' h = cc
