-- ===== src/Exec.antt =====
-- Go code that changes a state and may return an error. What was written before the error stays
-- written, so the state comes back beside the error too.
pub mod Laws
use minio_3d.Base.{String, Bool, true, false, Option, none, some}
use minio_3d.Errors.{Error, wrap, Result, ok, err}

abbrev pub Exec {ℓ} : Type 0 → Type ℓ → Type ℓ
Exec S A = S → Result A × S

module _ {ℓ} {S : Type 0} {A : Type ℓ} where
  abbrev pub pure : A → Exec S A
  pure a s = (ok a, s)

  abbrev pub raise : Error → Exec S A
  raise e s = (err e, s)

  abbrev pub lift : Result A → Exec S A
  lift r s = (r, s)

  abbrev pub relabel : String → Result A × S → Result A × S
  relabel m (ok a, s) = (ok a, s)
  relabel m (err e, s) = (err (wrap m e), s)

  -- `if err != nil { return fmt.Errorf("m: %w", err) }`
  abbrev pub label : String → Exec S A → Exec S A
  label m q s = relabel m (q s)

module _ {ℓ κ} {S : Type 0} {A : Type ℓ} {B : Type κ} where
  abbrev pub continue : Result A × S → (A → Exec S B) → Result B × S
  continue (ok a, s) f = f a s
  continue (err e, s) f = (err e, s)

  infixl 5 ◌>>=◌
  unfoldable pub ◌>>=◌ : Exec S A → (A → Exec S B) → Exec S B
  ◌>>=◌ m f s = continue (m s) f

module _ {ℓ} {S : Type 0} {B : Type ℓ} where
  infixl 5 ◌>>◌
  abbrev pub ◌>>◌ : Exec S (Unit {0}) → Exec S B → Exec S B
  m >> k = m >>= λ _. k

abbrev pub guard : {S : Type 0} → Bool → Error → Exec S (Unit {0})
guard true e s = (ok tt, s)
guard false e s = (err e, s)

abbrev pub forget {ℓ} : {S : Type 0} {A : Type ℓ} → Result A × S → Result (Unit {0}) × S
forget (_, s) = (ok tt, s)

-- `_ = f()`: the result and the error are dropped.
abbrev pub ignore {ℓ} : {S : Type 0} {A : Type ℓ} → Exec S A → Exec S (Unit {0})
ignore m s = forget (m s)

abbrev pub handle {ℓ} : {S : Type 0} {A : Type ℓ} → Result A × S → (Error → Exec S A) → Result A × S
handle (ok a, s) f = (ok a, s)
handle (err e, s) f = f e s

-- `if err := f(); err != nil { ... }`
abbrev pub recover {ℓ} : {S : Type 0} {A : Type ℓ} → Exec S A → (Error → Exec S A) → Exec S A
recover m f s = handle (m s) f

-- `if m.Err != nil { return m.Err }`
abbrev pub failing {ℓ} : {S : Type 0} {A : Type ℓ} → Option Error → Exec S A → Exec S A
failing none m = m
failing (some e) m = raise e
