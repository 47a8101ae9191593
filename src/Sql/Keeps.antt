-- ===== src/Sql/Keeps.antt =====
-- Predicates of the tables that a method keeps, whatever the driver answers.
use minio_3d.Base.{
  Bool, true, false, String, Option, none, some, ◌≡◌, refl, sym, List, [], ◌∷◌, arith,
}
use minio_3d.Errors.{Error, Result, ok, err}
use minio_3d.Exec.{relabel, label, continue, guard, pure, forget, ignore, ◌>>=◌}
use minio_3d.Sql.Core.{
  Tables, Conn, Sql, Statement, answer, issue, beside, reading, query, transaction,
}
use minio_3d.Sql.Laws.{transaction-eq-ok, transaction-eq-err}
use minio_3d.Sql.Rows.{translate, or_not_found}
use mathlib.Core.Path.{subst}

module _ (P : Tables → Type 0) where
  -- Success or failure, the predicate holds after the method if it held before it.
  pub record IsKept {ℓ} {A : Type ℓ} (m : Sql A) : Type ℓ where
    pub holds : (c : Conn) → P c.tables → P (m c).1.tables

  -- The predicate holds of the tables that a successful statement answers.
  abbrev pub IsKeptBy {ℓ} : {A : Type ℓ} → Statement A → Type ℓ
  IsKeptBy {A = A} q = (t : Tables) (a : A) (t' : Tables) → q t ≡ ok (a, t') → P t → P t'

  module _ {ℓ} {A : Type ℓ} where
    answer-keeps :
        (r : Result (A × Tables)) (t : Tables) (fs : List (Option String))
        → ((a : A) (t' : Tables) → r ≡ ok (a, t') → P t')
        → P t
        → P (answer r t fs).1.tables
    answer-keeps (ok (a, t')) t fs after h = after a t' refl
    answer-keeps (err e) t fs after h = h

    issue-keeps :
        (fs : List (Option String)) (q : Statement A) (t : Tables)
        → IsKeptBy q
        → P t
        → P (issue fs q t).1.tables
    issue-keeps [] q t kept h = answer-keeps (q t) t [] (λ a t' r. kept t a t' r h) h
    issue-keeps (none ∷ fs) q t kept h = answer-keeps (q t) t fs (λ a t' r. kept t a t' r h) h
    issue-keeps (some m ∷ fs) q t kept h = h

    pub query-IsKept : (q : Statement A) → IsKeptBy q → IsKept (query q)
    unfolding query
    query-IsKept q kept = record { holds = λ c h. issue-keeps c.faults q c.tables kept h }

    relabel-keeps : (m : String) (r : Result A × Conn) → P r.1.tables → P (relabel m r).1.tables
    relabel-keeps m (ok a, c) h = h
    relabel-keeps m (err e, c) h = h

    pub label-IsKept : (m : String) (q : Sql A) → IsKept q → IsKept (label m q)
    label-IsKept m q kept = record { holds = λ c h. relabel-keeps m (q c) (kept.holds c h) }

    forget-keeps : (r : Result A × Conn) → P r.1.tables → P (forget r).1.tables
    forget-keeps (r, c) h = h

    pub ignore-IsKept : (q : Sql A) → IsKept q → IsKept (ignore q)
    ignore-IsKept q kept = record { holds = λ c h. forget-keeps (q c) (kept.holds c h) }

    translate-keeps : (m : String) (r : Result A × Conn) → P r.1.tables → P (translate m r).1.tables
    translate-keeps m (ok a, c) h = h
    translate-keeps m (err e, c) h = h

    pub or_not_found-IsKept : (m : String) (q : Sql A) → IsKept q → IsKept (or_not_found m q)
    or_not_found-IsKept m q kept = record {
      holds = λ c h. translate-keeps m (q c) (kept.holds c h);
    }

  module _ {ℓ κ} {A : Type ℓ} {B : Type κ} where
    continue-keeps :
        (r : Result A × Conn) (f : A → Sql B)
        → ((a : A) → IsKept (f a))
        → P r.1.tables
        → P (continue r f).1.tables
    continue-keeps (ok a, c) f kept h = (kept a).holds c h
    continue-keeps (err e, c) f kept h = h

    pub >>=-IsKept :
        (m : Sql A) (f : A → Sql B) → IsKept m → ((a : A) → IsKept (f a)) → IsKept (m >>= f)
    unfolding ◌>>=◌
    >>=-IsKept m f kept then_kept = record {
      holds = λ c h. continue-keeps (m c) f then_kept (kept.holds c h);
    }

  module _ {ℓ} {A : Type ℓ} where
    beside-keeps :
        (r : Result A) (t : Tables) (a : A) (t' : Tables) → beside t r ≡ ok (a, t') → P t → P t'
    beside-keeps (ok x) t a t' e h = subst P (ground arith) h
    beside-keeps (err x) t a t' e h = cc

    pub reading-IsKept : (f : Tables → Result A) → IsKept (query (reading f))
    reading-IsKept f = query-IsKept (reading f) (λ t a t' e h. beside-keeps (f t) t a t' e h)

  pub pure-IsKept {ℓ} : {A : Type ℓ} (a : A) → IsKept (λ c. pure a c)
  pure-IsKept a = record { holds = λ c h. h }

  pub guard-IsKept : (b : Bool) (e : Error) → IsKept (guard b e)
  guard-IsKept true e = record { holds = λ c h. h }
  guard-IsKept false e = record { holds = λ c h. h }

  -- A transaction keeps what its body keeps.
  module _ {ℓ} {A : Type ℓ} (m : String) (body : Sql A) (kept : IsKept body) where
    ended-keeps :
        (c : Conn) (r : Result A × Conn) → transaction m body c ≡ r → P c.tables → P r.1.tables
    ended-keeps c (ok a, c') e h =
        let (c₁, c₂, found, ran, same) = transaction-eq-ok m body c a c' e in
        subst P (sym same) (
          subst (λ (p : Result A × Conn). P p.1.tables) ran (kept.holds c₁ (subst P (sym found) h)))
    ended-keeps c (err x, c') e h = subst P (sym (transaction-eq-err m body c x c' e)) h

    pub transaction-IsKept : IsKept (transaction m body)
    transaction-IsKept = record { holds = λ c h. ended-keeps c (transaction m body c) refl h }
