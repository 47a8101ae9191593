-- ===== src/Sql/Reading.antt =====
-- Queries that read: what they answer on equal tables, and what they leave as it was.
use mathlib.Core.Path.{subst}
use minio_3d.Base.{true, String, Option, none, some, ◌≡◌, refl, ap, ◌∙◌, List, [], ◌∷◌, arith}
use minio_3d.Errors.{Error, Sentinel, sentinel, is, Result, ok, err}
use minio_3d.Exec.{label}
use minio_3d.Sql.Core.{Tables, Conn, Statement, quiet, beside, reading, answer, issue, query}
use minio_3d.Sql.Rows.{one_row, translate, or_not_found}
use minio_3d.Sql.Laws.{relabel-state, query-faults}

-- A query that reads has the same answer on tables in which it reads the same.
module _ {ℓ} {A : Type ℓ} where
  answered_alike :
      (m : String) (r : Result A) (t t' : Tables)
      → (translate m (answer (beside t r) t [])).0 ≡ (translate m (answer (beside t' r) t' [])).0
  answered_alike m (ok a) t t' = refl
  answered_alike m (err e) t t' = refl

  pub or_not_found-reading :
      (m : String) (f : Tables → Result A) (t t' : Tables)
      → f t ≡ f t'
      → (or_not_found m (query (reading f)) (quiet t)).0
        ≡ (or_not_found m (query (reading f)) (quiet t')).0
  unfolding query
  or_not_found-reading m f t t' same = rw same (answered_alike m (f t') t t')

  pub or_not_found-read :
      (m : String) (f : Tables → Result A) (t : Tables) (a : A)
      → f t ≡ ok a
      → (or_not_found m (query (reading f)) (quiet t)).0 ≡ ok a
  unfolding query
  or_not_found-read m f t a h = rw h refl

  answer-beside :
      (r : Result A) (t : Tables) (fs : List (Option String))
      → (answer (beside t r) t fs).1.tables ≡ t
  answer-beside (ok a) t fs = refl
  answer-beside (err e) t fs = refl

  issue-reading :
      (fs : List (Option String)) (f : Tables → Result A) (t : Tables)
      → (issue fs (reading f) t).1.tables ≡ t
  issue-reading [] f t = answer-beside (f t) t []
  issue-reading (none ∷ fs) f t = answer-beside (f t) t fs
  issue-reading (some m ∷ fs) f t = refl

  -- A query that reads changes no table, whether it succeeds or fails.
  pub label-query-reading :
      (m : String) (f : Tables → Result A) (c : Conn)
      → (label m (query (reading f)) c).1.tables ≡ c.tables
  unfolding query
  label-query-reading m f c =
      ap (λ (d : Conn). d.tables) (relabel-state m (query (reading f) c))
      ∙ issue-reading c.faults f c.tables

  translate-state : (m : String) (r : Result A × Conn) → (translate m r).1 ≡ r.1
  translate-state m (ok a, c) = refl
  translate-state m (err e, c) = refl

  pub or_not_found-query-reading :
      (m : String) (f : Tables → Result A) (c : Conn)
      → (or_not_found m (query (reading f)) c).1.tables ≡ c.tables
  unfolding query
  or_not_found-query-reading m f c =
      ap (λ (d : Conn). d.tables) (translate-state m (query (reading f) c))
      ∙ issue-reading c.faults f c.tables

  pub or_not_found-query-faults :
      (m : String) (q : Statement A) (c : Conn)
      → c.faults ≡ []
      → (or_not_found m (query q) c).1.faults ≡ []
  or_not_found-query-faults m q c h =
      ap (λ (d : Conn). d.faults) (translate-state m (query q c)) ∙ query-faults q c h

  abbrev pub found : List A → Result A
  found [] = err (sentinel Sentinel.not_found)
  found (a ∷ _) = ok a

  translated_rows :
      (m : String) (rows : List A) (t : Tables)
      → (translate m (answer (beside t (one_row rows)) t [])).0 ≡ found rows
  translated_rows m [] t = refl
  translated_rows m (a ∷ rows) t = refl

  -- While the driver answers: the first row, or `ErrNotFound`.
  pub or_not_found-rows :
      (m : String) (f : Tables → List A) (t : Tables)
      → (or_not_found m (query (reading (λ u. one_row (f u)))) (quiet t)).0 ≡ found (f t)
  unfolding query
  or_not_found-rows m f t = translated_rows m (f t) t

  refused :
      (m : String) (rows : List A) (fs : List (Option String)) (t : Tables) (e : Error) (c' : Conn)
      → translate m (answer (beside t (one_row rows)) t fs) ≡ (err e, c')
      → rows ≡ []
  refused m [] fs t e c' h = refl
  refused m (d ∷ ds) fs t e c' h = cc

  missing :
      (m : String) (f : Tables → List A) (fs : List (Option String)) (t : Tables) (e : Error)
      (c' : Conn)
      → translate m (issue fs (reading (λ u. one_row (f u))) t) ≡ (err e, c')
      → is e Sentinel.not_found ≡ true
      → f t ≡ []
  missing m f [] t e c' h found = refused m (f t) [] t e c' h
  missing m f (none ∷ fs) t e c' h found = refused m (f t) fs t e c' h
  missing m f (some x ∷ fs) t e c' h found = ground arith

  -- Only an answer without rows is `ErrNotFound`.
  pub or_not_found-missing :
      (m : String) (f : Tables → List A) (c : Conn) (e : Error) (c' : Conn)
      → or_not_found m (query (reading (λ t. one_row (f t)))) c ≡ (err e, c')
      → is e Sentinel.not_found ≡ true
      → f c.tables ≡ []
  unfolding query
  or_not_found-missing m f c e c' h found = missing m f c.faults c.tables e c' h found

  only_missing :
      (m : String) (rows : List A) (t : Tables) (e : Error) (c' : Conn)
      → translate m (answer (beside t (one_row rows)) t []) ≡ (err e, c')
      → is e Sentinel.not_found ≡ true
  only_missing m [] t e c' h = ground arith
  only_missing m (d ∷ ds) t e c' h = cc

  -- While the driver answers, there is no other error.
  pub or_not_found-quiet :
      (m : String) (f : Tables → List A) (c : Conn) (e : Error) (c' : Conn)
      → c.faults ≡ []
      → or_not_found m (query (reading (λ t. one_row (f t)))) c ≡ (err e, c')
      → is e Sentinel.not_found ≡ true
  unfolding query
  or_not_found-quiet m f c e c' q h = only_missing m (f c.tables) c.tables e c' (
      subst (λ fs. translate m (issue fs (reading (λ t. one_row (f t))) c.tables) ≡ (err e, c')) q
        h)
