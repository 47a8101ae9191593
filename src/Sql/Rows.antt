-- ===== src/Sql/Rows.antt =====
-- How the stores read the rows of an answer, and the errors of the database itself.
use minio_3d.Base.{
  String, Option, none, some, List, [], ◌∷◌, ℕ, ◌%◌, length, get_elem?, if◌then◌else◌,
}
use minio_3d.Errors.{Error, Sentinel, sentinel, plain, wrap, Result, ok, err, is}
use minio_3d.Sql.Core.{Conn, Sql}

-- A row that breaks a key, or a reference to a row that is not there.
abbrev pub violation : Error
violation = plain "pq: constraint violation"

-- An INT or BIGINT column that cannot hold the value.
abbrev pub out_of_range : Error
out_of_range = plain "pq: integer out of range"

abbrev pub missing_or : String → Error → Error
missing_or m e = if is e Sentinel.no_rows then sentinel Sentinel.not_found else wrap m e

module _ {ℓ} {A : Type ℓ} where
  -- `QueryRowx(...).StructScan(&x)`: the first row, or `sql.ErrNoRows`.
  abbrev pub one_row : List A → Result A
  one_row [] = err (sentinel Sentinel.no_rows)
  one_row (x ∷ _) = ok x

  abbrev pub chosen : Option A → Result A
  chosen none = err (sentinel Sentinel.no_rows)
  chosen (some x) = ok x

  -- `LIMIT 1` without `ORDER BY`: the row that the database chooses.
  unfoldable pub limit_one : (List A → ℕ) → List A → Option A
  limit_one choose rows = get_elem? rows (choose rows % length rows)

  abbrev pub translate : String → Result A × Conn → Result A × Conn
  translate m (ok a, c) = (ok a, c)
  translate m (err e, c) = (err (missing_or m e), c)

  -- `if errors.Is(err, sql.ErrNoRows) { return nil, ErrNotFound }`, any other error is wrapped.
  abbrev pub or_not_found : String → Sql A → Sql A
  or_not_found m q c = translate m (q c)
