-- ===== src/Sql/Core.antt =====
-- The database as the stores use it: the tables of db/migrations, one call of the driver, and a
-- transaction with `defer tx.Rollback()`. A call may fail at any time: `faults` says, for each
-- coming call, whether the driver answers (`none`) or fails with a text; a call that fails has
-- changed nothing. An empty list stands for a driver that goes on to answer.
use minio_3d.Base.{◌≡◌, ℕ, String, Option, none, some, List, [], ◌∷◌}
use minio_3d.Exec.{Exec, label, ◌>>=◌}
use minio_3d.Errors.{plain, wrap, Result, ok, err}
use minio_3d.Types.{User, FileMeta, Document, DocumentPage, WebhookSubscription, ApiKey}

pub record Tables : Type 0 where
  pub users : List User
  pub files : List FileMeta
  pub documents : List Document
  pub pages : List DocumentPage
  pub webhooks : List WebhookSubscription
  pub api_keys : List ApiKey

-- What the database chooses by itself: `gen_random_uuid()`, `NOW()`, and which of several rows a
-- `LIMIT 1` without `ORDER BY` returns (an index into the rows, taken round its end).
pub record Postgres : Type 0 where
  pub new_id : Tables → String
  pub now : Tables → ℕ
  pub choose : List FileMeta → ℕ

pub record Conn : Type 0 where
  pub tables : Tables
  pub faults : List (Option String)

abbrev pub Sql {ℓ} : Type ℓ → Type ℓ
Sql A = Exec Conn A

-- The tables that the files and users have no part in are the same.
abbrev pub SameOthers : Tables → Tables → Type 0
SameOthers t t' =
    (t'.documents ≡ t.documents)
    × (t'.pages ≡ t.pages)
    × (t'.webhooks ≡ t.webhooks)
    × (t'.api_keys ≡ t.api_keys)

-- A connection on which the driver answers.
abbrev pub quiet : Tables → Conn
quiet t = record { tables = t; faults = [] }

-- A statement: an error, or its rows and the tables after it.
abbrev pub Statement {ℓ} : Type ℓ → Type ℓ
Statement A = Tables → Result (A × Tables)

module _ {ℓ} {A : Type ℓ} where
  abbrev pub beside : Tables → Result A → Result (A × Tables)
  beside t (ok a) = ok (a, t)
  beside t (err e) = err e

  -- A statement that writes nothing.
  abbrev pub reading : (Tables → Result A) → Statement A
  reading f t = beside t (f t)

  abbrev pub answer : Result (A × Tables) → Tables → List (Option String) → Result A × Conn
  answer (ok (a, t')) t fs = (ok a, record { tables = t'; faults = fs })
  answer (err e) t fs = (err e, record { tables = t; faults = fs })

  abbrev pub issue : List (Option String) → Statement A → Tables → Result A × Conn
  issue [] q t = answer (q t) t []
  issue (none ∷ fs) q t = answer (q t) t fs
  issue (some m ∷ fs) q t = (err (plain m), record { tables = t; faults = fs })

  -- One call of the driver.
  unfoldable pub query : Statement A → Sql A
  query q c = issue c.faults q c.tables

-- `Begin` and `Commit` read and write no row.
abbrev pub touch : Statement (Unit {0})
touch t = ok (tt, t)

module _ {ℓ} {A : Type ℓ} where
  abbrev pub committed : String → Tables → A → Result (Unit {0}) × Conn → Result A × Conn
  committed m before a (ok _, c) = (ok a, c)
  committed m before a (err e, c) = (err (wrap m e), record { tables = before; faults = c.faults })

  -- The end of a transaction that began on `before`: the commit, or the deferred rollback.
  abbrev pub conclude : String → Tables → Result A × Conn → Result A × Conn
  conclude m before (err e, c) = (err e, record { tables = before; faults = c.faults })
  conclude m before (ok a, c) = committed m before a (query touch c)

  -- `m` labels the error of the commit.
  unfoldable pub transaction : String → Sql A → Sql A
  unfolding query ◌>>=◌
  transaction m body c =
      (label "begin tx" (query touch) >>= λ _ c'. conclude m c'.tables (body c')) c
