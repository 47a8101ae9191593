-- ===== src/Worker/Watchdog.antt =====
-- worker/watchdog.go: the watchdog, which fails the documents that stay in processing too long.
use mathlib.Core.List.{Mem}
use mathlib.Core.Path.{subst}
use minio_3d.Base.{
  ℕ, ◌-◌, false, ◌≡◌, refl, sym, Option, none, some, List, [], ◌∷◌, any, eqb, if◌then◌else◌,
}
use minio_3d.Errors.{Result}
use minio_3d.Types.{Document}
use minio_3d.Exec.{pure, ignore, ◌>>=◌, ◌>>◌}
use minio_3d.Sql.{Tables, Conn, quiet, Sql, Postgres}
use minio_3d.Documents.Rows.{is_processing, is_stuck, fail_stuck_documents}
use minio_3d.Documents.Timeouts.{fail_stuck_documents_lem}

-- Times and durations are in the unit of the rows' times.
pub record Watchdog : Type 0 where
  pub timeout : ℕ
  pub interval : ℕ

module _ (pg : Postgres) (w : Watchdog) where
  -- `sweep` at a time: an error of the statement is logged and dropped. A time before the origin of
  -- the clock is its origin: no document was created before either.
  unfoldable pub sweep : ℕ → Sql (Unit {0})
  unfolding fail_stuck_documents
  sweep now = ignore (fail_stuck_documents pg (now - w.timeout))

  -- The loop of `Start`, given the times at which the ticker ticks until the context is cancelled.
  unfoldable pub ticking : List ℕ → Sql (Unit {0})
  unfolding ◌>>=◌ sweep
  ticking [] = pure tt
  ticking (now ∷ ticks) = sweep now >> ticking ticks

  -- `Start`: `time.NewTicker` panics on an interval of 0.
  unfoldable pub start : List ℕ → Conn → Option (Result (Unit {0}) × Conn)
  unfolding ticking
  start ticks c = if eqb w.interval 0 then none else some (ticking ticks c)

  abbrev pub Kept : Conn → Conn → Type 0
  Kept c c' =
      (d : Document)
      → is_processing d.status ≡ false
      → Mem d c.tables.documents
      → Mem d c'.tables.documents

  swept_quiet :
      (now : ℕ) (t : Tables)
      → any (is_stuck (now - w.timeout)) (sweep now (quiet t)).1.tables.documents ≡ false
  unfolding sweep
  swept_quiet now t = (fail_stuck_documents_lem pg (now - w.timeout) (quiet t) _ _ refl).1

  -- When the driver answers, then after a sweep no document that was created more than the timeout
  -- ago is in processing.
  pub sweep_lem :
      (now : ℕ) (c : Conn)
      → c.faults ≡ []
      → any (is_stuck (now - w.timeout)) (sweep now c).1.tables.documents ≡ false
  unfolding sweep
  sweep_lem now c calm =
      subst
        (λ fs.
          any (is_stuck (now - w.timeout))
            (sweep now (record { tables = c.tables; faults = fs })).1.tables.documents
          ≡ false)
        (sym calm) (swept_quiet now c.tables)
