-- ===== src/Worker/Pool/Bounds.antt =====
-- How many goroutines are between taking their place in `sem` and leaving it.
use minio_3d.Base.{
  ℕ, zero, suc, ◌+◌, ◌≤◌, ◌<◌, ◌≡◌, refl, sym, String, List, [], ◌∷◌, some, arith, sum_by,
  get_elem?,
}
use minio_3d.Sql.{Postgres}
use minio_3d.Storage.{Bytes, Storage}
use minio_3d.World.{World}
use minio_3d.Worker.Pool.{
  Machine, Stage, waiting, started, located, uploaded, finished, Pool, left, settle, turn, run,
  new_pool, goroutines, page_extraction_concurrency,
}
use minio_3d.Worker.Pool.Turns.{
  weight, weight-le, busy, sum_by-set, le-sum_by, advance-weight, stays, enters, works, view,
}

-- The places taken are those of the goroutines at work, and there are at most five.
pub record IsWithin {S : Type 0} (p : Pool S) : Type 0 where
  pub counted : p.held ≡ sum_by busy p.jobs
  pub bounded : p.held ≤ page_extraction_concurrency

idle_goroutines : (n : ℕ) → sum_by busy (goroutines n) ≡ 0
idle_goroutines zero = refl
idle_goroutines (suc n) = omega (arith, idle_goroutines n)

pub new_pool-IsWithin : {S : Type 0} (w : World S) (n : ℕ) → IsWithin (new_pool w n)
new_pool-IsWithin w n = record { counted = sym (idle_goroutines n); bounded = omega arith }

left-le : (s : Stage) (held : ℕ) → left held s ≤ held
left-le waiting held = omega arith
left-le started held = omega arith
left-le (located body size) held = omega arith
left-le (uploaded size) held = omega arith
left-le (finished r) held = omega arith

-- A stage that is left for a later one.
left-busy :
    (s s' : Stage) (held : ℕ)
    → busy s ≡ 1
    → weight s' < weight s
    → 1 ≤ held
    → left held s' + busy s ≡ held + busy s'
left-busy s waiting held b w h = absurd (omega (arith, weight-le s))
left-busy s started held b w h = omega arith
left-busy s (located body size) held b w h = omega arith
left-busy s (uploaded size) held b w h = omega arith
left-busy s (finished r) held b w h = omega arith

module _ {S : Type 0} (machine : Machine) (store : Storage S) (pg : Postgres) (original : Bytes)
    (pages_dir doc_id : String) where
  settle-IsWithin :
      (i : ℕ) (p : Pool S) (s s' : Stage) (w : World S)
      → get_elem? p.jobs i ≡ some s
      → busy s ≡ 1
      → weight s' < weight s
      → IsWithin p
      → IsWithin (settle i p (s', w))
  settle-IsWithin i p s s' w h b lt v =
      let moved = sum_by-set busy p.jobs i s s' h in
      let some_held = le-sum_by busy p.jobs i s h in
      let gone = left-busy s s' p.held b lt (omega (arith, v.counted)) in
      record {
        counted = omega (arith, v.counted);
        bounded = omega (arith, left-le s' p.held, v.bounded);
      }

  pub turn-IsWithin :
      (i : ℕ) (p : Pool S)
      → IsWithin p
      → IsWithin (turn machine store pg original pages_dir doc_id i p)
  turn-IsWithin i p v = elim (view machine store pg original pages_dir doc_id i p) [
    | stays same why ↦ rw same v
    | enters h free same ↦ rw same (record {
      counted = omega (arith, sum_by-set busy p.jobs i waiting started h, v.counted);
      bounded = omega arith;
    })
    | works s h b same ↦ rw same (
        settle-IsWithin i p s _ _ h b
          (advance-weight machine store pg original pages_dir doc_id (suc i) s p.world b) v)
  ]

  -- Whatever the order in which the goroutines take their turns, at most five of them are at work at
  -- once, and `sem` holds exactly as many values as there are goroutines at work.
  pub run-IsWithin :
      (schedule : List ℕ) (p : Pool S)
      → IsWithin p
      → IsWithin (run machine store pg original pages_dir doc_id schedule p)
  unfolding run
  run-IsWithin [] p v = v
  run-IsWithin (i ∷ is) p v =
      run-IsWithin is (turn machine store pg original pages_dir doc_id i p) (turn-IsWithin i p v)
