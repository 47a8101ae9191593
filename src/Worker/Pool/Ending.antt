-- ===== src/Worker/Pool/Ending.antt =====
-- `wg.Wait()` of worker/processor.go: the goroutines come to an end in whatever order they run.
use minio_3d.Base.{
  ℕ, suc, ◌+◌, ◌*◌, ◌≤◌, ◌<◌, ◌≡◌, ◌⊎◌, refl, ap, String, Bool, true, false, List, [], ◌∷◌, Option,
  some, none, arith, ltb, Bool-cases, get_elem?, inl, inr, if◌then◌else◌,
}
use minio_3d.Sql.{Postgres}
use minio_3d.Storage.{Bytes, Storage}
use minio_3d.World.{World}
use minio_3d.Worker.Pool.{
  Machine, Stage, waiting, started, located, uploaded, finished, Pool, turn, run, new_pool,
  page_extraction_concurrency,
}
use minio_3d.Worker.Pool.Bounds.{new_pool-IsWithin, run-IsWithin}
use minio_3d.Worker.Pool.Progress.{remaining, Idle, turn-cases, some_turn}
use minio_3d.Worker.Pool.Turns.{busy, stays, enters, works, view}
use minio_3d.Worker.Pool.Complete.{remaining-new_pool}

-- Whether a goroutine can go on: it is not done, and does not wait for a place that is not there.
abbrev pub can_step_at : Option Stage → ℕ → Bool
can_step_at none held = false
can_step_at (some waiting) held = ltb held page_extraction_concurrency
can_step_at (some started) held = true
can_step_at (some (located body size)) held = true
can_step_at (some (uploaded size)) held = true
can_step_at (some (finished r)) held = false

abbrev pub can_step : {S : Type 0} → ℕ → Pool S → Bool
can_step i p = can_step_at (get_elem? p.jobs i) p.held

Idle-step : {S : Type 0} (i : ℕ) (p : Pool S) → Idle i p → can_step i p ≡ false
Idle-step i p (inl h) = rw h refl
Idle-step i p (inr (inl (r, h))) = rw h refl
Idle-step i p (inr (inr (h, full))) = rw h (ground arith)

busy-can_step : (s : Stage) (held : ℕ) → busy s ≡ 1 → can_step_at (some s) held ≡ true
busy-can_step waiting held h = absurd (omega (arith, h))
busy-can_step started held h = refl
busy-can_step (located body size) held h = refl
busy-can_step (uploaded size) held h = refl
busy-can_step (finished r) held h = absurd (omega (arith, h))

module _ {S : Type 0} (machine : Machine) (store : Storage S) (pg : Postgres) (original : Bytes)
    (pages_dir doc_id : String) where
  -- How many turns of a schedule are steps of a goroutine that can go on.
  abbrev pub steps : List ℕ → Pool S → ℕ
  unfolding turn
  steps [] p = 0
  steps (i ∷ is) p =
      let rest = steps is (turn machine store pg original pages_dir doc_id i p) in
      if can_step i p then suc rest else rest

  steps-le :
      (schedule : List ℕ) (p : Pool S)
      → steps schedule p + remaining (run machine store pg original pages_dir doc_id schedule p)
        ≤ remaining p
  unfolding steps run
  steps-le [] p = omega arith
  steps-le (i ∷ is) p =
      let later = steps-le is (turn machine store pg original pages_dir doc_id i p) in
      elim (turn-cases machine store pg original pages_dir doc_id i p) [
        | inl (same, why) ↦
            let idle = Idle-step i p why in
            let kept = ap remaining same in rw idle (omega (arith, later, kept))
        | inr less ↦ elim (Bool-cases (can_step i p)) [
          | inl can ↦ rw can (omega (arith, later, less))
          | inr idle ↦ rw idle (omega (arith, later, less))
        ]
      ]

  -- A turn that gets on is one of a goroutine that can go on.
  less-can_step :
      (i : ℕ) (p : Pool S)
      → remaining (turn machine store pg original pages_dir doc_id i p) < remaining p
      → can_step i p ≡ true
  less-can_step i p less = elim (view machine store pg original pages_dir doc_id i p) [
    | stays same why ↦ let kept = ap remaining same in absurd (omega (arith, kept, less))
    | enters h free same ↦ rw h (ground arith)
    | works s h b same ↦ rw h (busy-can_step s p.held b)
  ]

  -- `wg.Wait()` returns: in whatever order the goroutines of the pages take turns, they take at most
  -- four steps for each page, and at any time all are done or there is one that can go on.
  pub run-ends :
      (schedule : List ℕ) (n : ℕ) (w : World S)
      → (steps schedule (new_pool w n) ≤ 4 * n)
        × ((remaining (run machine store pg original pages_dir doc_id schedule (new_pool w n)) ≡ 0)
            ⊎ ((i : ℕ) × (can_step i
                    (run machine store pg original pages_dir doc_id schedule (new_pool w n))
                  ≡ true)))
  run-ends schedule n w =
      let p = run machine store pg original pages_dir doc_id schedule (new_pool w n) in
      let within =
        run-IsWithin machine store pg original pages_dir doc_id schedule (new_pool w n)
          (new_pool-IsWithin w n) in
      (
        omega (arith, steps-le schedule (new_pool w n), remaining-new_pool n),
        elim (Bool-cases (ltb 0 (remaining p))) [
          | inl some_left ↦
              let (i, less) =
                some_turn machine store pg original pages_dir doc_id p within (ground arith) in
              inr (i, less-can_step i p less)
          | inr none_left ↦ inl (ground arith)
        ],
      )
