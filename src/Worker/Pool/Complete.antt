-- ===== src/Worker/Pool/Complete.antt =====
-- A run of the goroutines from its beginning to its end.
use mathlib.Core.Path.{subst}
use minio_3d.Base.{
  ℕ, zero, suc, ◌*◌, ◌≤◌, ◌<◌, ◌≡◌, ◌≢◌, refl, ◌∙◌, String, Bool, true, List, [], ◌∷◌, Option, some,
  none, arith, length, sum_by, get_elem?,
}
use minio_3d.Errors.{Error}
use minio_3d.Sql.{Postgres}
use minio_3d.Storage.{Bytes, Storage, IsObjectStore}
use minio_3d.World.{World}
use minio_3d.Worker.Pool.{
  Machine, Stage, waiting, started, located, uploaded, finished, Pool, page_path, turn, run, sweep,
  drain, new_pool, goroutines,
}
use minio_3d.Worker.Pool.Turns.{weight, le-sum_by, length-set, stays, enters, works, view}
use minio_3d.Worker.Pool.Bounds.{new_pool-IsWithin, run-IsWithin}
use minio_3d.Worker.Pool.Progress.{remaining, turn-le, drain-remaining}
use minio_3d.Worker.Pool.Contents.{HasPage}
use minio_3d.Worker.Pool.Outcome.{IsPlaced, run-IsPlaced, drain-IsPlaced}

-- All goroutines of a document after a schedule and `wg.Wait()`.
unfoldable pub extract_all :
    {S : Type 0}
    → Machine
    → Storage S
    → Postgres
    → Bytes
    → String
    → String
    → List ℕ
    → ℕ
    → World S
    → Pool S
unfolding run drain
extract_all machine store pg original pages_dir doc_id schedule n w =
    drain machine store pg original pages_dir doc_id (4 * n)
      (run machine store pg original pages_dir doc_id schedule (new_pool w n))

waits : (e : Error) → finished (some e) ≢ waiting
waits e h = ground arith

get_waiting : (n i : ℕ) (s : Stage) → get_elem? (goroutines n) i ≡ some s → s ≡ waiting
get_waiting zero i s h = cc
get_waiting (suc n) zero s h = ground arith
get_waiting (suc n) (suc i) s h = get_waiting n i s h

pub remaining-new_pool : (n : ℕ) → sum_by weight (goroutines n) ≡ 4 * n
remaining-new_pool zero = refl
remaining-new_pool (suc n) = omega (arith, remaining-new_pool n)

length-goroutines : (n : ℕ) → length (goroutines n) ≡ n
length-goroutines zero = refl
length-goroutines (suc n) = omega (arith, length-goroutines n)

present {ℓ} :
    {A : Type ℓ} (xs : List A) (i : ℕ) → i < length xs → (x : A) × (get_elem? xs i ≡ some x)
present [] i h = absurd (omega arith)
present (x ∷ xs) zero h = (x, refl)
present (x ∷ xs) (suc i) h = present xs i (omega arith)

done_of_weight : (s : Stage) → weight s ≡ 0 → (r : Option Error) × (s ≡ finished r)
done_of_weight waiting h = absurd (omega arith)
done_of_weight started h = absurd (omega arith)
done_of_weight (located body size) h = absurd (omega arith)
done_of_weight (uploaded size) h = absurd (omega arith)
done_of_weight (finished r) h = (r, refl)

module _ {S : Type 0} (machine : Machine) (store : Storage S) (holds : String → S → Bool)
    (laws : IsObjectStore store holds) (pg : Postgres) (original : Bytes)
    (pages_dir doc_id : String) where
  new_pool-IsPlaced : (w : World S) (n : ℕ) → IsPlaced holds doc_id w.conn (new_pool w n)
  new_pool-IsPlaced w n = record {
    placed = λ i s e. rw (get_waiting n i s e) tt;
    errors = λ clean i e found. waits e (get_waiting n i (finished (some e)) found);
    same_documents = refl;
    quiet_still = λ h. h;
  }

  length-turn :
      (i : ℕ) (p : Pool S)
      → length (turn machine store pg original pages_dir doc_id i p).jobs ≡ length p.jobs
  length-turn i p = elim (view machine store pg original pages_dir doc_id i p) [
    | stays same why ↦ rw same refl
    | enters h free same ↦ rw same (length-set p.jobs i _)
    | works s h b same ↦ rw same (length-set p.jobs i _)
  ]

  run-le :
      (schedule : List ℕ) (p : Pool S)
      → (remaining (run machine store pg original pages_dir doc_id schedule p) ≤ remaining p)
        × (length (run machine store pg original pages_dir doc_id schedule p).jobs ≡ length p.jobs)
  unfolding run
  run-le [] p = (omega arith, refl)
  run-le (i ∷ is) p =
      let q = turn machine store pg original pages_dir doc_id i p in
      let (less, long) = run-le is q in
      (
        omega (arith, turn-le machine store pg original pages_dir doc_id i p),
        long ∙ length-turn i p,
      )

  length-sweep :
      (n : ℕ) (p : Pool S)
      → length (sweep machine store pg original pages_dir doc_id n p).jobs ≡ length p.jobs
  unfolding sweep
  length-sweep zero p = refl
  length-sweep (suc i) p =
      length-sweep i (turn machine store pg original pages_dir doc_id i p) ∙ length-turn i p

  length-drain :
      (k : ℕ) (p : Pool S)
      → length (drain machine store pg original pages_dir doc_id k p).jobs ≡ length p.jobs
  unfolding drain
  length-drain zero p = refl
  length-drain (suc k) p =
      length-drain k (sweep machine store pg original pages_dir doc_id (length p.jobs) p)
      ∙ length-sweep (length p.jobs) p

  abbrev all : List ℕ → ℕ → World S → Pool S
  all schedule n w = extract_all machine store pg original pages_dir doc_id schedule n w

  -- After the turns of `drain`, every goroutine is done, whatever the schedule was.
  pub extract_all-remaining :
      (schedule : List ℕ) (n : ℕ) (w : World S) → remaining (all schedule n w) ≡ 0
  unfolding extract_all
  extract_all-remaining schedule n w =
      drain-remaining machine store pg original pages_dir doc_id (4 * n) _
        (run-IsWithin machine store pg original pages_dir doc_id schedule (new_pool w n)
          (new_pool-IsWithin w n))
        (omega (arith, (run-le schedule (new_pool w n)).0, remaining-new_pool n))

  pub extract_all-IsPlaced :
      (schedule : List ℕ) (n : ℕ) (w : World S) → IsPlaced holds doc_id w.conn (all schedule n w)
  unfolding extract_all
  extract_all-IsPlaced schedule n w =
      drain-IsPlaced machine store holds laws pg original pages_dir doc_id w.conn (4 * n) _ (
        run-IsPlaced machine store holds laws pg original pages_dir doc_id w.conn schedule
          (new_pool w n) (new_pool-IsPlaced w n))

  length-extract_all :
      (schedule : List ℕ) (n : ℕ) (w : World S) → length (all schedule n w).jobs ≡ n
  unfolding extract_all
  length-extract_all schedule n w =
      length-drain (4 * n) _ ∙ (run-le schedule (new_pool w n)).1 ∙ length-goroutines n

  -- Over a store that keeps its laws, and in whatever order the goroutines take their turns, if
  -- none of them reports an error, then each page of the document has a row that `GetPage` finds
  -- and an object in the store, and no document row has changed.
  pub extract_all_lem :
      (schedule : List ℕ) (n : ℕ) (w : World S)
      → (all schedule n w).first_err ≡ none
      → ((i : ℕ)
          → i < n
          → HasPage doc_id (suc i) (all schedule n w).world.conn.tables
            × (holds (page_path doc_id (suc i)) (all schedule n w).world.objects ≡ true))
        × ((all schedule n w).world.conn.tables.documents ≡ w.conn.tables.documents)
  extract_all_lem schedule n w clean =
      let v = extract_all-IsPlaced schedule n w in
      (
        λ i h.
            (let (s, at) =
                present (all schedule n w).jobs i
                  (omega (arith, length-extract_all schedule n w)) in
              let (r, is_done) = done_of_weight s (
                omega (
                  arith,
                  le-sum_by weight (all schedule n w).jobs i s at,
                  extract_all-remaining schedule n w,
                )) in
              result i r clean
                (subst (λ x. get_elem? (all schedule n w).jobs i ≡ some x) is_done at)),
        v.same_documents,
      )
    where
      result :
          (i : ℕ) (r : Option Error)
          → (all schedule n w).first_err ≡ none
          → get_elem? (all schedule n w).jobs i ≡ some (finished r)
          → HasPage doc_id (suc i) (all schedule n w).world.conn.tables
            × (holds (page_path doc_id (suc i)) (all schedule n w).world.objects ≡ true)
      result i none quiet_run at = (extract_all-IsPlaced schedule n w).placed i (finished none) at
      result i (some e) quiet_run at =
          absurd ((extract_all-IsPlaced schedule n w).errors quiet_run i e at)
