-- ===== src/Worker/Pool/Outcome.antt =====
-- What a run of the goroutines has done to the database and to the object store.
use mathlib.Core.Path.{subst, subst₂}
use minio_3d.Base.{
  ℕ, zero, suc, ◌+◌, ◌≡◌, ◌≢◌, ◌⊎◌, refl, sym, ◌∙◌, String, Bool, List, [], ◌∷◌, Option, some, none,
  arith, eqb, length, get_elem?, Bool-cases, inl, inr,
}
use minio_3d.Errors.{Error}
use minio_3d.Sql.{Postgres, Conn}
use minio_3d.Storage.{Bytes, Storage, IsObjectStore}
use minio_3d.World.{World}
use minio_3d.Worker.Pool.{
  Machine, Stage, waiting, started, located, uploaded, finished, Pool, set, noted, settle, advance,
  turn, run, sweep, drain,
}
use minio_3d.Worker.Pool.Turns.{get_elem?-set_self, get_elem?-set_ne, stays, enters, works, view}
use minio_3d.Worker.Pool.Contents.{Placed, Keeps, Keeps-Placed, advance-Stepped}

-- Every goroutine has left what its stage says, and `firstErr` knows of every failure.
pub record IsPlaced {S : Type 0} (holds : String → S → Bool) (doc_id : String) (start : Conn)
    (p : Pool S) : Type 0 where
  pub placed :
      (i : ℕ) (s : Stage) → get_elem? p.jobs i ≡ some s → Placed holds doc_id (suc i) s p.world
  pub errors :
      p.first_err ≡ none → (i : ℕ) (e : Error) → get_elem? p.jobs i ≢ some (finished (some e))
  pub same_documents : p.world.conn.tables.documents ≡ start.tables.documents
  pub quiet_still : start.faults ≡ [] → p.world.conn.faults ≡ []

-- `noted` keeps an error and takes a new one.
noted-eq-none :
    (first : Option Error) (s : Stage)
    → noted first s ≡ none
    → (first ≡ none) × ((e : Error) → s ≢ finished (some e))
noted-eq-none none waiting h = (refl, λ e q. ground arith)
noted-eq-none none started h = (refl, λ e q. ground arith)
noted-eq-none none (located body size) h = (refl, λ e q. ground arith)
noted-eq-none none (uploaded size) h = (refl, λ e q. ground arith)
noted-eq-none none (finished r) h = (refl, λ e q. ground arith)
noted-eq-none (some x) s h = cc

module _ {S : Type 0} (holds : String → S → Bool) (doc_id : String) (start : Conn) where
  changed :
      (i : ℕ) (p : Pool S) (s s' : Stage)
      → get_elem? p.jobs i ≡ some s
      → (j : ℕ) (q : Stage) → get_elem? (set p.jobs i s') j ≡ some q
      → ((i ≡ j) × (q ≡ s')) ⊎ ((i ≢ j) × (get_elem? p.jobs j ≡ some q))
  changed i p s s' h j q e = elim (Bool-cases (eqb i j)) [
    | inl same ↦
        let k : i ≡ j = ground arith in
        inl (
          k,
          unique q s' (
              sym (subst (λ m. get_elem? (set p.jobs i s') m ≡ some q) (sym k) e)
              ∙ get_elem?-set_self p.jobs i s s' h),
        )
    | inr differ ↦
        let ne : i ≢ j = λ k. ground arith in inr (ne, sym (get_elem?-set_ne p.jobs i j s' ne) ∙ e)
  ]
    where
      unique : (a b : Stage) → some a ≡ some b → a ≡ b
      unique a b h = ground arith

  settle-IsPlaced :
      (i : ℕ) (p : Pool S) (s s' : Stage) (w' : World S)
      → get_elem? p.jobs i ≡ some s
      → (Placed holds doc_id (suc i) s p.world → Placed holds doc_id (suc i) s' w')
      → Keeps holds doc_id (suc i) p.world w'
      → IsPlaced holds doc_id start p
      → IsPlaced holds doc_id start (settle i p (s', w'))
  settle-IsPlaced i p s s' w' h here keeps v = record {
    placed = λ j q e. elim (changed i p s s' h j q e) [
      | inl (same, q_is) ↦
          subst₂ (λ m x. Placed holds doc_id (suc m) x w') same (sym q_is) (here (v.placed i s h))
      | inr (ne, old) ↦
          Keeps-Placed holds doc_id (suc i) (suc j) q p.world w' keeps (λ k. ne (ground arith))
            (v.placed j q old)
    ];
    errors = λ clean j e found.
        let (before, quiet_stage) = noted-eq-none p.first_err s' clean in
        elim (changed i p s s' h j (finished (some e)) found) [
          | inl (same, q_is) ↦ quiet_stage e (sym q_is)
          | inr (ne, old) ↦ v.errors before j e old
        ];
    same_documents = keeps.documents ∙ v.same_documents;
    quiet_still = λ h₀. keeps.quiet_still (v.quiet_still h₀);
  }

  entered-IsPlaced :
      (i : ℕ) (p : Pool S)
      → get_elem? p.jobs i ≡ some waiting
      → IsPlaced holds doc_id start p
      → IsPlaced holds doc_id start (record p { held = p.held + 1; jobs = set p.jobs i started })
  entered-IsPlaced i p h v = record {
    placed = λ j q e. elim (changed i p waiting started h j q e) [
      | inl (same, q_is) ↦ subst (λ x. Placed holds doc_id (suc j) x p.world) (sym q_is) tt
      | inr (ne, old) ↦ v.placed j q old
    ];
    errors = λ clean j e found. elim (changed i p waiting started h j (finished (some e)) found) [
      | inl (same, q_is) ↦ ground arith
      | inr (ne, old) ↦ v.errors clean j e old
    ];
    same_documents = v.same_documents;
    quiet_still = v.quiet_still;
  }

module _ {S : Type 0} (machine : Machine) (store : Storage S) (holds : String → S → Bool)
    (laws : IsObjectStore store holds) (pg : Postgres) (original : Bytes)
    (pages_dir doc_id : String) (start : Conn) where
  turn-IsPlaced :
      (i : ℕ) (p : Pool S)
      → IsPlaced holds doc_id start p
      → IsPlaced holds doc_id start (turn machine store pg original pages_dir doc_id i p)
  turn-IsPlaced i p v = elim (view machine store pg original pages_dir doc_id i p) [
    | stays same why ↦ rw same v
    | enters h free same ↦ rw same (entered-IsPlaced holds doc_id start i p h v)
    | works s h b same ↦ rw same (
        let (s', w') = advance machine store pg original pages_dir doc_id (suc i) s p.world in
        let step =
          advance-Stepped machine store holds laws pg original pages_dir doc_id (suc i) s p.world in
        settle-IsPlaced holds doc_id start i p s s' w' h step.placed step.keeps v)
  ]

  pub run-IsPlaced :
      (schedule : List ℕ) (p : Pool S)
      → IsPlaced holds doc_id start p
      → IsPlaced holds doc_id start (run machine store pg original pages_dir doc_id schedule p)
  unfolding run
  run-IsPlaced [] p v = v
  run-IsPlaced (i ∷ is) p v =
      run-IsPlaced is (turn machine store pg original pages_dir doc_id i p) (turn-IsPlaced i p v)

  sweep-IsPlaced :
      (n : ℕ) (p : Pool S)
      → IsPlaced holds doc_id start p
      → IsPlaced holds doc_id start (sweep machine store pg original pages_dir doc_id n p)
  unfolding sweep
  sweep-IsPlaced zero p v = v
  sweep-IsPlaced (suc i) p v =
      sweep-IsPlaced i (turn machine store pg original pages_dir doc_id i p) (turn-IsPlaced i p v)

  pub drain-IsPlaced :
      (k : ℕ) (p : Pool S)
      → IsPlaced holds doc_id start p
      → IsPlaced holds doc_id start (drain machine store pg original pages_dir doc_id k p)
  unfolding drain
  drain-IsPlaced zero p v = v
  drain-IsPlaced (suc k) p v =
      drain-IsPlaced k (sweep machine store pg original pages_dir doc_id (length p.jobs) p)
        (sweep-IsPlaced (length p.jobs) p v)
