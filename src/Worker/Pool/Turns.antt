-- ===== src/Worker/Pool/Turns.antt =====
-- What a turn does to the list of goroutines.
use minio_3d.Base.{
  ℕ, zero, suc, ◌+◌, String, ◌≤◌, ◌<◌, ◌≡◌, ◌≢◌, ◌⊎◌, inl, inr, refl, ◌∙◌, Bool-cases, ltb, Option,
  none, some, List, [], ◌∷◌, arith, length, sum_by, get_elem?,
}
use minio_3d.Errors.{Error, Result, ok, err}
use minio_3d.Sql.{Postgres}
use minio_3d.Storage.{Bytes, Storage}
use minio_3d.World.{World, stored, on_conn}
use minio_3d.Documents.Pages.{save_page}
use minio_3d.Types.{DocumentPage}
use minio_3d.Worker.Pool.{
  Machine, Stage, waiting, started, located, uploaded, finished, Pool, set, extracted, named,
  opened, sized, sent, recorded, advance, settle, turn_at, turn, page_extraction_concurrency,
  page_path,
}

module _ {ℓ} {A : Type ℓ} where
  pub length-set : (xs : List A) (i : ℕ) (v : A) → length (set xs i v) ≡ length xs
  length-set [] i v = refl
  length-set (x ∷ xs) zero v = refl
  length-set (x ∷ xs) (suc i) v = omega (arith, length-set xs i v)

  pub get_elem?-set_self :
      (xs : List A) (i : ℕ) (x v : A) → get_elem? xs i ≡ some x → get_elem? (set xs i v) i ≡ some v
  get_elem?-set_self [] i x v h = cc
  get_elem?-set_self (y ∷ xs) zero x v h = refl
  get_elem?-set_self (y ∷ xs) (suc i) x v h = get_elem?-set_self xs i x v h

  pub get_elem?-set_ne :
      (xs : List A) (i j : ℕ) (v : A) → i ≢ j → get_elem? (set xs i v) j ≡ get_elem? xs j
  get_elem?-set_ne [] i j v ne = refl
  get_elem?-set_ne (x ∷ xs) zero zero v ne = absurd (ne refl)
  get_elem?-set_ne (x ∷ xs) zero (suc j) v ne = refl
  get_elem?-set_ne (x ∷ xs) (suc i) zero v ne = refl
  get_elem?-set_ne (x ∷ xs) (suc i) (suc j) v ne = get_elem?-set_ne xs i j v (λ e. ne (omega arith))

  pub sum_by-set :
      (f : A → ℕ) (xs : List A) (i : ℕ) (x v : A)
      → get_elem? xs i ≡ some x
      → sum_by f (set xs i v) + f x ≡ sum_by f xs + f v
  sum_by-set f [] i x v h = cc
  sum_by-set f (y ∷ xs) zero x v h = ground arith
  sum_by-set f (y ∷ xs) (suc i) x v h = omega (arith, sum_by-set f xs i x v h)

  pub le-sum_by :
      (f : A → ℕ) (xs : List A) (i : ℕ) (x : A) → get_elem? xs i ≡ some x → f x ≤ sum_by f xs
  le-sum_by f [] i x h = cc
  le-sum_by f (y ∷ xs) zero x h = ground arith
  le-sum_by f (y ∷ xs) (suc i) x h = omega (arith, le-sum_by f xs i x h)

-- How much is left to do at a stage, and whether it holds a place.
abbrev pub weight : Stage → ℕ
weight waiting = 4
weight started = 3
weight (located body size) = 2
weight (uploaded size) = 1
weight (finished r) = 0

pub weight-le : (s : Stage) → weight s ≤ 4
weight-le waiting = omega arith
weight-le started = omega arith
weight-le (located body size) = omega arith
weight-le (uploaded size) = omega arith
weight-le (finished r) = omega arith

abbrev pub busy : Stage → ℕ
busy waiting = 0
busy started = 1
busy (located body size) = 1
busy (uploaded size) = 1
busy (finished r) = 0

module _ (machine : Machine) (pages_dir : String) where
  sized-weight : (r : Result ℕ) (body : Bytes) → weight (sized machine pages_dir r body) < 3
  sized-weight (ok size) body = omega arith
  sized-weight (err e) body = omega arith

  opened-weight : (name : String) (r : Result Bytes) → weight (opened machine pages_dir name r) < 3
  opened-weight name (ok body) = sized-weight (machine.stat_file name) body
  opened-weight name (err e) = omega arith

  named-weight : (r : Result String) → weight (named machine pages_dir r) < 3
  named-weight (ok name) = opened-weight name (machine.open_file name)
  named-weight (err e) = omega arith

  extracted-weight : (n : ℕ) (r : Result (Unit {0})) → weight (extracted machine pages_dir n r) < 3
  extracted-weight n (ok _) = named-weight _
  extracted-weight n (err e) = omega arith

module _ {W : Type 0} where
  sent-weight : (n size : ℕ) (r : Result String × W) → weight (sent n size r).0 < 2
  sent-weight n size (ok _, w) = omega arith
  sent-weight n size (err e, w) = omega arith

  recorded-weight : (n : ℕ) (r : Result DocumentPage × W) → weight (recorded n r).0 < 1
  recorded-weight n (ok _, w) = omega arith
  recorded-weight n (err e, w) = omega arith

module _ {S : Type 0} (machine : Machine) (store : Storage S) (pg : Postgres) (original : Bytes)
    (pages_dir doc_id : String) where
  -- A step gets on, and no step goes back to waiting.
  pub advance-weight :
      (n : ℕ) (s : Stage) (w : World S)
      → busy s ≡ 1
      → weight (advance machine store pg original pages_dir doc_id n s w).0 < weight s
  unfolding advance
  advance-weight n waiting w h = ground arith
  advance-weight n started w h =
      extracted-weight machine pages_dir n (machine.extract_pages_file original pages_dir n)
  advance-weight n (located body size) w h =
      sent-weight n size ((stored store).upload (page_path doc_id n) body size "application/pdf" w)
  advance-weight n (uploaded size) w h =
      recorded-weight n (on_conn (save_page pg doc_id n (page_path doc_id n) size) w)
  advance-weight n (finished r) w h = ground arith

  -- The three kinds of turn: nothing to do, a place taken, a step done.
  pub data View (i : ℕ) (p : Pool S) : Type 0 where
    stays :
        turn machine store pg original pages_dir doc_id i p ≡ p
        → (get_elem? p.jobs i ≡ none)
          ⊎ (((r : Option Error) × (get_elem? p.jobs i ≡ some (finished r)))
              ⊎ ((get_elem? p.jobs i ≡ some waiting) × (page_extraction_concurrency ≤ p.held)))
        → View i p
    enters :
        get_elem? p.jobs i ≡ some waiting
        → p.held < page_extraction_concurrency
        → turn machine store pg original pages_dir doc_id i p
          ≡ record p { held = p.held + 1; jobs = set p.jobs i started }
        → View i p
    works :
        (s : Stage)
        → get_elem? p.jobs i ≡ some s
        → busy s ≡ 1
        → turn machine store pg original pages_dir doc_id i p
          ≡ settle i p (advance machine store pg original pages_dir doc_id (suc i) s p.world)
        → View i p

  turn-at :
      (i : ℕ) (p : Pool S) (o : Option Stage)
      → get_elem? p.jobs i ≡ o
      → turn machine store pg original pages_dir doc_id i p
        ≡ turn_at machine store pg original pages_dir doc_id i o p
  unfolding turn
  turn-at i p o h = rw h

  turn_at-View : (i : ℕ) (p : Pool S) (o : Option Stage) → get_elem? p.jobs i ≡ o → View i p
  turn_at-View i p none h = stays (turn-at i p none h) (inl h)
  turn_at-View i p (some waiting) h = elim (Bool-cases (ltb p.held page_extraction_concurrency)) [
    | inl free ↦ enters h (ground arith) (turn-at i p (some waiting) h ∙ rw free refl)
    | inr full ↦ stays (turn-at i p (some waiting) h ∙ rw full refl) (inr (inr (h, ground arith)))
  ]
  turn_at-View i p (some started) h = works started h refl (turn-at i p (some started) h)
  turn_at-View i p (some (located body size)) h =
      works (located body size) h refl (turn-at i p (some (located body size)) h)
  turn_at-View i p (some (uploaded size)) h =
      works (uploaded size) h refl (turn-at i p (some (uploaded size)) h)
  turn_at-View i p (some (finished r)) h =
      stays (turn-at i p (some (finished r)) h) (inr (inl (r, h)))

  pub view : (i : ℕ) (p : Pool S) → View i p
  view i p = turn_at-View i p (get_elem? p.jobs i) refl
