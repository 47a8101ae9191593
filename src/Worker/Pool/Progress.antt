-- ===== src/Worker/Pool/Progress.antt =====
-- How the goroutines come to an end.
use mathlib.Core.Path.{subst}
use minio_3d.Base.{
  ℕ, zero, suc, ◌≤◌, ◌<◌, ◌≡◌, ◌⊎◌, refl, sym, String, List, [], ◌∷◌, Option, some, none, arith,
  length, ltb, Bool-cases, sum_by, get_elem?, inl, inr,
}
use minio_3d.Errors.{Error}
use minio_3d.Sql.{Postgres}
use minio_3d.Storage.{Bytes, Storage}
use minio_3d.Worker.Pool.{
  Machine, Stage, waiting, started, finished, Pool, advance, turn, sweep, drain,
  page_extraction_concurrency,
}
use minio_3d.Worker.Pool.Turns.{
  weight, busy, sum_by-set, advance-weight, stays, enters, works, view,
}
use minio_3d.Worker.Pool.Bounds.{IsWithin, turn-IsWithin}

-- What is left to do.
abbrev pub remaining : {S : Type 0} → Pool S → ℕ
remaining p = sum_by weight p.jobs

sum_by-eq-zero {ℓ} :
    {A : Type ℓ} (f : A → ℕ) (xs : List A)
    → ((i : ℕ) (x : A) → get_elem? xs i ≡ some x → f x ≡ 0)
    → sum_by f xs ≡ 0
sum_by-eq-zero f [] h = refl
sum_by-eq-zero f (x ∷ xs) h =
    omega (arith, h 0 x refl, sum_by-eq-zero f xs (λ i y e. h (suc i) y e))

-- A goroutine that a turn finds with nothing to do.
abbrev pub Idle : {S : Type 0} → ℕ → Pool S → Type 0
Idle i p =
    (get_elem? p.jobs i ≡ none)
    ⊎ (((r : Option Error) × (get_elem? p.jobs i ≡ some (finished r)))
        ⊎ ((get_elem? p.jobs i ≡ some waiting) × (page_extraction_concurrency ≤ p.held)))

Idle-busy :
    {S : Type 0} (i : ℕ) (p : Pool S) (s : Stage)
    → Idle i p
    → get_elem? p.jobs i ≡ some s
    → busy s ≡ 0
Idle-busy i p s (inl h) e = cc
Idle-busy i p s (inr (inl (r, h))) e = let q : s ≡ finished r = ground arith in rw q refl
Idle-busy i p s (inr (inr (h, full))) e = let q : s ≡ waiting = ground arith in rw q refl

Idle-weight :
    {S : Type 0} (i : ℕ) (p : Pool S) (s : Stage)
    → p.held < page_extraction_concurrency
    → Idle i p
    → get_elem? p.jobs i ≡ some s
    → weight s ≡ 0
Idle-weight i p s free (inl h) e = cc
Idle-weight i p s free (inr (inl (r, h))) e = let q : s ≡ finished r = ground arith in rw q refl
Idle-weight i p s free (inr (inr (h, full))) e = absurd (omega arith)

in_list {ℓ} : {A : Type ℓ} (xs : List A) (i : ℕ) (x : A) → get_elem? xs i ≡ some x → i < length xs
in_list [] i x h = cc
in_list (y ∷ xs) zero x h = omega arith
in_list (y ∷ xs) (suc i) x h = omega (arith, in_list xs i x h)

-- If nobody has anything to do, all is done: `sem` has a place for whoever waits.
all-Idle :
    {S : Type 0} (p : Pool S)
    → IsWithin p
    → ((i : ℕ) → i < length p.jobs → Idle i p)
    → remaining p ≡ 0
all-Idle p v idle =
    let none_busy : sum_by busy p.jobs ≡ 0 =
      sum_by-eq-zero busy p.jobs (λ i s e. Idle-busy i p s (idle i (in_list p.jobs i s e)) e) in
    let free : p.held < page_extraction_concurrency = omega (arith, v.counted) in
    sum_by-eq-zero weight p.jobs (λ i s e. Idle-weight i p s free (idle i (in_list p.jobs i s e)) e)

below :
    {S : Type 0} (n : ℕ) (p : Pool S)
    → ((i : ℕ) → i < n → Idle i p)
    → Idle n p
    → (i : ℕ) → i < suc n
    → Idle i p
below n p idle why i h = elim (Bool-cases (ltb i n)) [
  | inl less ↦ idle i (ground arith)
  | inr last ↦ subst (λ k. Idle k p) (let e : n ≡ i = ground arith in e) why
]

module _ {S : Type 0} (machine : Machine) (store : Storage S) (pg : Postgres) (original : Bytes)
    (pages_dir doc_id : String) where
  pub turn-cases :
      (i : ℕ) (p : Pool S)
      → ((turn machine store pg original pages_dir doc_id i p ≡ p) × Idle i p)
        ⊎ (remaining (turn machine store pg original pages_dir doc_id i p) < remaining p)
  turn-cases i p = elim (view machine store pg original pages_dir doc_id i p) [
    | stays same why ↦ inl (same, why)
    | enters h free same ↦
        inr (rw same (omega (arith, sum_by-set weight p.jobs i waiting started h)))
    | works s h b same ↦
        let (s', w') = advance machine store pg original pages_dir doc_id (suc i) s p.world in
        inr (
          rw same (
            omega (
              arith,
              sum_by-set weight p.jobs i s s' h,
              advance-weight machine store pg original pages_dir doc_id (suc i) s p.world b,
            )))
  ]

  abbrev after_turn : ℕ → Pool S → Pool S
  after_turn i p = turn machine store pg original pages_dir doc_id i p

  abbrev after_sweep : ℕ → Pool S → Pool S
  after_sweep n p = sweep machine store pg original pages_dir doc_id n p

  pub turn-le : (i : ℕ) (p : Pool S) → remaining (after_turn i p) ≤ remaining p
  turn-le i p = elim (turn-cases i p) [
    | inl (same, why) ↦ rw same (omega arith)
    | inr less ↦ omega arith
  ]

  sweep-le : (n : ℕ) (p : Pool S) → remaining (after_sweep n p) ≤ remaining p
  unfolding sweep
  sweep-le zero p = omega arith
  sweep-le (suc i) p = omega (arith, sweep-le i (after_turn i p), turn-le i p)

  sweep-IsWithin : (n : ℕ) (p : Pool S) → IsWithin p → IsWithin (after_sweep n p)
  unfolding sweep
  sweep-IsWithin zero p v = v
  sweep-IsWithin (suc i) p v =
      sweep-IsWithin i (after_turn i p)
        (turn-IsWithin machine store pg original pages_dir doc_id i p v)

  -- Either a sweep gets on, or nobody had anything to do.
  sweep-cases :
      (n : ℕ) (p : Pool S)
      → ((i : ℕ) → i < n → Idle i p) ⊎ (remaining (after_sweep n p) < remaining p)
  unfolding sweep
  sweep-cases zero p = inl (λ i h. absurd (omega arith))
  sweep-cases (suc n) p = elim (turn-cases n p) [
    | inr less ↦ inr (omega (arith, sweep-le n (after_turn n p)))
    | inl (same, why) ↦ elim (sweep-cases n p) [
      | inr less ↦ inr (subst (λ q. remaining (after_sweep n q) < remaining p) (sym same) less)
      | inl idle ↦ inl (λ i h. below n p idle why i h)
    ]
  ]

  find_turn :
      (n : ℕ) (p : Pool S)
      → ((i : ℕ) → i < n → Idle i p) ⊎ ((i : ℕ) × (remaining (after_turn i p) < remaining p))
  find_turn zero p = inl (λ i h. absurd (omega arith))
  find_turn (suc n) p = elim (turn-cases n p) [
    | inr less ↦ inr (n, less)
    | inl (same, why) ↦ elim (find_turn n p) [
      | inr found ↦ inr found
      | inl idle ↦ inl (λ i h. below n p idle why i h)
    ]
  ]

  -- While a goroutine is not done, some goroutine has a step that it can take: they never block one
  -- another for good.
  pub some_turn :
      (p : Pool S)
      → IsWithin p
      → 0 < remaining p
      → (i : ℕ) × (remaining (after_turn i p) < remaining p)
  some_turn p v left = elim (find_turn (length p.jobs) p) [
    | inl idle ↦ absurd (omega (arith, all-Idle p v idle))
    | inr found ↦ found
  ]

  -- A sweep over all goroutines gets on until all are done, so turns for everyone, repeated as often
  -- as there are steps left, end with every goroutine done.
  pub drain-remaining :
      (k : ℕ) (p : Pool S)
      → IsWithin p
      → remaining p ≤ k
      → remaining (drain machine store pg original pages_dir doc_id k p) ≡ 0
  unfolding drain
  drain-remaining zero p v h = omega arith
  drain-remaining (suc k) p v h =
      drain-remaining k (after_sweep (length p.jobs) p) (sweep-IsWithin (length p.jobs) p v)
        (elim (sweep-cases (length p.jobs) p) [
          | inl idle ↦ omega (arith, all-Idle p v idle, sweep-le (length p.jobs) p)
          | inr less ↦ omega arith
        ])
