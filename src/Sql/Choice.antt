-- ===== src/Sql/Choice.antt =====
-- `LIMIT 1`: some row if there is one, and a row of the table that passes the test.
use mathlib.Core.Logic.Or
use mathlib.Core.Path.{subst}
use mathlib.Core.List.{Mem, mem-cons, mem-cons_self}
use minio_3d.Base.{
  ℕ, suc, zero, ◌<◌, ◌%◌, ◌≡◌, Bool, true, false, none, some, List, [], ◌∷◌, refl, arith, length,
  get_elem?, any, select, Bool-cases, inl, inr,
}
use minio_3d.Sql.Rows.{limit_one}

module _ {ℓ} {A : Type ℓ} where
  get_elem?-some : (xs : List A) (i : ℕ) → i < length xs → (x : A) × (get_elem? xs i ≡ some x)
  get_elem?-some [] i h = elim h [ ]
  get_elem?-some (x ∷ xs) zero h = (x, refl)
  get_elem?-some (x ∷ xs) (suc i) h = get_elem?-some xs i (omega arith)

  pub limit_one-eq-none : (choose : List A → ℕ) (xs : List A) → limit_one choose xs ≡ none → xs ≡ []
  unfolding limit_one
  limit_one-eq-none choose [] h = refl
  limit_one-eq-none choose (x ∷ xs) h =
      let (y, e) = get_elem?-some (x ∷ xs) (choose (x ∷ xs) % suc (length xs)) (omega arith) in cc

  pub select-eq-nil : (p : A → Bool) (xs : List A) → select p xs ≡ [] → any p xs ≡ false
  select-eq-nil p [] h = refl
  select-eq-nil p (x ∷ xs) h = ground (arith, select-eq-nil p xs)

  pub select-absent : (p : A → Bool) (xs : List A) → any p xs ≡ false → select p xs ≡ []
  select-absent p [] h = refl
  select-absent p (x ∷ xs) h = ground (arith, select-absent p xs)

  -- What is known of a row that a query has read.
  abbrev IsRowOf : (A → Bool) → List A → A → Type ℓ
  IsRowOf p xs x = (p x ≡ true) × (any p xs ≡ true) × Mem x xs

  at_head :
      (p : A → Bool) (y : A) (xs : List A) (x : A) (i : ℕ)
      → ((j : ℕ) → get_elem? (select p xs) j ≡ some x → IsRowOf p xs x)
      → p y ≡ true
      → get_elem? (y ∷ select p xs) i ≡ some x
      → IsRowOf p (y ∷ xs) x
  at_head p y xs x zero rest q h =
      let e : y ≡ x = cc in (ground arith, rw q, subst (λ z. Mem z (y ∷ xs)) e mem-cons_self)
  at_head p y xs x (suc i) rest q h = let (px, _, m) = rest i h in (px, rw q, mem-cons.1 (Or.inr m))

  get_elem?-passes :
      (p : A → Bool) (xs : List A) (x : A) (i : ℕ)
      → get_elem? (select p xs) i ≡ some x
      → IsRowOf p xs x
  get_elem?-passes p [] x i h = cc
  get_elem?-passes p (y ∷ xs) x i h = elim (Bool-cases (p y)) [
    | inl here ↦ at_head p y xs x i (get_elem?-passes p xs x) here (rw here at h)
    | inr there ↦
        let (px, found, m) = get_elem?-passes p xs x i (rw there at h) in
        (px, rw there found, mem-cons.1 (Or.inr m))
  ]

  pub limit_one-eq-some :
      (choose : List A → ℕ) (p : A → Bool) (xs : List A) (x : A)
      → limit_one choose (select p xs) ≡ some x
      → (p x ≡ true) × (any p xs ≡ true) × Mem x xs
  unfolding limit_one
  limit_one-eq-some choose p xs x h = get_elem?-passes p xs x _ h
