-- ===== src/Counts.antt =====
-- How many rows pass a test, and predicates of all rows, under the changes of a table.
use minio_3d.Base.{
  ◌+◌, Bool, ◌&&◌, ◌≡◌, refl, ◌∙◌, List, [], ◌∷◌, arith, count, select, insert_by, order_by, ◌++◌,
  ◌≤◌, true, false, any, discard, update, All, Bool-cases, inl, inr,
}

module _ {A : Type 0} (before : A → A → Bool) (test : A → Bool) where
  count-insert_by : (x : A) (xs : List A) → count test (insert_by before x xs) ≡ count test (x ∷ xs)
  count-insert_by x [] = refl
  count-insert_by x (y ∷ ys) = ground (arith, count-insert_by x ys)

  pub count-order_by : (xs : List A) → count test (order_by before xs) ≡ count test xs
  count-order_by [] = refl
  count-order_by (x ∷ xs) =
      count-insert_by x (order_by before xs) ∙ ground (arith, count-order_by xs)

pub count-select :
    {A : Type 0} (test keep : A → Bool) (xs : List A)
    → count test (select keep xs) ≡ count (λ x. keep x && test x) xs
count-select test keep [] = refl
count-select test keep (x ∷ xs) = ground (arith, count-select test keep xs)

pub count-append :
    {A : Type 0} (p : A → Bool) (xs : List A) (x : A)
    → count p (xs ++ x ∷ []) ≡ count p xs + count p (x ∷ [])
count-append p [] x = omega arith
count-append p (y ∷ ys) x = ground (arith, count-append p ys x)

pub count-discard :
    {A : Type 0} (p q : A → Bool) (xs : List A) → count p (discard q xs) ≤ count p xs
count-discard p q [] = omega arith
count-discard p q (x ∷ xs) = ground (arith, count-discard p q xs)

pub count-eq-zero : {A : Type 0} (p : A → Bool) (xs : List A) → any p xs ≡ false → count p xs ≡ 0
count-eq-zero p [] h = refl
count-eq-zero p (x ∷ xs) h = ground (arith, count-eq-zero p xs)

pub count-select-nil : {A : Type 0} (p : A → Bool) (xs : List A) → select p xs ≡ [] → count p xs ≡ 0
count-select-nil p [] h = refl
count-select-nil p (x ∷ xs) h = ground (arith, count-select-nil p xs)

-- A test that an update of the rows does not see.
module _ {A : Type 0} (p q : A → Bool) (f : A → A) (blind : (x : A) → p (f x) ≡ p x) where
  pub count-update : (xs : List A) → count p (update q f xs) ≡ count p xs
  count-update [] = refl
  count-update (x ∷ xs) = ground (arith, count-update xs, blind x)

  pub any-update : (xs : List A) → any p (update q f xs) ≡ any p xs
  any-update [] = refl
  any-update (x ∷ xs) = ground (arith, any-update xs, blind x)

pub any-append :
    {A : Type 0} (p : A → Bool) (xs : List A) (x : A)
    → any p xs ≡ true
    → any p (xs ++ x ∷ []) ≡ true
any-append p [] x h = cc
any-append p (y ∷ ys) x h = ground (arith, any-append p ys x)

pub All-append :
    {A : Type 0} (P : A → Type 0) (xs : List A) (x : A) → All P xs → P x → All P (xs ++ x ∷ [])
All-append P [] x h k = (k, tt)
All-append P (y ∷ ys) x h k = (h.0, All-append P ys x h.1 k)

pub All-weaken :
    {A : Type 0} (P Q : A → Type 0) (xs : List A) → ((x : A) → P x → Q x) → All P xs → All Q xs
All-weaken P Q [] h k = tt
All-weaken P Q (x ∷ xs) h k = (h x k.0, All-weaken P Q xs h k.1)

pub All-update :
    {A : Type 0} (P : A → Type 0) (q : A → Bool) (f : A → A) (xs : List A)
    → ((x : A) → P x → P (f x))
    → All P xs
    → All P (update q f xs)
All-update P q f [] h k = tt
All-update P q f (x ∷ xs) h k = elim (Bool-cases (q x)) [
  | inl hit ↦ rw hit (h x k.0, All-update P q f xs h k.1)
  | inr miss ↦ rw miss (k.0, All-update P q f xs h k.1)
]

-- The rows that stay are rows from before that fail the test.
pub All-discard :
    {A : Type 0} (P Q : A → Type 0) (q : A → Bool) (xs : List A)
    → ((x : A) → P x → q x ≡ false → Q x)
    → All P xs
    → All Q (discard q xs)
All-discard P Q q [] h k = tt
All-discard P Q q (x ∷ xs) h k = elim (Bool-cases (q x)) [
  | inl gone ↦ rw gone (All-discard P Q q xs h k.1)
  | inr stays ↦ rw stays (h x k.0 stays, All-discard P Q q xs h k.1)
]

pub any-last :
    {A : Type 0} (p : A → Bool) (xs : List A) (x : A) → p x ≡ true → any p (xs ++ x ∷ []) ≡ true
any-last p [] x h = rw h refl
any-last p (y ∷ ys) x h = ground (arith, any-last p ys x h)
