-- ===== src/Numbers/Laws.antt =====
-- Reading what has been printed.
use Prim.Native.Char.{Char, code}
use Prim.Native.String.{◌∷◌}
use minio_3d.Base.{
  ℕ, zero, suc, ◌+◌, ◌*◌, ◌/◌, ◌%◌, ◌^◌, ◌<◌, ◌≡◌, refl, sym, ap, ◌∙◌, String, true, false, ◌==◌,
  some, arith, ltb, leb, eqb, Bool-cases, inl, inr, eq_iff,
}
use text.Mathlib.TextLemmas.{cons≢nil}
use minio_3d.Numbers.{
  ℤ, pos, negsuc, is_int64, signed_decimal, magnitude, digit, digits, decimal, read_digits, atoi,
}

read_digits-at : (m n : ℕ) (rest : String) → m ≡ n → read_digits m rest ≡ read_digits n rest
read_digits-at m n rest e = ap (λ k. read_digits k rest) e

code-digit : (d : ℕ) → d < 10 → code (digit d) ≡ b'0' + d
unfolding digit
code-digit zero h = refl
code-digit (suc zero) h = refl
code-digit (suc (suc zero)) h = refl
code-digit (suc (suc (suc zero))) h = refl
code-digit (suc (suc (suc (suc zero)))) h = refl
code-digit (suc (suc (suc (suc (suc zero))))) h = refl
code-digit (suc (suc (suc (suc (suc (suc zero)))))) h = refl
code-digit (suc (suc (suc (suc (suc (suc (suc zero))))))) h = refl
code-digit (suc (suc (suc (suc (suc (suc (suc (suc zero)))))))) h = refl
code-digit (suc (suc (suc (suc (suc (suc (suc (suc (suc zero))))))))) h = refl
code-digit (suc (suc (suc (suc (suc (suc (suc (suc (suc (suc d)))))))))) h = absurd (omega arith)

read_digits-digit :
    (d n : ℕ) (rest : String)
    → d < 10
    → read_digits n (digit d ∷ rest) ≡ read_digits (n * 10 + d) rest
unfolding read_digits
read_digits-digit d n rest h = ground (arith, code-digit d)

read_digits-digits :
    (fuel n : ℕ) (rest : String)
    → n < fuel
    → read_digits 0 (digits fuel n rest) ≡ read_digits n rest
unfolding digits
read_digits-digits zero n rest h = elim h [ ]
read_digits-digits (suc fuel) n rest h = elim (Bool-cases (ltb n 10)) [
  | inl one_digit ↦
      rw one_digit (
        read_digits-digit n 0 rest (ground arith)
        ∙ read_digits-at (0 * 10 + n) n rest (omega arith))
  | inr more ↦ rw more (
      read_digits-digits fuel (n / 10) (digit (n % 10) ∷ rest) (ground arith)
      ∙ read_digits-digit (n % 10) (n / 10) rest (omega arith)
      ∙ read_digits-at (n / 10 * 10 + n % 10) n rest (omega arith))
]

-- The text of a number is not empty, and begins with a digit.
digits-starts :
    (fuel n : ℕ) (rest : String)
    → n < fuel
    → (d : ℕ) × (tail : String) × (d < 10) × (digits fuel n rest ≡ digit d ∷ tail)
unfolding digits
digits-starts zero n rest h = elim h [ ]
digits-starts (suc fuel) n rest h = elim (Bool-cases (ltb n 10)) [
  | inl one_digit ↦ (n, rest, ground arith, rw one_digit refl)
  | inr more ↦ rw more (digits-starts fuel (n / 10) (digit (n % 10) ∷ rest) (ground arith))
]

cons-ne-empty : (c : Char) (s : String) → (c ∷ s == "") ≡ false
cons-ne-empty c s = elim (Bool-cases (c ∷ s == "")) [
  | inl same ↦ absurd (cons≢nil ((eq_iff (c ∷ s) "").0 same))
  | inr differs ↦ differs
]

atoi-digit :
    (d : ℕ) (tail : String) (n : ℕ)
    → d < 10
    → n < 2 ^ 63
    → read_digits 0 (digit d ∷ tail) ≡ some n
    → atoi (digit d ∷ tail) ≡ some (pos n)
unfolding atoi
atoi-digit d tail n h fits e =
    let c = code-digit d h in
    let not_minus : eqb (code (digit d)) b'-' ≡ false = ground arith in
    let not_plus : eqb (code (digit d)) b'+' ≡ false = ground arith in
    let below : ltb n (2 ^ 63) ≡ true = ground arith in
    rw (not_minus, not_plus, cons-ne-empty (digit d) tail, e, below)

-- `strconv.Atoi` reads a number that `%d` has printed, if an `int64` holds it.
pub atoi-decimal : (n : ℕ) → n < 2 ^ 63 → atoi (decimal n) ≡ some (pos n)
unfolding decimal read_digits
atoi-decimal n h =
    let (d, tail, small, e) = digits-starts (suc n) n "" (omega arith) in
    rw e (
      atoi-digit d tail n small h
        (ap (read_digits 0) (sym e) ∙ read_digits-digits (suc n) n "" (omega arith)))

read-decimal : (n : ℕ) → magnitude (decimal n) ≡ some n
unfolding magnitude decimal read_digits
read-decimal n =
    let (d, tail, small, e) = digits-starts (suc n) n "" (omega arith) in
    rw e (
      rw
        (
          cons-ne-empty (digit d) tail,
          ap (read_digits 0) (sym e) ∙ read_digits-digits (suc n) n "" (omega arith),
        )
        refl)

-- `strconv.Atoi` reads an `int64` that `%d` has printed.
pub atoi-signed_decimal : (i : ℤ) → is_int64 i ≡ true → atoi (signed_decimal i) ≡ some i
unfolding signed_decimal atoi
atoi-signed_decimal (pos n) h = atoi-decimal n (ground arith)
atoi-signed_decimal (negsuc n) h =
    let within : leb (suc n) (2 ^ 63) ≡ true = ground arith in
    rw (read-decimal (suc n), within) refl

pub signed_decimal-nonempty : (i : ℤ) → (signed_decimal i == "") ≡ false
unfolding signed_decimal decimal
signed_decimal-nonempty (pos n) =
    let (d, tail, small, e) = digits-starts (suc n) n "" (omega arith) in
    rw e (cons-ne-empty (digit d) tail)
signed_decimal-nonempty (negsuc n) = cons-ne-empty _ (decimal (suc n))
