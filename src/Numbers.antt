-- ===== src/Numbers.antt =====
-- What is used of Go's strconv and fmt: `%d`, `strconv.Atoi` and `strconv.ParseInt` to base 10, on
-- 64 bits, and `strconv.ParseBool`.
pub mod Laws
use Prim.Native.Char.{Char, code}
use Prim.Native.String.{[], ◌∷◌}
use minio_3d.Base.{
  ℕ, zero, suc, ◌+◌, ◌-◌, ◌*◌, ◌/◌, ◌%◌, ◌^◌, String, Bool, true, false, ◌&&◌, ◌||◌, ◌==◌, Option,
  none, some, eqb, leb, ltb, if◌then◌else◌,
}

-- `negsuc n` is -(n + 1).
pub data ℤ : Type 0 where
  pos negsuc : ℕ → ℤ

-- The text of one digit.
unfoldable pub digit : ℕ → Char
digit zero = "0"
digit (suc zero) = "1"
digit (suc (suc zero)) = "2"
digit (suc (suc (suc zero))) = "3"
digit (suc (suc (suc (suc zero)))) = "4"
digit (suc (suc (suc (suc (suc zero))))) = "5"
digit (suc (suc (suc (suc (suc (suc zero)))))) = "6"
digit (suc (suc (suc (suc (suc (suc (suc zero))))))) = "7"
digit (suc (suc (suc (suc (suc (suc (suc (suc zero)))))))) = "8"
digit _ = "9"

-- The digits of a number in front of a text; more fuel than the number is enough.
unfoldable pub digits : ℕ → ℕ → String → String
unfolding digit
digits zero n rest = rest
digits (suc fuel) n rest =
    let more = digits fuel (n / 10) (digit (n % 10) ∷ rest) in
    if ltb n 10 then digit n ∷ rest else more

-- `%d` of a number that is not negative.
unfoldable pub decimal : ℕ → String
unfolding digits
decimal n = digits (suc n) n ""

-- `%d` of an `int`.
unfoldable pub signed_decimal : ℤ → String
unfolding decimal
signed_decimal (pos n) = decimal n
signed_decimal (negsuc n) = "-" ∷ decimal (suc n)

abbrev pub is_digit : ℕ → Bool
is_digit c = leb b'0' c && leb c b'9'

-- The value of a text of digits after those that have been read.
unfoldable pub read_digits : ℕ → String → Option ℕ
read_digits n [] = some n
read_digits n (c ∷ s) =
    let rest = read_digits (n * 10 + (code c - b'0')) s in if is_digit (code c) then rest else none

-- A magnitude that an `int64` holds.
abbrev positive : Option ℕ → Option ℤ
positive none = none
positive (some n) = if ltb n (2 ^ 63) then some (pos n) else none

abbrev negated : ℕ → ℤ
negated zero = pos 0
negated (suc n) = negsuc n

abbrev negative : Option ℕ → Option ℤ
negative none = none
negative (some n) = if leb n (2 ^ 63) then some (negated n) else none

-- A text without digits is no number.
unfoldable pub magnitude : String → Option ℕ
unfolding read_digits
magnitude s = if s == "" then none else read_digits 0 s

-- `none` stands for any error.
unfoldable pub atoi : String → Option ℤ
unfolding magnitude
atoi [] = none
atoi (c ∷ s) =
    if eqb (code c) b'-'
    then negative (magnitude s)
    else if eqb (code c) b'+'
    then positive (magnitude s)
    else positive (magnitude (c ∷ s))

-- `strconv.ParseBool`
unfoldable pub parse_bool : String → Option Bool
parse_bool s =
    if s == "1" || (s == "t" || (s == "T" || (s == "true" || (s == "TRUE" || s == "True"))))
    then some true
    else if s == "0" || (s == "f" || (s == "F" || (s == "false" || (s == "FALSE" || s == "False"))))
    then some false
    else none

-- The range of an `int64`.
abbrev pub is_int64 : ℤ → Bool
is_int64 (pos n) = ltb n (2 ^ 63)
is_int64 (negsuc n) = ltb n (2 ^ 63)
