-- ===== src/Paths.antt =====
-- The text functions of Go's library that the services call: `filepath.Base`, `filepath.Ext`,
-- `strings.ToLower` as far as an ASCII result goes, and text put together by `fmt.Sprintf`.
use Prim.Native.Char.{Char, code}
use Prim.Native.String.{[], ◌∷◌, ◌++◌}
use minio_3d.Base.{
  ℕ, zero, suc, ◌+◌, Option, none, some, String, Bool, true, false, not, ◌&&◌, ◌||◌, ◌==◌, leb, eqb,
  if◌then◌else◌,
}
use minio_3d.Base

-- The pieces of a text, in order.
abbrev pub concat : Base.List String → String
concat Base.[] = ""
concat (Base.◌∷◌ s ss) = s ++ concat ss

is_slash : Char → Bool
is_slash c = eqb (code c) b'/'

has_slash : String → Bool
unfolding is_slash
has_slash [] = false
has_slash (c ∷ s) = is_slash c || has_slash s

-- The text without the slashes at its end.
trim_slashes : String → String
unfolding is_slash
trim_slashes [] = []
trim_slashes (c ∷ s) =
    let rest = trim_slashes s in if is_slash c && rest == "" then "" else c ∷ rest

-- What follows the last slash.
last_element : String → String
unfolding has_slash
last_element [] = []
last_element (c ∷ s) =
    let rest = last_element s in if has_slash s then rest else if is_slash c then s else c ∷ s

-- `filepath.Base`
unfoldable pub base : String → String
unfolding trim_slashes last_element
base path =
    if path == ""
    then "."
    else let name = last_element (trim_slashes path) in if name == "" then "/" else name

-- `filepath.Ext`: from the last dot of the last element.
unfoldable pub ext : String → String
unfolding has_slash
ext [] = []
ext (c ∷ s) =
    let rest = ext s in
    if has_slash s
    then rest
    else if not (rest == "")
    then rest
    else if eqb (code c) b'.'
    then c ∷ s
    else ""

-- The code point of `unicode.ToLower`, for every rune whose lower case is ASCII; any other rune is
-- left alone, and stays outside ASCII as it does in Go.
unfoldable pub lower_code : ℕ → ℕ
lower_code c =
    if leb b'A' c && leb c b'Z'
    then c + 32
    else if eqb c 0x130
    then b'i'
    else if eqb c 0x212a
    then b'k'
    else c

-- `strings.ToLower(s) == t`, for a `t` that is ASCII in lower case.
unfoldable pub lowers_to : String → String → Bool
unfolding lower_code
lowers_to [] [] = true
lowers_to [] (d ∷ t) = false
lowers_to (c ∷ s) [] = false
lowers_to (c ∷ s) (d ∷ t) = eqb (lower_code (code c)) (code d) && lowers_to s t

-- `s[:n]` of an ASCII text that is long enough.
abbrev pub prefix : ℕ → String → String
prefix zero s = ""
prefix (suc n) [] = ""
prefix (suc n) (c ∷ s) = c ∷ prefix n s

-- The closure of `buildObjectKey`, mapped over the text.
unfoldable pub underscores : String → String
underscores [] = []
underscores (c ∷ s) = (if eqb (code c) b' ' then "_" else c ∷ []) ++ underscores s

-- `strings.HasPrefix(strings.ToLower(s), t)`, for a `t` that is ASCII in lower case.
unfoldable pub lowers_with : String → String → Bool
unfolding lower_code
lowers_with s [] = true
lowers_with [] (d ∷ t) = false
lowers_with (c ∷ s) (d ∷ t) = eqb (lower_code (code c)) (code d) && lowers_with s t

-- `strings.SplitN(s, " ", 2)`: the text before the first space, and what follows it, if there is one.
unfoldable pub first_part : String → String
first_part [] = []
first_part (c ∷ s) = let rest = first_part s in if eqb (code c) b' ' then "" else c ∷ rest

unfoldable pub second_part : String → Option String
second_part [] = none
second_part (c ∷ s) = let rest = second_part s in if eqb (code c) b' ' then some s else rest
