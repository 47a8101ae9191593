-- ===== src/Examples/Tokens.antt =====
-- A token that is issued for Alice, and the request that carries it.
use Prim.Native.Char.{code}
use Prim.Native.String as Text
use minio_3d.Base.{ℕ, zero, suc, ◌*◌, String, Bool, true, some, ◌==◌, eqb, ltb, if◌then◌else◌}
use minio_3d.Errors.{Result, ok, err, plain}
use minio_3d.Sql.{Conn}
use minio_3d.Auth.Tokens.{Token, Jwt}
use minio_3d.Handlers.Accounts.{Claims, AuthHandler, second}
use minio_3d.Handlers.Accounts.Login.{users_of}
use minio_3d.Examples.Data.{postgres}

-- A library that writes a number as so many strokes and a dot, the claims as two numbers and the user,
-- whose length is told before, and the secret behind them as the signature.
strokes : ℕ → String → String
strokes zero s = Text.◌∷◌ "." s
strokes (suc n) s = Text.◌∷◌ "1" (strokes n s)

length_of : String → ℕ
length_of Text.[] = zero
length_of (Text.◌∷◌ c s) = suc (length_of s)

abbrev followed : String → String → String
followed Text.[] t = t
followed (Text.◌∷◌ c s) t = Text.◌∷◌ c (followed s t)

sign : String → Claims → Result String
unfolding strokes length_of
sign secret c = ok (
    strokes c.expires_at
      (strokes c.issued_at (strokes (length_of c.user_id) (followed c.user_id secret))))

abbrev more : ℕ × String → ℕ × String
more (n, s) = (suc n, s)

count : String → ℕ × String
count Text.[] = (zero, "")
count (Text.◌∷◌ c s) = let rest = count s in if eqb (code c) b'1' then more rest else (zero, s)

split : ℕ → String → String × String
split zero s = ("", s)
split (suc n) Text.[] = ("", "")
split (suc n) (Text.◌∷◌ c s) = let (a, b) = split n s in (Text.◌∷◌ c a, b)

abbrev verdict : Claims → Bool → Result Token
verdict c fresh =
    if fresh
    then ok (record { claims = some c; valid = true })
    else err (plain "token has invalid claims: token is expired")

abbrev verify : Result String → ℕ → ℕ → ℕ → String × String → Result Token
verify (err e) now expires_at issued_at signed = err e
verify (ok secret) now expires_at issued_at (user, signature) =
    if signature == secret
    then verdict (record { user_id = user; expires_at = expires_at; issued_at = issued_at })
        (ltb now (expires_at * second))
    else err (plain "token signature is invalid")

abbrev parse : (Bool → Result String) → ℕ → String → Result Token
unfolding count split
parse key now token =
    let (expires_at, behind) = count token in
    let (issued_at, rest) = count behind in
    let (n, signed) = count rest in verify (key true) now expires_at issued_at (split n signed)

abbrev jwt : Jwt
unfolding sign
jwt = record { signed_string = sign; parse_with_claims = parse }

abbrev issuer : AuthHandler Conn
issuer = record {
  repo = users_of postgres;
  jwt_expiry_hours = 1;
  default_quota = 100;
  generate_from_password = λ password. ok password;
  compare_hash_and_password = λ hash password. hash == password;
  signed_string = sign "secret";
}

-- The token of an hour, and a request half a minute before its end.
abbrev token : String
unfolding strokes length_of
token = strokes 3600 (strokes 0 (strokes 5 (followed "alice" "secret")))
