-- ===== src/Auth/Tokens.antt =====
-- middleware/auth.go: `parseToken`, and a token from its issue in handlers/auth.go to a request that
-- carries it. The jwt library is a parameter.
use Prim.Native.String as Text
use minio_3d.Base.{ℕ, ◌*◌, ◌<◌, String, Bool, true, false, ◌≡◌, ◌≢◌, Option, some}
use minio_3d.Errors.{plain, Result, ok, err}
use minio_3d.Auth.{Request}
use minio_3d.Handlers.Accounts.{Claims, second}

-- `*jwt.Token`: its claims, when they are of the type `*Claims`, and whether it is valid.
pub record Token : Type 0 where
  pub claims : Option Claims
  pub valid : Bool

-- `SignedString` with HS256, and `jwt.ParseWithClaims`, which takes the function that gives the key;
-- this is told whether the method of the token is HMAC. The library reads the clock.
pub record Jwt : Type 0 where
  pub signed_string : String → Claims → Result String
  pub parse_with_claims : (Bool → Result String) → ℕ → String → Result Token

abbrev key_of : String → Bool → Result String
key_of secret true = ok secret
key_of secret false = err (plain "unexpected signing method")

abbrev checked : Option Claims → Bool → Result Claims
checked (some c) true = ok c
checked _ _ = err (plain "invalid token claims")

abbrev claims_of : Result Token → Result Claims
claims_of (err e) = err e
claims_of (ok t) = checked t.claims t.valid

module _ (jwt : Jwt) (secret : String) (now : ℕ) where
  unfoldable pub parse_token : String → Result Claims
  parse_token token = claims_of (jwt.parse_with_claims (key_of secret) now token)

  -- The user id that `Auth` takes from the claims.
  abbrev pub user_of : Result Claims → Result String
  user_of (ok c) = ok c.user_id
  user_of (err e) = err e

  abbrev pub user_of_token : String → Result String
  unfolding parse_token
  user_of_token token = user_of (parse_token token)

-- What the library documents: a token that it has signed is not empty, and when it is parsed with the
-- key of its signature, before the second in its `exp`, it is valid and has the claims that were
-- signed.
pub record IsJwt (jwt : Jwt) : Type 0 where
  pub nonempty :
      (secret : String) (c : Claims) (token : String)
      → jwt.signed_string secret c ≡ ok token
      → token ≢ ""
  pub parses :
      (secret : String) (c : Claims) (token : String) (key : Bool → Result String) (now : ℕ)
      → jwt.signed_string secret c ≡ ok token
      → key true ≡ ok secret
      → now < c.expires_at * second
      → jwt.parse_with_claims key now token ≡ ok (record { claims = some c; valid = true })

-- The header of a request with a token.
abbrev pub bearer : String → Request
bearer token = record {
  authorization = Text.◌∷◌ "B" (
      Text.◌∷◌ "e"
        (Text.◌∷◌ "a" (Text.◌∷◌ "r" (Text.◌∷◌ "e" (Text.◌∷◌ "r" (Text.◌∷◌ " " token))))));
  x_api_key = "";
}
