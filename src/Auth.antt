-- ===== src/Auth.antt =====
-- middleware/auth.go and middleware/apikey.go: who a request comes from. The parser of tokens, which
-- is jwt with the check of the signing method and the secret, is a parameter.
pub mod Identity
pub mod Tokens
use minio_3d.Base.{ℕ, String, Bool, true, false, not, ◌&&◌, ◌==◌, Option, none, some, if◌then◌else◌}
use minio_3d.Errors.{Error, plain, Result, ok, err, message}
use minio_3d.Paths.{lowers_to, lowers_with, first_part, second_part}
use minio_3d.Types.{ApiKey}
use minio_3d.Sql.{Conn, Sql, Postgres}
use minio_3d.ApiKeys.{get_by_hash, touch_last_used}

-- The two headers; a header that is missing is empty.
pub record Request : Type 0 where
  pub authorization : String
  pub x_api_key : String

-- The request goes on with a user id, or ends with 401.
pub data Outcome : Type 0 where
  next : String → Outcome
  unauthorized : String → Outcome

abbrev malformed : Error
malformed = plain "authorization header must be: Bearer <token>"

abbrev token_of : Bool → Option String → Result String
token_of false _ = err malformed
token_of true none = err malformed
token_of true (some t) = if t == "" then err (plain "token is empty") else ok t

unfoldable pub extract_token : String → Result String
unfolding lowers_to first_part second_part
extract_token header =
    if header == ""
    then err (plain "authorization header missing")
    else token_of (lowers_to (first_part header) "bearer") (second_part header)

abbrev parsed : Result String → Outcome
parsed (ok user_id) = next user_id
parsed (err e) = unauthorized "invalid or expired token"

-- `parse_token` gives the user id of the claims.
abbrev with_token : (String → Result String) → Result String → Outcome
with_token parse_token (ok token) = parsed (parse_token token)
with_token parse_token (err e) = unauthorized (message e)

unfoldable pub auth : (String → Result String) → Request → Outcome
unfolding extract_token
auth parse_token r = with_token parse_token (extract_token r.authorization)

module _ (hash_key : String → String) (pg : Postgres) (now : ℕ) where
  abbrev admitted : Result ApiKey × Conn → Outcome × Conn
  admitted (err e, c) = (unauthorized "invalid or expired API key", c)
  admitted (ok k, c) = (next k.user_id, (touch_last_used pg k.id c).1)

  unfoldable pub api_key_auth : Request → Conn → Outcome × Conn
  unfolding get_by_hash touch_last_used
  api_key_auth r c =
      if r.x_api_key == ""
      then (unauthorized "X-API-Key header missing", c)
      else admitted (get_by_hash hash_key now r.x_api_key c)

  unfoldable pub flex_auth : (String → Result String) → Request → Conn → Outcome × Conn
  unfolding lowers_with auth api_key_auth
  flex_auth parse_token r c =
      if lowers_with r.authorization "bearer "
      then (auth parse_token r, c)
      else if not (r.x_api_key == "")
      then api_key_auth r c
      else (unauthorized "provide either Authorization: Bearer <jwt> or X-API-Key: <key>", c)
