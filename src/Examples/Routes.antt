-- ===== src/Examples/Routes.antt =====
-- A request with an API key, on its way to a handler.
use minio_3d.Base.{◌≡◌, ◌⊎◌, refl, String, Option, some, none, [], ◌∷◌, true, false}
use minio_3d.Errors.{Result, err, plain}
use minio_3d.Paths.{concat, lowers_with}
use minio_3d.Sql.{Tables, quiet}
use minio_3d.Storage.Mock.{MockStorage}
use minio_3d.Auth.{Request}
use minio_3d.Auth.Identity.{HasToken, HasKey}
use minio_3d.RateLimiter.{new_rate_limiter}
use minio_3d.Worker.Tasks.{System}
use minio_3d.Worker.Extract.Announce.{resting}
use minio_3d.Router.{Endpoint, Server, handled, route, serve}
use minio_3d.Router.Guards.{documents, Handled, serve-Handled}
use minio_3d.Examples.Data.{postgres, only_alice, empty_store}

abbrev hash_key : String → String
hash_key raw = concat ("hash of " ∷ raw ∷ [])

abbrev tables : Tables
tables = record only_alice {
  api_keys =
      record {
        id = "row-0";
        user_id = "alice";
        name = "robot";
        key_hash = "hash of msk_00ff00ff";
        prefix = "msk_00ff";
        last_used_at = none;
        created_at = 1000;
        expires_at = some 5000;
      }
      ∷ [];
}

abbrev parse_token : String → Result String
parse_token t = err (plain "unknown token")

abbrev by_key : Request
by_key = record { authorization = ""; x_api_key = "msk_00ff00ff" }

-- A handler that answers with the user that it was given.
abbrev who : Endpoint → Option String → System MockStorage → Option String × System MockStorage
who e user s = (user, s)

abbrev before : Server MockStorage
before = record { system = resting tables empty_store []; limiter = new_rate_limiter 10 60 }

abbrev after : Server MockStorage
after =
    (serve who hash_key postgres 2000 parse_token "POST" ("documents" ∷ "upload" ∷ []) by_key
      before).1

let-in :
    serve who hash_key postgres 2000 parse_token "POST" ("documents" ∷ "upload" ∷ []) by_key before
    ≡ (handled (some "alice"), after)
unfolding serve
let-in = refl

serve-Handled_example :
    (e : Endpoint) × (user : String) × (route "POST" ("documents" ∷ "upload" ∷ []) ≡ some e)
    × (((lowers_with "" "bearer " ≡ true) × HasToken parse_token by_key user)
        ⊎ ((lowers_with "" "bearer " ≡ false)
            × HasKey hash_key postgres 2000 parse_token by_key (quiet tables) user))
    × Handled who hash_key postgres 2000 parse_token e user (some "alice") before after
serve-Handled_example =
    serve-Handled who hash_key postgres 2000 parse_token documents "POST" ("upload" ∷ []) by_key
      (some "alice") before after let-in
