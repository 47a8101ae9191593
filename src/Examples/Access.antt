-- ===== src/Examples/Access.antt =====
-- A key that is created, and the requests that it lets in.
use minio_3d.Base.{String, true, false, ◌≡◌, ◌⊎◌, refl, some, none, [], ◌∷◌, if◌then◌else◌}
use minio_3d.Errors.{Result, ok, err, plain, Sentinel, sentinel}
use minio_3d.Paths.{concat, lowers_with}
use minio_3d.Types.{ApiKey}
use minio_3d.Sql.{Tables, quiet}
use minio_3d.ApiKeys.{create, get_by_hash, is_expired}
use minio_3d.ApiKeys.Lookup.{get_by_hash-create}
use minio_3d.Auth.{Request, next, flex_auth}
use minio_3d.Auth.Identity.{HasToken, HasKey, flex_auth-eq-next}
use minio_3d.Examples.Data.{postgres, only_alice}

abbrev hash_key : String → String
hash_key raw = concat ("hash of " ∷ raw ∷ [])

abbrev robot : ApiKey
robot = record {
  id = "row-0";
  user_id = "alice";
  name = "robot";
  key_hash = "hash of msk_00ff00ff";
  prefix = "msk_00ff";
  last_used_at = none;
  created_at = 1000;
  expires_at = some 5000;
}

abbrev with_robot : Tables
with_robot = record only_alice { api_keys = robot ∷ [] }

create-robot :
    create hash_key postgres (ok "00ff00ff") "alice" "robot" (some 5000) (quiet only_alice)
    ≡ (ok (record { api_key = robot; raw_key = "msk_00ff00ff" }), quiet with_robot)
unfolding create
create-robot = refl

get_by_hash-create_example :
    (get_by_hash hash_key 6000 "msk_00ff00ff" (quiet with_robot) ≡ (
      if is_expired 6000 (some 5000) then err (sentinel Sentinel.not_found) else ok robot,
      quiet with_robot,
    ))
    × (robot.user_id ≡ "alice")
get_by_hash-create_example =
    get_by_hash-create hash_key postgres "alice" "robot" (some 5000) (ok "00ff00ff")
      (quiet only_alice) (record { api_key = robot; raw_key = "msk_00ff00ff" }) (quiet with_robot)
      6000 create-robot

-- A parser that refuses every token.
abbrev parse_token : String → Result String
parse_token t = err (plain "unknown token")

abbrev by_key : Request
by_key = record { authorization = ""; x_api_key = "msk_00ff00ff" }

let_in-by_key :
    (flex_auth hash_key postgres 2000 parse_token by_key (quiet with_robot)).0 ≡ next "alice"
unfolding flex_auth
let_in-by_key = refl

flex_auth-eq-next_example :
    ((lowers_with "" "bearer " ≡ true) × HasToken parse_token by_key "alice")
    ⊎ ((lowers_with "" "bearer " ≡ false)
        × HasKey hash_key postgres 2000 parse_token by_key (quiet with_robot) "alice")
flex_auth-eq-next_example =
    flex_auth-eq-next hash_key postgres 2000 parse_token by_key (quiet with_robot) "alice"
      let_in-by_key
