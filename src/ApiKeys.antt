-- ===== src/ApiKeys.antt =====
-- storage/apikey_store.go: `APIKeyStore`, the API keys in the database. The hash of a raw key, a
-- hexadecimal SHA-256, and the random part of a new one are parameters.
pub mod Lookup
use minio_3d.Base.{
  ℕ, String, Bool, false, not, ◌&&◌, ◌||◌, Option, none, some, List, [], ◌∷◌, ◌++◌, ◌==◌, ltb, leb,
  eqb, any, count, select, update, discard, order_by, if◌then◌else◌,
}
use minio_3d.Errors.{Sentinel, sentinel, Result, ok, err}
use minio_3d.Paths.{concat, prefix}
use minio_3d.Types.{ApiKey}
use minio_3d.Exec.{pure, raise, lift, label, ignore, guard, ◌>>=◌, ◌>>◌}
use minio_3d.Sql.{
  Tables, Postgres, Sql, Statement, query, reading, violation, one_row, or_not_found,
}

-- `CreateResult`
pub record CreateResult : Type 0 where
  pub api_key : ApiKey
  pub raw_key : String

-- The row that `INSERT INTO api_keys` describes.
abbrev pub new_key : Postgres → String → String → String → String → Option ℕ → Tables → ApiKey
new_key pg user_id name hash key_prefix expires_at t = record {
  id = pg.new_id t;
  user_id = user_id;
  name = name;
  key_hash = hash;
  prefix = key_prefix;
  last_used_at = none;
  created_at = pg.now t;
  expires_at = expires_at;
}

-- `id` and `key_hash` are unique, and `user_id` refers to a user.
unfoldable pub insert_key : ApiKey → Statement ApiKey
insert_key k t =
    if any (λ j. j.id == k.id || j.key_hash == k.key_hash) t.api_keys
      || not (any (λ u. u.id == k.user_id) t.users)
    then err violation
    else ok (k, record t { api_keys = t.api_keys ++ k ∷ [] })

-- `generateRawKey`, on the hexadecimal text of the random bytes or the error of reading them.
unfoldable pub generate_raw_key : Result String → Result String
generate_raw_key (ok hex) = ok (concat ("msk_" ∷ hex ∷ []))
generate_raw_key (err e) = err e

-- `k.ExpiresAt != nil && time.Now().After(*k.ExpiresAt)`
abbrev pub is_expired : ℕ → Option ℕ → Bool
is_expired now none = false
is_expired now (some e) = ltb e now

abbrev pub is_key_of : String → String → ApiKey → Bool
is_key_of id user_id k = k.id == id && k.user_id == user_id

-- `DELETE FROM api_keys WHERE id = $1 AND user_id = $2`, and `RowsAffected`.
unfoldable pub delete_key : String → String → Statement ℕ
delete_key id user_id t = ok (
  count (is_key_of id user_id) t.api_keys,
  record t { api_keys = discard (is_key_of id user_id) t.api_keys },
)

unfoldable pub delete : String → String → Sql (Unit {0})
unfolding query delete_key ◌>>=◌
delete id user_id = label "delete api key" (query (delete_key id user_id)) >>= λ n.
    guard (not (eqb n 0)) (sentinel Sentinel.not_found)

unfoldable pub list_by_user : String → Sql (List ApiKey)
unfolding query
list_by_user user_id = label "list api keys" (
    query (
      reading (λ t. ok (
        order_by (λ j k. leb k.created_at j.created_at)
          (select (λ k. k.user_id == user_id) t.api_keys)))))

-- `UPDATE api_keys SET last_used_at = NOW() WHERE id = $1`
unfoldable pub set_last_used : Postgres → String → Statement (Unit {0})
set_last_used pg id t = ok (
  tt,
  record t {
    api_keys =
        update (λ k. k.id == id) (λ k. record k { last_used_at = some (pg.now t) }) t.api_keys;
  },
)

-- The goroutine of `TouchLastUsed` runs at once here; its errors are dropped.
unfoldable pub touch_last_used : Postgres → String → Sql (Unit {0})
unfolding query set_last_used
touch_last_used pg id = ignore (query (set_last_used pg id))

module _ (hash_key : String → String) where
  unfoldable pub create : Postgres → Result String → String → String → Option ℕ → Sql CreateResult
  unfolding query insert_key generate_raw_key ◌>>=◌
  create pg random user_id name expires_at = do
    raw ← label "generate key" (lift (generate_raw_key random))
    k ← label "insert api key" (
        query
          (λ t. insert_key (new_key pg user_id name (hash_key raw) (prefix 8 raw) expires_at t) t))
    pure (record { api_key = k; raw_key = raw })

  unfoldable pub get_by_hash : ℕ → String → Sql ApiKey
  unfolding query ◌>>=◌
  get_by_hash now raw_key = do
    k ←
        or_not_found "get api key"
          (query (reading (λ t. one_row (select (λ k. k.key_hash == hash_key raw_key) t.api_keys))))
    guard (not (is_expired now k.expires_at)) (sentinel Sentinel.not_found)
    pure k
