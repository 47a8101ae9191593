-- ===== src/Auth/Identity.antt =====
-- Who a request is let in as.
use mathlib.Core.List.{Mem}
use minio_3d.Base.{ℕ, String, true, false, ◌≡◌, ◌⊎◌, inl, inr, refl, ◌==◌, arith, Bool-cases}
use minio_3d.Errors.{Result, ok, err}
use minio_3d.Paths.{lowers_with}
use minio_3d.Types.{ApiKey}
use minio_3d.Sql.{Conn, Postgres}
use minio_3d.ApiKeys.{is_expired, get_by_hash}
use minio_3d.ApiKeys.Lookup.{get_by_hash-eq-ok}
use minio_3d.Auth.{Request, next, extract_token, parsed, with_token, admitted, flex_auth}

module _ (parse_token : String → Result String) (r : Request) (user_id : String) where
  -- The identity comes from the token.
  abbrev pub HasToken : Type 0
  HasToken =
      (token : String) × (extract_token r.authorization ≡ ok token)
      × (parse_token token ≡ ok user_id)

  of_parsed : (res : Result String) → parsed res ≡ next user_id → res ≡ ok user_id
  of_parsed (ok u) h = ground arith
  of_parsed (err e) h = ground arith

  of_token :
      (res : Result String)
      → extract_token r.authorization ≡ res
      → with_token parse_token res ≡ next user_id
      → HasToken
  of_token (ok token) e h = (token, e, of_parsed (parse_token token) h)
  of_token (err x) e h = ground arith

module _ (hash_key : String → String) (pg : Postgres) (now : ℕ)
    (parse_token : String → Result String) where
  -- The identity comes from an API key.
  abbrev pub HasKey : Request → Conn → String → Type 0
  HasKey r c user_id =
      (k : ApiKey) × Mem k c.tables.api_keys
      × (k.key_hash ≡ hash_key r.x_api_key)
      × (is_expired now k.expires_at ≡ false)
      × (k.user_id ≡ user_id)

  of_admitted :
      (r : Request) (c : Conn) (user_id : String) (res : Result ApiKey × Conn)
      → get_by_hash hash_key now r.x_api_key c ≡ res
      → (admitted hash_key pg now res).0 ≡ next user_id
      → HasKey r c user_id
  of_admitted r c user_id (ok k, c₁) e h =
      let (m, hash, valid) = get_by_hash-eq-ok hash_key now r.x_api_key c k c₁ e in
      (k, m, hash, valid, ground arith)
  of_admitted r c user_id (err x, c₁) e h = ground arith

  -- `FlexAuth` lets a request in as a user only where its bearer token parses to that user, or where
  -- it has no bearer header and its API key has the hash of a row of that user that is not expired.
  pub flex_auth-eq-next :
      (r : Request) (c : Conn) (user_id : String)
      → (flex_auth hash_key pg now parse_token r c).0 ≡ next user_id
      → ((lowers_with r.authorization "bearer " ≡ true) × HasToken parse_token r user_id)
        ⊎ ((lowers_with r.authorization "bearer " ≡ false) × HasKey r c user_id)
  unfolding flex_auth
  flex_auth-eq-next r c user_id h = elim (Bool-cases (lowers_with r.authorization "bearer ")) [
    | inl bearer ↦ inl (
      bearer,
      of_token parse_token r user_id (extract_token r.authorization) refl (rw bearer at h),
    )
    | inr no_bearer ↦ elim (Bool-cases (r.x_api_key == "")) [
      | inl empty ↦ let q = rw (no_bearer, empty) at h in ground arith
      | inr given ↦ inr (
        no_bearer,
        of_admitted r c user_id (get_by_hash hash_key now r.x_api_key c) refl
            (rw (no_bearer, given) at h),
      )
    ]
  ]
