-- ===== src/ApiKeys/Lookup.antt =====
-- What `GetByHash` finds: a row of the table, and the key that `Create` has made.
use mathlib.Core.List.{Mem, mem-cons}
use mathlib.Core.Logic.Or
use mathlib.Core.Path.{subst, subst₂}
use minio_3d.Base.{
  ℕ, String, Bool, true, false, not, ◌||◌, ◌≡◌, refl, sym, ap, Option, List, [], ◌∷◌, ◌++◌, ◌==◌,
  eq_refl, eq_iff, arith, any, select, if◌then◌else◌, Bool-cases, inl, inr,
}
use minio_3d.Errors.{Result, ok, err, Sentinel, sentinel}
use minio_3d.Paths.{prefix}
use minio_3d.Types.{ApiKey}
use minio_3d.Exec.{pure, lift, label, guard, ◌>>=◌, ◌>>◌}
use minio_3d.Exec.Laws.{>>=-eq-ok}
use minio_3d.Sql.{
  Tables, Postgres, Conn, Sql, Statement, quiet, query, reading, beside, one_row, or_not_found,
}
use minio_3d.Sql.Laws.{label-query-eq-ok, or_not_found-query-eq-ok}
use minio_3d.ApiKeys.{
  CreateResult, new_key, insert_key, generate_raw_key, is_expired, create, get_by_hash,
}

abbrev has_key_hash : String → ApiKey → Bool
has_key_hash hash k = k.key_hash == hash

last_key :
    (ks : List ApiKey) (k : ApiKey)
    → any (λ j. j.id == k.id || j.key_hash == k.key_hash) ks ≡ false
    → select (has_key_hash k.key_hash) (ks ++ k ∷ []) ≡ k ∷ []
last_key [] k h = rw (eq_refl k.key_hash) refl
last_key (j ∷ ks) k h = ground (arith, last_key ks k)

module _ (hash_key : String → String) (pg : Postgres) (user_id name : String)
    (expires_at : Option ℕ) where
  abbrev inserting : String → Statement ApiKey
  inserting raw t =
      insert_key (new_key pg user_id name (hash_key raw) (prefix 8 raw) expires_at t) t

  record Made (raw : String) (k : ApiKey) (t' : Tables) : Type 0 where
    found : select (has_key_hash (hash_key raw)) t'.api_keys ≡ k ∷ []
    owner : k.user_id ≡ user_id
    expiry : k.expires_at ≡ expires_at

  inserted :
      (raw : String) (t : Tables) (k : ApiKey) (t' : Tables)
      → inserting raw t ≡ ok (k, t')
      → Made raw k t'
  unfolding insert_key
  inserted raw t k t' h = ground (arith, last_key t.api_keys k)

  abbrev storing : String → Sql CreateResult
  storing raw = label "insert api key" (query (inserting raw)) >>= λ k.
      pure (record { api_key = k; raw_key = raw })

  answered :
      (raw : String) (k : ApiKey) (c₁ : Conn) (r : CreateResult) (c' : Conn)
      → ◌≡◌ {A = Result CreateResult × Conn}
          (ok (record { api_key = k; raw_key = raw }), c₁)
          (ok r, c')
      → (raw ≡ r.raw_key) × (k ≡ r.api_key) × (c₁ ≡ c')
  answered raw k c₁ r c' h = ground arith

  stored :
      (raw : String) (c : Conn) (r : CreateResult) (c' : Conn)
      → storing raw c ≡ (ok r, c')
      → Made r.raw_key r.api_key c'.tables
  stored raw c r c' h =
      let (k, c₁, put, rest) =
        >>=-eq-ok (label "insert api key" (query (inserting raw)))
          (λ k. pure (record { api_key = k; raw_key = raw })) c r c' h in
      let e =
        inserted raw c.tables k c₁.tables
          (label-query-eq-ok "insert api key" (inserting raw) c k c₁ put) in
      let (same_raw, same_key, same_conn) = answered raw k c₁ r c' rest in
      subst₂ (λ x t. Made x r.api_key t) same_raw (ap (λ (d : Conn). d.tables) same_conn)
        (subst (λ x. Made raw x c₁.tables) same_key e)

  created :
      (random : Result String) (c : Conn) (r : CreateResult) (c' : Conn)
      → create hash_key pg random user_id name expires_at c ≡ (ok r, c')
      → Made r.raw_key r.api_key c'.tables
  unfolding create
  created random c r c' h =
      let (raw, c₁, drawn, rest) =
        >>=-eq-ok (label "generate key" (lift (generate_raw_key random))) storing c r c' h in
      stored raw c₁ r c' rest

  -- On a driver that answers, the raw key that `Create` has returned finds its row, under its
  -- owner, until it has expired, and is "not found" afterwards; a key without expiry is found at any
  -- time.
  pub get_by_hash-create :
      (random : Result String) (c : Conn) (r : CreateResult) (c' : Conn) (now : ℕ)
      → create hash_key pg random user_id name expires_at c ≡ (ok r, c')
      → (get_by_hash hash_key now r.raw_key (quiet c'.tables) ≡ (
        if is_expired now expires_at then err (sentinel Sentinel.not_found) else ok r.api_key,
        quiet c'.tables,
      ))
        × (r.api_key.user_id ≡ user_id)
  unfolding get_by_hash
  get_by_hash-create random c r c' now h =
      let made = created random c r c' h in
      (
        elim (Bool-cases (is_expired now expires_at)) [
          | inl late ↦ rw (made.found, made.expiry, late) refl
          | inr valid ↦ rw (made.found, made.expiry, valid) refl
        ],
        made.owner,
      )

mem_of_one_row :
    (p : ApiKey → Bool) (ks : List ApiKey) (k : ApiKey)
    → one_row (select p ks) ≡ ok k
    → (p k ≡ true) × Mem k ks
mem_of_one_row p [] k h = cc
mem_of_one_row p (j ∷ ks) k h = elim (Bool-cases (p j)) [
  | inl hit ↦ let e : j ≡ k = one (rw hit at h) in (rw (sym e) hit, mem-cons.1 (Or.inl (sym e)))
  | inr miss ↦
      let (passes, m) = mem_of_one_row p ks k (rw miss at h) in (passes, mem-cons.1 (Or.inr m))
]
  where
    one : {i : ApiKey} → ◌≡◌ {A = Result ApiKey} (ok i) (ok k) → i ≡ k
    one h = ground arith

module _ (hash_key : String → String) (now : ℕ) where
  abbrev first_of : String → Tables → Result ApiKey
  first_of raw t = one_row (select (has_key_hash (hash_key raw)) t.api_keys)

  abbrev unless_expired : ApiKey → Sql ApiKey
  unless_expired k =
      guard (not (is_expired now k.expires_at)) (sentinel Sentinel.not_found) >> pure k

  read_rows :
      (res : Result ApiKey) (t t' : Tables) (k : ApiKey) → beside t res ≡ ok (k, t') → res ≡ ok k
  read_rows (ok j) t t' k h = ground arith
  read_rows (err e) t t' k h = cc

  passed :
      (k j : ApiKey) (c₁ c' : Conn)
      → unless_expired j c₁ ≡ (ok k, c')
      → (j ≡ k) × (is_expired now j.expires_at ≡ false)
  unfolding ◌>>=◌
  passed k j c₁ c' h = elim (Bool-cases (is_expired now j.expires_at)) [
    | inl late ↦ let q = rw late at h in ground arith
    | inr valid ↦ let q = rw valid at h in (ground arith, valid)
  ]

  -- A row that `GetByHash` returns is a row of the table, has the hash of the key and is not
  -- expired.
  pub get_by_hash-eq-ok :
      (raw : String) (c : Conn) (k : ApiKey) (c' : Conn)
      → get_by_hash hash_key now raw c ≡ (ok k, c')
      → Mem k c.tables.api_keys
        × (k.key_hash ≡ hash_key raw)
        × (is_expired now k.expires_at ≡ false)
  unfolding get_by_hash
  get_by_hash-eq-ok raw c k c' h =
      let (j, c₁, read, rest) =
        >>=-eq-ok (or_not_found "get api key" (query (reading (first_of raw)))) unless_expired c k
          c' h in
      let (same, valid) = passed k j c₁ c' rest in
      let rows =
        read_rows (first_of raw c.tables) c.tables c₁.tables j
          (or_not_found-query-eq-ok "get api key" (reading (first_of raw)) c j c₁ read) in
      let (hit, m) = mem_of_one_row (has_key_hash (hash_key raw)) c.tables.api_keys j rows in
      rw (sym same) (m, (eq_iff j.key_hash (hash_key raw)).0 hit, valid)
