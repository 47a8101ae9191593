-- ===== src/Handlers/Accounts/Login.antt =====
-- handlers/auth.go: logging in after the registration.
use mathlib.Core.Path.{subst}
use minio_3d.Base.{
  ℕ, String, true, false, ◌≡◌, inl, inr, refl, sym, List, [], ◌∷◌, ◌++◌, ◌==◌, ◌||◌, arith, any,
  select, eq_refl, Bool-cases,
}
use minio_3d.Errors.{Error, Result, ok, err}
use minio_3d.Types.{User}
use minio_3d.Sql.{Tables, Postgres, Conn, quiet, one_row}
use minio_3d.Sql.Laws.{label-query-eq-ok}
use minio_3d.Sql.Reading.{or_not_found-read}
use minio_3d.Metadata.Reads.{insert_user, create_user, get_user_by_email}
use minio_3d.Handlers.{Response, respond, refuse, finish}
use minio_3d.Handlers.Accounts.{
  Claims, UserRepository, AuthHandler, Credentials, issue_token, token_response, created, verified,
  unknown_error, register, login,
}

-- `*MetadataStore` as the repository, as main.go composes them.
abbrev pub users_of : Postgres → UserRepository Conn
users_of pg = record {
  create_user = λ email hash quota. create_user pg email hash quota;
  get_user_by_email = λ email. get_user_by_email email;
}

only_new :
    (email : String) (us : List User) (u : User)
    → any (λ v. v.email == email) us ≡ false
    → (u.email == email) ≡ true
    → one_row (select (λ v. v.email == email) (us ++ u ∷ [])) ≡ ok u
only_new email [] u absent same = rw same refl
only_new email (v ∷ us) u absent same = ground (arith, only_new email us u)

either_absent :
    (email id : String) (us : List User)
    → any (λ v. v.email == email || v.id == id) us ≡ false
    → any (λ v. v.email == email) us ≡ false
either_absent email id [] h = refl
either_absent email id (v ∷ us) h = ground (arith, either_absent email id us)

module _ (pg : Postgres) (email hash : String) (quota : ℕ) where
  inserted :
      (t : Tables) (u : User) (t' : Tables)
      → insert_user pg email hash quota t ≡ ok (u, t')
      → (u.password_hash ≡ hash) × (one_row (select (λ v. v.email == email) t'.users) ≡ ok u)
  unfolding insert_user
  inserted t u t' h =
      elim (Bool-cases (any (λ v. v.email == email || v.id == pg.new_id t) t.users)) [
        | inl taken ↦ let q = rw taken at h in cc
        | inr free ↦
            let q = rw free at h in
            let same : t'.users ≡ t.users ++ u ∷ [] = ground arith in
            let hashed : u.password_hash ≡ hash = ground arith in
            let named : (u.email == email) ≡ true = ground (arith, eq_refl email) in
            (
              hashed,
              rw same
                  (only_new email t.users u (either_absent email (pg.new_id t) t.users free) named),
            )
      ]

  create_user-eq-ok :
      (c : Conn) (u : User) (c' : Conn)
      → create_user pg email hash quota c ≡ (ok u, c')
      → (u.password_hash ≡ hash) × ((get_user_by_email email (quiet c'.tables)).0 ≡ ok u)
  unfolding create_user get_user_by_email
  create_user-eq-ok c u c' h =
      let (hashed, row) =
        inserted c.tables u c'.tables
          (label-query-eq-ok "create user" (insert_user pg email hash quota) c u c' h) in
      (
        hashed,
        or_not_found-read "get user by email"
            (λ t. one_row (select (λ v. v.email == email) t.users)) c'.tables u row,
      )

module _ (pg : Postgres) (handler : AuthHandler Conn) where
  -- The handler over the metadata store.
  abbrev pub production : AuthHandler Conn
  production = record handler { repo = users_of pg }

  module _ (req : Credentials) (now later : ℕ) where
    -- The same user has the token of the registration and the token of the login.
    pub record LetIn (q : Response String × Conn) : Type 0 where
      pub id : String
      pub first_token : String
      pub token : String
      pub registered : q.0 ≡ respond 201 first_token
      pub first_issued : issue_token production now id ≡ ok first_token
      pub logged_in : (login production later (ok req) (quiet q.1.tables)).0 ≡ respond 200 token
      pub issued : issue_token production later id ≡ ok token

  module _
      (matches : (password hash : String)
        → handler.generate_from_password password ≡ ok hash
        → handler.compare_hash_and_password hash password ≡ true)
      (signs : (claims : Claims) → (token : String) × (handler.signed_string claims ≡ ok token))
      (req : Credentials) (now later : ℕ) where
    issues : (at : ℕ) (id : String) → (token : String) × (issue_token production at id ≡ ok token)
    unfolding issue_token
    issues at id = signs _

    let_in :
        (bad : Error → Response String) (user : User) (token : String) (q : Result User × Conn)
        → q.0 ≡ ok user
        → handler.compare_hash_and_password user.password_hash req.password ≡ true
        → issue_token production later user.id ≡ ok token
        → (finish bad (verified production later req) q).0 ≡ respond 200 token
    let_in bad user token (ok u, c) found good issued =
        let same : u ≡ user = ground arith in
        subst (λ (v : User). verified production later req v ≡ respond 200 token) (sym same)
          (rw (good, issued) refl)
    let_in bad user token (err e, c) found good issued = cc

    entered :
        (hash : String) (c : Conn) (q : Result User × Conn)
        → handler.generate_from_password req.password ≡ ok hash
        → create_user pg req.email hash handler.default_quota c ≡ q
        → (finish
            (λ _. refuse 409 "email already registered")
            (λ user. token_response production now 201 (issue_token production now user.id))
            q).0.status
          ≡ 201
        → LetIn req now later (
            finish
              (λ _. refuse 409 "email already registered")
              (λ user. token_response production now 201 (issue_token production now user.id))
              q)
    unfolding login
    entered hash c (err e, c') hashing h good = absurd (omega (arith, good))
    entered hash c (ok user, c') hashing h good =
        let (hashed, found) =
          create_user-eq-ok pg req.email hash handler.default_quota c user c' h in
        let (first, given) = issues now user.id in
        let (token, issued) = issues later user.id in
        record {
          id = user.id;
          first_token = first;
          token = token;
          registered = rw given refl;
          first_issued = given;
          logged_in =
              let_in (unknown_error production later) user token
                (get_user_by_email req.email (quiet c'.tables)) found
                (subst (λ x. handler.compare_hash_and_password x req.password ≡ true) (sym hashed)
                  (matches req.password hash hashing))
                issued;
          issued = issued;
        }

    answered :
        (c : Conn) (g : Result String)
        → handler.generate_from_password req.password ≡ g
        → (created production now req g c).0.status ≡ 201
        → LetIn req now later (created production now req g c)
    answered c (err e) hashing good = absurd (omega (arith, good))
    answered c (ok hash) hashing good =
        entered hash c (create_user pg req.email hash handler.default_quota c) hashing refl good

    -- When the registration of an account has been answered with status 201, a login with the same
    -- email and password finds that account and is answered with status 200 and a token that was
    -- issued for the same user as the one of the registration, provided that bcrypt's comparison
    -- accepts the password for each hash that it has made of it, that the jwt library does not fail
    -- to sign, and that the driver answers.
    pub login-register :
        (c : Conn)
        → (register production now (ok req) c).0.status ≡ 201
        → LetIn req now later (register production now (ok req) c)
    unfolding register
    login-register c good = answered c (handler.generate_from_password req.password) refl good
