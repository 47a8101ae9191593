-- ===== src/Sql/Laws.antt =====
-- Inversion of a successful call, and what a transaction that fails leaves behind.
use minio_3d.Base.{String, Option, none, some, ◌≡◌, refl, sym, ap, ◌∙◌, List, [], ◌∷◌, arith}
use minio_3d.Errors.{Error, Result, ok, err}
use minio_3d.Exec.{relabel, label, continue}
use minio_3d.Exec.Laws.{>>=-eq-ok, relabel-eq-ok}
use minio_3d.Sql.Core.{
  Tables, Conn, Sql, Statement, answer, issue, query, touch, committed, conclude, transaction,
}
use minio_3d.Sql.Rows.{translate, or_not_found}

module _ {ℓ} {A : Type ℓ} where
  answer-eq-ok :
      (r : Result (A × Tables)) (t : Tables) (fs : List (Option String)) (a : A) (c' : Conn)
      → answer r t fs ≡ (ok a, c')
      → r ≡ ok (a, c'.tables)
  answer-eq-ok (ok (b, t')) t fs a c' h = ground arith
  answer-eq-ok (err e) t fs a c' h = cc

  issue-eq-ok :
      (fs : List (Option String)) (q : Statement A) (t : Tables) (a : A) (c' : Conn)
      → issue fs q t ≡ (ok a, c')
      → q t ≡ ok (a, c'.tables)
  issue-eq-ok [] q t a c' h = answer-eq-ok (q t) t [] a c' h
  issue-eq-ok (none ∷ fs) q t a c' h = answer-eq-ok (q t) t fs a c' h
  issue-eq-ok (some m ∷ fs) q t a c' h = cc

  pub query-eq-ok :
      (q : Statement A) (c : Conn) (a : A) (c' : Conn)
      → query q c ≡ (ok a, c')
      → q c.tables ≡ ok (a, c'.tables)
  unfolding query
  query-eq-ok q c a c' h = issue-eq-ok c.faults q c.tables a c' h

  pub label-query-eq-ok :
      (m : String) (q : Statement A) (c : Conn) (a : A) (c' : Conn)
      → label m (query q) c ≡ (ok a, c')
      → q c.tables ≡ ok (a, c'.tables)
  label-query-eq-ok m q c a c' h = query-eq-ok q c a c' (relabel-eq-ok m (query q c) a c' h)

  translate-eq-ok :
      (m : String) (r : Result A × Conn) (a : A) (c' : Conn)
      → translate m r ≡ (ok a, c')
      → r ≡ (ok a, c')
  translate-eq-ok m (ok b, c) a c' h = h
  translate-eq-ok m (err e, c) a c' h = cc

  pub or_not_found-query-eq-ok :
      (m : String) (q : Statement A) (c : Conn) (a : A) (c' : Conn)
      → or_not_found m (query q) c ≡ (ok a, c')
      → q c.tables ≡ ok (a, c'.tables)
  or_not_found-query-eq-ok m q c a c' h =
      query-eq-ok q c a c' (translate-eq-ok m (query q c) a c' h)

-- A call that fails has changed nothing.
module _ {ℓ} {A : Type ℓ} where
  answer-eq-err :
      (r : Result (A × Tables)) (t : Tables) (fs : List (Option String)) (e : Error) (c' : Conn)
      → answer r t fs ≡ (err e, c')
      → c'.tables ≡ t
  answer-eq-err (ok (b, t')) t fs e c' h = cc
  answer-eq-err (err x) t fs e c' h = ground arith

  issue-eq-err :
      (fs : List (Option String)) (q : Statement A) (t : Tables) (e : Error) (c' : Conn)
      → issue fs q t ≡ (err e, c')
      → c'.tables ≡ t
  issue-eq-err [] q t e c' h = answer-eq-err (q t) t [] e c' h
  issue-eq-err (none ∷ fs) q t e c' h = answer-eq-err (q t) t fs e c' h
  issue-eq-err (some m ∷ fs) q t e c' h = ground arith

  pub query-eq-err :
      (q : Statement A) (c : Conn) (e : Error) (c' : Conn)
      → query q c ≡ (err e, c')
      → c'.tables ≡ c.tables
  unfolding query
  query-eq-err q c e c' h = issue-eq-err c.faults q c.tables e c' h

  relabelled-eq-err :
      (m : String) (r : Result A × Conn) (e : Error) (c' : Conn)
      → relabel m r ≡ (err e, c')
      → (x : Error) × (r ≡ (err x, c'))
  relabelled-eq-err m (ok a, c) e c' h = cc
  relabelled-eq-err m (err x, c) e c' h = (x, ground arith)

  pub label-query-eq-err :
      (m : String) (q : Statement A) (c : Conn) (e : Error) (c' : Conn)
      → label m (query q) c ≡ (err e, c')
      → c'.tables ≡ c.tables
  label-query-eq-err m q c e c' h =
      let (x, r) = relabelled-eq-err m (query q c) e c' h in query-eq-err q c x c' r

-- A driver that goes on to answer still does after a call.
module _ {ℓ} {A : Type ℓ} where
  answer-faults : (r : Result (A × Tables)) (t : Tables) → (answer r t []).1.faults ≡ []
  answer-faults (ok (a, t')) t = refl
  answer-faults (err e) t = refl

  pub query-faults : (q : Statement A) (c : Conn) → c.faults ≡ [] → (query q c).1.faults ≡ []
  unfolding query
  query-faults q c h = rw h (answer-faults (q c.tables) c.tables)

  pub relabel-state : (m : String) (r : Result A × Conn) → (relabel m r).1 ≡ r.1
  relabel-state m (ok a, c) = refl
  relabel-state m (err e, c) = refl

  pub label-query-faults :
      (m : String) (q : Statement A) (c : Conn) (r : Result A) (c' : Conn)
      → c.faults ≡ []
      → label m (query q) c ≡ (r, c')
      → c'.faults ≡ []
  label-query-faults m q c r c' quiet_before h =
      ap (λ (p : Result A × Conn). p.1.faults) (sym h)
      ∙ ap (λ (d : Conn). d.faults) (relabel-state m (query q c))
      ∙ query-faults q c quiet_before

touch-keeps : (c : Conn) (u : Unit) (c' : Conn) → query touch c ≡ (ok u, c') → c'.tables ≡ c.tables
touch-keeps c u c' h = ground (arith, query-eq-ok touch c u c' h)

module _ {ℓ} {A : Type ℓ} where
  committed-eq-ok :
      (m : String) (t : Tables) (x : A) (r : Result (Unit {0}) × Conn) (a : A) (c' : Conn)
      → committed m t x r ≡ (ok a, c')
      → (x ≡ a) × (r ≡ (ok tt, c'))
  committed-eq-ok m t x (ok tt, c) a c' h = ground arith
  committed-eq-ok m t x (err e, c) a c' h = cc

  committed-eq-err :
      (m : String) (t : Tables) (x : A) (r : Result (Unit {0}) × Conn) (e : Error) (c' : Conn)
      → committed m t x r ≡ (err e, c')
      → c'.tables ≡ t
  committed-eq-err m t x (ok tt, c) e c' h = cc
  committed-eq-err m t x (err y, c) e c' h = ground arith

  conclude-eq-ok :
      (m : String) (t : Tables) (r : Result A × Conn) (a : A) (c' : Conn)
      → conclude m t r ≡ (ok a, c')
      → (c₂ : Conn) × (r ≡ (ok a, c₂)) × (c'.tables ≡ c₂.tables)
  conclude-eq-ok m t (ok x, c) a c' h =
      let p = committed-eq-ok m t x (query touch c) a c' h in
      (c, ground arith, touch-keeps c tt c' p.1)
  conclude-eq-ok m t (err e, c) a c' h = cc

  conclude-eq-err :
      (m : String) (t : Tables) (r : Result A × Conn) (e : Error) (c' : Conn)
      → conclude m t r ≡ (err e, c')
      → c'.tables ≡ t
  conclude-eq-err m t (ok x, c) e c' h = committed-eq-err m t x (query touch c) e c' h
  conclude-eq-err m t (err x, c) e c' h = ground arith

  -- A transaction that succeeds has run its body on the tables that it found.
  pub transaction-eq-ok :
      (m : String) (body : Sql A) (c : Conn) (a : A) (c' : Conn)
      → transaction m body c ≡ (ok a, c')
      → (c₁ : Conn) × (c₂ : Conn) × (c₁.tables ≡ c.tables)
        × (body c₁ ≡ (ok a, c₂))
        × (c'.tables ≡ c₂.tables)
  unfolding transaction
  transaction-eq-ok m body c a c' h =
      let (u, c₁, began, rest) =
        >>=-eq-ok (label "begin tx" (query touch)) (λ _ c₁. conclude m c₁.tables (body c₁)) c a c'
          h in
      let (c₂, ran, same) = conclude-eq-ok m c₁.tables (body c₁) a c' rest in
      (c₁, c₂, ground (arith, label-query-eq-ok "begin tx" touch c u c₁ began), ran, same)

  begun-eq-err :
      (m : String) (body : Sql A) (c : Conn) (r : Result (Unit {0}) × Conn) (e : Error) (c' : Conn)
      → query touch c ≡ r
      → continue (relabel "begin tx" r) (λ _ c₁. conclude m c₁.tables (body c₁)) ≡ (err e, c')
      → c'.tables ≡ c.tables
  begun-eq-err m body c (ok u, c₁) e c' q h =
      conclude-eq-err m c₁.tables (body c₁) e c' h ∙ touch-keeps c u c₁ q
  begun-eq-err m body c (err x, c₁) e c' q h = ground (arith, query-eq-err touch c x c₁ q)

  -- A transaction that fails, in its body, at its beginning or at its commit, changes no table.
  pub transaction-eq-err :
      (m : String) (body : Sql A) (c : Conn) (e : Error) (c' : Conn)
      → transaction m body c ≡ (err e, c')
      → c'.tables ≡ c.tables
  unfolding transaction
  transaction-eq-err m body c e c' h = begun-eq-err m body c (query touch c) e c' refl h
