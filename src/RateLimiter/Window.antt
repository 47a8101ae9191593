-- ===== src/RateLimiter/Window.antt =====
-- The timestamps that the limiter keeps, counted at a later time.
use minio_3d.Base.{
  ℕ, ◌+◌, ◌≤◌, String, Bool, false, not, ◌≡◌, refl, List, [], ◌∷◌, ◌++◌, ◌==◌, eq_iff, arith, any,
  select, discard, length, count, if◌then◌else◌,
}
use minio_3d.RateLimiter.{timestamps, set_timestamps, is_recent}

-- How many of the times lie in the window that ends now.
abbrev pub recent : ℕ → ℕ → List ℕ → ℕ
recent window now ts = count (is_recent now window) ts

pub length-select :
    (window now : ℕ) (ts : List ℕ)
    → length (select (is_recent now window) ts) ≡ recent window now ts
length-select window now [] = refl
length-select window now (t ∷ ts) = ground (arith, length-select window now ts)

-- What is pruned now is not recent later either.
pub recent-select :
    (window now later : ℕ) (ts : List ℕ)
    → now ≤ later
    → recent window later (select (is_recent now window) ts) ≡ recent window later ts
recent-select window now later [] h = refl
recent-select window now later (t ∷ ts) h = ground (arith, recent-select window now later ts h)

pub recent-append :
    (window later t : ℕ) (ts : List ℕ)
    → recent window later (ts ++ t ∷ []) ≡ recent window later ts + recent window later (t ∷ [])
recent-append window later t [] = ground arith
recent-append window later t (s ∷ ts) = ground (arith, recent-append window later t ts)

pub timestamps-set_timestamps :
    (user who : String) (ts : List ℕ) (m : List (String × List ℕ))
    → timestamps who (set_timestamps user ts m) ≡ (if user == who then ts else timestamps who m)
timestamps-set_timestamps user who ts [] = refl
timestamps-set_timestamps user who ts ((u, us) ∷ m) =
    ground
      (arith, timestamps-set_timestamps user who ts m, eq_iff u user, eq_iff u who, eq_iff user who)

not_recent :
    (window now later : ℕ) (ts : List ℕ)
    → now ≤ later
    → any (is_recent now window) ts ≡ false
    → recent window later ts ≡ 0
not_recent window now later [] h e = refl
not_recent window now later (t ∷ ts) h e = ground (arith, not_recent window now later ts h)

-- A map has one entry for each key.
abbrev pub HasUniqueKeys : List (String × List ℕ) → Type 0
HasUniqueKeys [] = Unit
HasUniqueKeys ((u, ts) ∷ m) = (any (λ e. e.0 == u) m ≡ false) × HasUniqueKeys m

missing :
    (who : String) (m : List (String × List ℕ)) (p : String × List ℕ → Bool)
    → any (λ e. e.0 == who) m ≡ false
    → timestamps who (discard p m) ≡ []
missing who [] p h = refl
missing who ((u, ts) ∷ m) p h = ground (arith, missing who m p)

-- The entries that `cleanup` removes count for nothing from then on.
pub recent-discard :
    (window now later : ℕ) (who : String) (m : List (String × List ℕ))
    → now ≤ later
    → HasUniqueKeys m
    → recent window later (timestamps who (discard (λ e. not (any (is_recent now window) e.1)) m))
      ≡ recent window later (timestamps who m)
recent-discard window now later who [] h k = refl
recent-discard window now later who ((u, ts) ∷ m) h k = ground (
  arith,
  recent-discard window now later who m h k.1,
  not_recent window now later ts h,
  missing u m (λ e. not (any (is_recent now window) e.1)) k.0,
  eq_iff u who,
)

any-set_timestamps :
    (k user : String) (ts : List ℕ) (m : List (String × List ℕ))
    → any (λ e. e.0 == k) m ≡ false
    → (user == k) ≡ false
    → any (λ e. e.0 == k) (set_timestamps user ts m) ≡ false
any-set_timestamps k user ts [] h n = ground arith
any-set_timestamps k user ts ((u, us) ∷ m) h n = ground (arith, any-set_timestamps k user ts m)

pub set_timestamps-HasUniqueKeys :
    (user : String) (ts : List ℕ) (m : List (String × List ℕ))
    → HasUniqueKeys m
    → HasUniqueKeys (set_timestamps user ts m)
set_timestamps-HasUniqueKeys user ts [] k = (refl, tt)
set_timestamps-HasUniqueKeys user ts ((u, us) ∷ m) k = ground (
  arith,
  set_timestamps-HasUniqueKeys user ts m k.1,
  any-set_timestamps u user ts m k.0,
  eq_iff u user,
  eq_iff user u,
)

any-discard :
    (k : String) (p : String × List ℕ → Bool) (m : List (String × List ℕ))
    → any (λ e. e.0 == k) m ≡ false
    → any (λ e. e.0 == k) (discard p m) ≡ false
any-discard k p [] h = refl
any-discard k p (e ∷ m) h = ground (arith, any-discard k p m)

pub discard-HasUniqueKeys :
    (p : String × List ℕ → Bool) (m : List (String × List ℕ))
    → HasUniqueKeys m
    → HasUniqueKeys (discard p m)
discard-HasUniqueKeys p [] k = tt
discard-HasUniqueKeys p ((u, ts) ∷ m) k =
    ground (arith, discard-HasUniqueKeys p m k.1, any-discard u p m k.0)
