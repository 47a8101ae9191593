-- ===== src/Maps.antt =====
-- Go's maps, as lists of keys and values. `range` goes through a map in an order of its own.
use minio_3d.Base.{
  ℕ, String, Bool, true, ◌≡◌, ◌≢◌, ◌↔◌, refl, Option, none, some, List, [], ◌∷◌, ◌==◌, eqb, eq_iff,
  arith, discard, if◌then◌else◌,
}

-- `==` on the keys.
pub record Key (K : Type 0) : Type 0 where
  pub same : K → K → Bool
  pub same_iff : (a b : K) → (same a b ≡ true) ↔ (a ≡ b)

pub eqb_iff : (a b : ℕ) → (eqb a b ≡ true) ↔ (a ≡ b)
eqb_iff a b = (λ h. ground arith, λ h. ground arith)

instance abbrev pub nat_key : Key ℕ
nat_key = record { same = eqb; same_iff = eqb_iff }

instance abbrev pub string_key : Key String
string_key = record { same = ◌==◌; same_iff = eq_iff }

abbrev pub GoMap : Type 0 → Type 0 → Type 0
GoMap K V = List (K × V)

same_self : {K : Type 0} ⦃e : Key K⦄ (k : K) → e.same k k ≡ true
same_self ⦃e⦄ k = (e.same_iff k k).1 refl

module _ {K V : Type 0} ⦃e : Key K⦄ where
  -- `v, ok := m[k]`
  abbrev pub find : K → GoMap K V → Option V
  find k [] = none
  find k (p ∷ m) = let rest = find k m in if e.same p.0 k then some p.1 else rest

  -- `delete(m, k)`
  abbrev pub remove : K → GoMap K V → GoMap K V
  remove k m = discard (λ p. e.same p.0 k) m

  -- `m[k] = v`
  abbrev pub put : K → V → GoMap K V → GoMap K V
  put k v m = (k, v) ∷ remove k m

  -- A write to what `m[k]` points to, when there is such a pointer.
  abbrev pub alter : K → (V → V) → GoMap K V → GoMap K V
  alter k f [] = []
  alter k f (p ∷ m) = (p.0, if e.same p.0 k then f p.1 else p.1) ∷ alter k f m

  abbrev pub values : GoMap K V → List V
  values [] = []
  values (p ∷ m) = p.1 ∷ values m

  pub find-remove : (k : K) (m : GoMap K V) → find k (remove k m) ≡ none
  find-remove k [] = refl
  find-remove k (p ∷ m) = ground (arith, find-remove k m)

  pub find-remove_ne : (k j : K) (m : GoMap K V) → k ≢ j → find j (remove k m) ≡ find j m
  find-remove_ne k j [] ne = refl
  find-remove_ne k j (p ∷ m) ne =
      ground (arith, find-remove_ne k j m ne, e.same_iff p.0 k, e.same_iff p.0 j)

  pub find-put : (k : K) (v : V) (m : GoMap K V) → find k (put k v m) ≡ some v
  find-put k v m = rw (same_self k)

  pub find-put_ne : (k j : K) (v : V) (m : GoMap K V) → k ≢ j → find j (put k v m) ≡ find j m
  find-put_ne k j v m ne = ground (arith, find-remove_ne k j m ne, e.same_iff k j)
