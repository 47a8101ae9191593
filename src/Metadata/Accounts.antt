-- ===== src/Metadata/Accounts.antt =====
-- A user's account, and what the updates of `users` do to it.
use minio_3d.Base.{
  ℕ, ◌+◌, ◌-◌, ◌<◌, String, false, ◌&&◌, ◌≡◌, ◌≢◌, refl, List, [], ◌∷◌, ◌==◌, eq_iff, arith, leb,
  any, select,
}
use minio_3d.Errors.{Error, Result, ok, err}
use minio_3d.Types.{User}
use minio_3d.Sql.{Tables}
use minio_3d.Metadata.Save.{quotas, int64_end}
use minio_3d.Metadata.Save.Effect.{charged}
use minio_3d.Metadata.Delete.Effect.{refunded}

-- The used bytes and the quota of the row that `SELECT ... WHERE id = $1` reads.
abbrev pub account : String → Tables → Result (ℕ × ℕ)
account user_id t = quotas (select (λ u. u.id == user_id) t.users)

module _ (user_id : String) (size : ℕ) where
  pub account-charged :
      (us : List User) (used quota : ℕ)
      → quotas (select (λ u. u.id == user_id) us) ≡ ok (used, quota)
      → quotas (select (λ u. u.id == user_id) (charged user_id size us)) ≡ ok (used + size, quota)
  account-charged [] used quota h = cc
  account-charged (u ∷ us) used quota h = ground (arith, account-charged us used quota)

  pub account-refunded :
      (us : List User) (used quota : ℕ)
      → quotas (select (λ u. u.id == user_id) us) ≡ ok (used, quota)
      → quotas (select (λ u. u.id == user_id) (refunded user_id size us)) ≡ ok (used - size, quota)
  account-refunded [] used quota h = cc
  account-refunded (u ∷ us) used quota h = ground (arith, account-refunded us used quota)

  account-refunded_err :
      (us : List User) (x : Error)
      → quotas (select (λ u. u.id == user_id) us) ≡ err x
      → quotas (select (λ u. u.id == user_id) (refunded user_id size us)) ≡ err x
  account-refunded_err [] x h = h
  account-refunded_err (u ∷ us) x h = ground (arith, account-refunded_err us x)

  pub account-charged_ne :
      (other : String) (us : List User)
      → other ≢ user_id
      → quotas (select (λ u. u.id == other) (charged user_id size us))
        ≡ quotas (select (λ u. u.id == other) us)
  account-charged_ne other [] h = refl
  account-charged_ne other (u ∷ us) h =
      ground (arith, account-charged_ne other us h, eq_iff u.id other, eq_iff u.id user_id)

  pub account-refunded_ne :
      (other : String) (us : List User)
      → other ≢ user_id
      → quotas (select (λ u. u.id == other) (refunded user_id size us))
        ≡ quotas (select (λ u. u.id == other) us)
  account-refunded_ne other [] h = refl
  account-refunded_ne other (u ∷ us) h =
      ground (arith, account-refunded_ne other us h, eq_iff u.id other, eq_iff u.id user_id)

  -- The sum that the column was given is one that it can hold.
  pub account_in_range :
      (us : List User) (used quota : ℕ)
      → quotas (select (λ u. u.id == user_id) us) ≡ ok (used, quota)
      → any (λ u. u.id == user_id && leb int64_end (u.storage_bytes_used + size)) us ≡ false
      → used + size < int64_end
  account_in_range [] used quota h r = cc
  account_in_range (u ∷ us) used quota h r = ground (arith, account_in_range us used quota)

  account_before :
      (us : List User) (r : Result (ℕ × ℕ)) (used quota : ℕ)
      → quotas (select (λ u. u.id == user_id) us) ≡ r
      → quotas (select (λ u. u.id == user_id) (refunded user_id size us)) ≡ ok (used, quota)
      → (old : ℕ) × (r ≡ ok (old, quota)) × (used ≡ old - size)
  account_before us (ok (old, q)) used quota e h =
      let now = account-refunded us old q e in (old, ground arith, ground arith)
  account_before us (err x) used quota e h = let now = account-refunded_err us x e in cc

  -- An account that stands after a refund stood before it, with the same quota.
  pub account_before_refund :
      (us : List User) (used quota : ℕ)
      → quotas (select (λ u. u.id == user_id) (refunded user_id size us)) ≡ ok (used, quota)
      → (old : ℕ) × (quotas (select (λ u. u.id == user_id) us) ≡ ok (old, quota))
        × (used ≡ old - size)
  account_before_refund us used quota h =
      account_before us (quotas (select (λ u. u.id == user_id) us)) used quota refl h
