-- ===== src/Metadata/Quota.antt =====
-- What `Save` and `Delete` do to the owner's account, and to every other account.
use minio_3d.Base.{
  ℕ, ◌+◌, ◌≤◌, ◌<◌, ◌≡◌, ◌≢◌, ◌↔◌, ap, String, false, arith, ltb, true, Bool-cases, inl, inr,
}
use minio_3d.Errors.{Result, ok, err, Sentinel, sentinel}
use minio_3d.Sql.{Tables, Postgres, Conn, quiet}
use minio_3d.Metadata.Accounts.{account, account-charged, account-charged_ne, account_in_range}
use minio_3d.Metadata.Save.{SaveResult, save, lock_user, exceeds, int64_end}
use minio_3d.Metadata.Save.Effect
use minio_3d.Metadata.Delete.Effect.{beside-eq-ok}

-- `bytesUsed+size > quota` wraps round, but the column then refuses the sum.
fits-le :
    (used size quota : ℕ)
    → exceeds used size quota ≡ false
    → ltb (used + size) int64_end ≡ true
    → used + size ≤ quota
fits-le used size quota e r = ground arith

module _ (pg : Postgres) (user_id object_key hash content_type original_name : String)
    (size : ℕ) where
  abbrev Saved : Tables → SaveResult → Tables → Type 0
  Saved = Effect.Effect pg user_id object_key hash content_type original_name size

  Saved-locked :
      (t : Tables) (r : SaveResult) (t' : Tables) (e : Saved t r t')
      → account user_id t ≡ ok (e.used, e.quota)
  unfolding lock_user
  Saved-locked t r t' e = (beside-eq-ok t (account user_id t) (e.used, e.quota) t e.locked).0

  -- The owner's account before and after, and the quota that the sum respects.
  pub Saved-account :
      (t : Tables) (r : SaveResult) (t' : Tables) (e : Saved t r t')
      → (account user_id t ≡ ok (e.used, e.quota))
        × (account user_id t' ≡ ok (e.used + size, e.quota))
        × (e.used + size ≤ e.quota)
  Saved-account t r t' e =
      let before = Saved-locked t r t' e in
      let after = account-charged user_id size t.users e.used e.quota before in
      let bound = account_in_range user_id size t.users e.used e.quota before e.in_range in
      (before, rw e.users after, fits-le e.used size e.quota e.fits (ground arith))

  pub Saved-account_ne :
      (t : Tables) (r : SaveResult) (t' : Tables) (e : Saved t r t') (other : String)
      → other ≢ user_id
      → account other t' ≡ account other t
  Saved-account_ne t r t' e other ne = rw e.users (account-charged_ne user_id size other t.users ne)

  -- When `Save` succeeds, the user's usage has grown by exactly the size of the file and still fits
  -- the quota, also where the sum of the check wraps round; no other account has changed.
  pub save-account :
      (c : Conn) (r : SaveResult) (c' : Conn)
      → save pg user_id object_key hash content_type original_name size c ≡ (ok r, c')
      → ((used : ℕ) × (quota : ℕ) × (account user_id c.tables ≡ ok (used, quota))
          × (account user_id c'.tables ≡ ok (used + size, quota))
          × (used + size ≤ quota))
        × ((other : String) → other ≢ user_id → account other c'.tables ≡ account other c.tables)
  save-account c r c' h =
      let e =
        Effect.save-Effect pg user_id object_key hash content_type original_name size c r c' h in
      let (before, after, bound) = Saved-account c.tables r c'.tables e in
      ((e.used, e.quota, before, after, bound), Saved-account_ne c.tables r c'.tables e)

  not_refused :
      (t : Tables) (used quota : ℕ)
      → account user_id t ≡ ok (used, quota)
      → exceeds used size quota ≡ false
      → (save pg user_id object_key hash content_type original_name size (quiet t)).0
        ≢ err (sentinel Sentinel.quota_exceeded)
  unfolding save
  not_refused t used quota h fits e = ground arith

  -- On a driver that answers, and for a user whose account is read: `Save` refuses a file with
  -- `ErrQuotaExceeded`, with the tables as they were, exactly when the file does not fit the quota and
  -- the sum of the check does not wrap round; a file that fills the quota to the last byte is not
  -- refused so.
  pub save-over_quota :
      (t : Tables) (used quota : ℕ)
      → account user_id t ≡ ok (used, quota)
      → (save pg user_id object_key hash content_type original_name size (quiet t)
          ≡ (err (sentinel Sentinel.quota_exceeded), quiet t))
        ↔ ((quota < used + size) × (used + size < int64_end))
  unfolding save
  save-over_quota t used quota h = (
    λ refused. elim (Bool-cases (exceeds used size quota)) [
      | inl over ↦ (ground arith, ground arith)
      | inr fits ↦
          absurd
            (not_refused t used quota h fits (ap (λ (q : Result SaveResult × Conn). q.0) refused))
    ],
    λ (over, fits). ground arith,
  )
