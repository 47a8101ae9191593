-- ===== src/Metadata/Invariant.antt =====
-- The invariant of users and files: ids are unique, every user's usage is the size of the active
-- files plus what other components have charged, and it fits the quota.
pub mod Saving
pub mod Deleting
use minio_3d.Base.{
  ℕ, ◌+◌, ◌-◌, ◌≤◌, ◌≡◌, ◌≢◌, String, Bool, List, [], ◌∷◌, true, false, ◌==◌, arith, Bool-cases,
  inl, inr, refl, eq_iff, leb, none, some, select, update, discard, sym, ap, eq_refl, ◌++◌, ◌∙◌,
  if◌then◌else◌,
}
use mathlib.Core.Path.{subst}
use minio_3d.Errors.{Result, ok, err}
use minio_3d.Types.{FileMeta}
use minio_3d.Sql.{Tables, Postgres, Conn, one_row}
use minio_3d.Sql.Laws.{transaction-eq-err}
use minio_3d.Metadata.Accounts.{account, account-refunded, account-refunded_ne}
use minio_3d.Metadata.Bytes.{
  HasUniqueIds, share, file_bytes, file_bytes-append, file_bytes-referenced, file_bytes-decr,
  file_bytes-discard, file_bytes-mark, one_row-passes,
}
use minio_3d.Metadata.Ids.{
  append-HasUniqueIds, discard-HasUniqueIds, referenced-HasUniqueIds, soft_deleted-HasUniqueIds,
}
use minio_3d.Metadata.Quota.{Saved-account, Saved-account_ne}
use minio_3d.Metadata.Reads.{is_owned, canonical}
use minio_3d.Metadata.Save.{SaveResult, save, save_tx}
use minio_3d.Metadata.Save.Effect
use minio_3d.Metadata.Save.Effect.{referenced, any-referenced}
use minio_3d.Metadata.Delete.{DeleteResult, delete, delete_tx}
use minio_3d.Metadata.Delete.Effect as Deleted
use minio_3d.Metadata.Delete.Effect.{released, soft_deleted, refunded}

-- `charged` is what other components, such as the documents, have added to a user's usage.
pub record IsValid (charged : String → ℕ) (t : Tables) : Type 0 where
  pub ids : HasUniqueIds t.files
  pub usage :
      (user_id : String) (used quota : ℕ)
      → account user_id t ≡ ok (used, quota)
      → used ≡ charged user_id + file_bytes user_id t.files
  pub within :
      (user_id : String) (used quota : ℕ) → account user_id t ≡ ok (used, quota) → used ≤ quota

pub ok_pair : {a b c d : ℕ} → ◌≡◌ {A = Result (ℕ × ℕ)} (ok (a, b)) (ok (c, d)) → (a ≡ c) × (b ≡ d)
ok_pair h = ground arith

pub by_user :
    (user_id : String) (P : String → Type 0)
    → P user_id
    → ((who : String) → who ≢ user_id → P who)
    → (who : String) → P who
by_user user_id P self other who = elim (Bool-cases (who == user_id)) [
  | inl same ↦ subst P (sym ((eq_iff who user_id).0 same)) self
  | inr ne ↦ other who (λ p. cc ((eq_iff who user_id).1 p))
]

module _ (charged : String → ℕ) where
  -- One account of the invariant.
  abbrev pub Fits : String → Tables → Type 0
  Fits who t =
      (used quota : ℕ)
      → account who t ≡ ok (used, quota)
      → (used ≡ charged who + file_bytes who t.files) × (used ≤ quota)

  pub IsValid-of_Fits :
      (t : Tables) → HasUniqueIds t.files → ((who : String) → Fits who t) → IsValid charged t
  IsValid-of_Fits t ids fits = record {
    ids = ids;
    usage = λ who used quota h. (fits who used quota h).0;
    within = λ who used quota h. (fits who used quota h).1;
  }
