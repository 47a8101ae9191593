-- ===== src/Errors.antt =====
-- Go's error values: the sentinels that the packages export (storage/metadata.go,
-- service/document_service.go) and the database's own `sql.ErrNoRows`, other errors by their text,
-- and `fmt.Errorf("text: %w", err)`, which keeps the error that it wraps for `errors.Is`.
use minio_3d.Base.{String, Bool, true, false, ◌≡◌, ◌⊎◌, inl, inr, refl}
use Prim.Native.String.{◌++◌}

pub data Sentinel : Type 0 where
  not_found quota_exceeded not_ready invalid_pdf no_rows : Sentinel

pub data Error : Type 0 where
  sentinel : Sentinel → Error
  plain : String → Error
  wrap : String → Error → Error

pub data Result {ℓ} (A : Type ℓ) : Type ℓ where
  ok : A → Result A
  err : Error → Result A

-- The texts of the sentinels.
abbrev pub text : Sentinel → String
text Sentinel.not_found = "not found"
text Sentinel.quota_exceeded = "storage quota exceeded"
text Sentinel.not_ready = "document is not ready yet"
text Sentinel.invalid_pdf = "file is not a valid PDF"
text Sentinel.no_rows = "sql: no rows in result set"

-- `err.Error()`
unfoldable pub message : Error → String
message (sentinel s) = text s
message (plain m) = m
message (wrap m e) = m ++ (": " ++ message e)

abbrev pub same : Sentinel → Sentinel → Bool
same Sentinel.not_found Sentinel.not_found = true
same Sentinel.quota_exceeded Sentinel.quota_exceeded = true
same Sentinel.not_ready Sentinel.not_ready = true
same Sentinel.invalid_pdf Sentinel.invalid_pdf = true
same Sentinel.no_rows Sentinel.no_rows = true
same _ _ = false

-- `errors.Is(err, target)`
abbrev pub is : Error → Sentinel → Bool
is (sentinel s) t = same s t
is (plain _) t = false
is (wrap _ e) t = is e t

pub Result-cases {ℓ} :
    {A : Type ℓ} (r : Result A) → ((a : A) × (r ≡ ok a)) ⊎ ((e : Error) × (r ≡ err e))
Result-cases (ok a) = inl (a, refl)
Result-cases (err e) = inr (e, refl)
