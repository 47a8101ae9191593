-- ===== src/Handlers.antt =====
-- handlers/: what the handlers answer. A response is a status with a body of JSON: the text of an
-- error, the answer to a document that is not ready, or the fields of a result.
pub mod Files
pub mod Documents
pub mod Accounts
use minio_3d.Base.{ℕ, String, if◌then◌else◌}
use minio_3d.Errors.{Error, Sentinel, Result, ok, err, message, is}

pub data Body (A : Type 0) : Type 0 where
  problem : String → Body A
  pending : String → String → Body A
  content : A → Body A

pub record Response (A : Type 0) : Type 0 where
  pub status : ℕ
  pub body : Body A

module _ {A : Type 0} where
  abbrev pub respond : ℕ → A → Response A
  respond status a = record { status = status; body = content a }

  -- `c.JSON(status, gin.H{"error": m})`
  abbrev pub refuse : ℕ → String → Response A
  refuse status m = record { status = status; body = problem m }

  -- `http.StatusInternalServerError` with the text of the error.
  abbrev pub internal_error : Error → Response A
  internal_error e = refuse 500 (message e)

  -- The answer to any error when `ErrNotFound` has its own.
  abbrev pub missing_error : String → Error → Response A
  missing_error m e = if is e Sentinel.not_found then refuse 404 m else internal_error e

  abbrev pub still_processing : Response A
  still_processing = record {
    status = 409;
    body = pending "document is still processing" "processing";
  }

  abbrev pub unready_error : String → Error → Response A
  unready_error m e =
      if is e Sentinel.not_found
      then refuse 404 m
      else if is e Sentinel.not_ready
      then still_processing
      else internal_error e

  abbrev pub quota_error : Error → Response A
  quota_error e =
      if is e Sentinel.quota_exceeded then refuse 429 "storage quota exceeded" else internal_error e

-- A call of a service, and the answer to its result or to its error.
abbrev pub finish :
    {W A B : Type 0} → (Error → Response B) → (A → Response B) → Result A × W → Response B × W
finish bad good (ok a, w) = (good a, w)
finish bad good (err e, w) = (bad e, w)
