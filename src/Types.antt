-- ===== src/Types.antt =====
-- storage/types.go, storage/document_types.go and the row types of storage/apikey_store.go.
-- Times are numbers of nanoseconds; sizes, counts and page numbers are natural numbers.
use minio_3d.Base.{ℕ, String, Bool, true, false, Option, none, some}

pub record User : Type 0 where
  pub id : String
  pub email : String
  pub password_hash : String
  pub storage_bytes_used : ℕ
  pub storage_quota_bytes : ℕ
  pub created_at : ℕ

pub record FileMeta : Type 0 where
  pub id : String
  pub user_id : String
  pub object_key : String
  pub sha256 : String
  pub size : ℕ
  pub content_type : String
  pub ref_count : ℕ
  pub original_name : String
  pub created_at : ℕ
  pub deleted_at : Option ℕ

pub data DocumentStatus : Type 0 where
  processing ready failed : DocumentStatus

pub record Document : Type 0 where
  pub id : String
  pub user_id : String
  pub filename : String
  pub original_minio_path : String
  pub sha256 : String
  pub status : DocumentStatus
  pub total_pages : Option ℕ
  pub error_message : Option String
  pub size_bytes : ℕ
  pub created_at : ℕ
  pub updated_at : ℕ

pub record DocumentPage : Type 0 where
  pub id : String
  pub document_id : String
  pub page_number : ℕ
  pub minio_path : String
  pub size_bytes : ℕ

pub record WebhookSubscription : Type 0 where
  pub id : String
  pub user_id : String
  pub document_id : String
  pub url : String
  pub secret : String
  pub created_at : ℕ

pub record ApiKey : Type 0 where
  pub id : String
  pub user_id : String
  pub name : String
  pub key_hash : String
  pub prefix : String
  pub last_used_at : Option ℕ
  pub created_at : ℕ
  pub expires_at : Option ℕ

-- `deleted_at IS NULL`, and the like for any nullable column.
abbrev pub is_null {ℓ} : {A : Type ℓ} → Option A → Bool
is_null none = true
is_null (some _) = false
