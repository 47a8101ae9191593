-- ===== src/Storage.antt =====
-- storage/storage.go, the interface `Storage` of an object store, and its adapter in
-- storage/minio.go. The MinIO client is third-party code, and is a parameter.
pub mod Mock
pub mod Connect
pub mod Local
use minio_3d.Base.{
  ℕ, ◌*◌, String, Bool, true, false, ◌||◌, ◌≡◌, ◌≢◌, List, [], ◌∷◌, ◌==◌, eqb, ◌++◌, if◌then◌else◌,
}
use minio_3d.Errors.{Error, Result, ok, err}
use minio_3d.Paths.{concat}
use minio_3d.Exec.{Exec, pure, raise, label, recover, ◌>>=◌, ◌>>◌}

-- The bytes of an `io.Reader`.
abbrev pub Bytes : Type 0
Bytes = List ℕ

-- `W` is the state on which the store acts.
pub record Storage (W : Type 0) : Type 0 where
  pub upload : String → Bytes → ℕ → String → Exec W String
  pub get_presigned_url : String → Exec W String
  pub exists : String → Exec W Bool
  pub delete : String → Exec W (Unit {0})

-- What `storage.MinIOStorage` calls of minio-go: each takes the bucket first, and
-- `to_error_response` gives the code and the HTTP status of an error.
pub record MinioClient (W : Type 0) : Type 0 where
  pub put_object : String → String → Bytes → ℕ → String → Exec W (Unit {0})
  pub presigned_get_object : String → String → ℕ → Exec W String
  pub stat_object : String → String → Exec W (Unit {0})
  pub remove_object : String → String → Exec W (Unit {0})
  pub to_error_response : Error → String × ℕ

pub record MinIoStorage (W : Type 0) : Type 0 where
  pub client : MinioClient W
  pub bucket_name : String
  pub presigned_url_minutes : ℕ

-- `time.Minute` in nanoseconds.
abbrev pub minute : ℕ
minute = 60000000000

module _ {W : Type 0} (m : MinIoStorage W) where
  open m use {client, bucket_name, presigned_url_minutes}

  unfoldable pub is_not_found : Error → Bool
  is_not_found e = let resp = client.to_error_response e in resp.0 == "NoSuchKey" || eqb resp.1 404

  unfoldable pub upload : String → Bytes → ℕ → String → Exec W String
  unfolding ◌>>=◌
  upload key body size content_type =
      label (concat ("upload " ∷ key ∷ []))
        (client.put_object bucket_name key body size content_type)
      >> pure key

  unfoldable pub get_presigned_url : String → Exec W String
  get_presigned_url key =
      label (concat ("presign " ∷ key ∷ []))
        (client.presigned_get_object bucket_name key (presigned_url_minutes * minute))

  unfoldable pub exists : String → Exec W Bool
  unfolding ◌>>=◌ is_not_found
  exists key =
      recover (client.stat_object bucket_name key >> pure true)
        λ e. if is_not_found e then pure false else label (concat ("stat " ∷ key ∷ [])) (raise e)

  unfoldable pub delete : String → Exec W (Unit {0})
  delete key = label (concat ("delete " ∷ key ∷ [])) (client.remove_object bucket_name key)

  -- `*MinIOStorage` satisfies `Storage`.
  abbrev pub minio_storage : Storage W
  minio_storage = record {
    upload = upload;
    get_presigned_url = get_presigned_url;
    exists = exists;
    delete = delete;
  }

-- What the services rely on of an object store: `holds key w` says that an object is there. An
-- upload that ends well has stored its object, and no call removes the object of another key.
pub record IsObjectStore {W : Type 0} (store : Storage W) (holds : String → W → Bool) : Type 0 where
  pub uploaded :
      (key : String) (body : Bytes) (size : ℕ) (content_type : String) (w : W) (k : String) (w' : W)
      → store.upload key body size content_type w ≡ (ok k, w')
      → holds key w' ≡ true
  pub upload_keeps :
      (key : String) (body : Bytes) (size : ℕ) (content_type : String) (j : String) (w : W)
      → holds j w ≡ true
      → holds j (store.upload key body size content_type w).1 ≡ true
  pub delete_keeps :
      (key j : String) (w : W) → key ≢ j → holds j w ≡ true → holds j (store.delete key w).1 ≡ true
