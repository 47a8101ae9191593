-- ===== src/Storage/Connect.antt =====
-- storage/minio.go: `NewMinIOStorage`, which connects to the store and makes its bucket.
use minio_3d.Base.{ℕ, String, Bool, true, false, ◌≡◌, ap, if◌then◌else◌}
use mathlib.Core.Path.{subst}
use minio_3d.Errors.{Result, ok}
use minio_3d.Exec.{Exec, pure, lift, label, ◌>>=◌, ◌>>◌}
use minio_3d.Exec.Laws.{>>=-eq-ok, relabel-eq-ok}
use minio_3d.Storage.{MinioClient, MinIoStorage}

-- A connected client with its calls on buckets.
pub record MinioServer (W : Type 0) : Type 0 where
  pub client : MinioClient W
  pub bucket_exists : String → Exec W Bool
  pub make_bucket : String → Exec W (Unit {0})

-- What `minio.New` takes.
pub record Endpoint : Type 0 where
  pub address : String
  pub access_key : String
  pub secret_key : String
  pub use_ssl : Bool

module _ {W : Type 0} (new_client : Endpoint → Result (MinioServer W)) where
  unfoldable pub ensure_bucket : MinioServer W → String → Exec W (Unit {0})
  unfolding ◌>>=◌
  ensure_bucket server bucket = do
    exists ← label "minio bucket check" (server.bucket_exists bucket)
    if exists then pure tt else label "minio make bucket" (server.make_bucket bucket)

  unfoldable pub new_minio_storage : Endpoint → String → ℕ → Exec W (MinIoStorage W)
  unfolding ◌>>=◌ ensure_bucket
  new_minio_storage endpoint bucket presigned_minutes = do
    server ← label "minio client" (lift (new_client endpoint))
    ensure_bucket server bucket
    pure (record {
      client = server.client;
      bucket_name = bucket;
      presigned_url_minutes = presigned_minutes;
    })

-- What a server says of its buckets: a positive answer is true, and a bucket that was made is there.
pub record IsBucketServer {W : Type 0} (server : MinioServer W) (has : String → W → Bool)
    : Type 0 where
  pub told :
      (bucket : String) (w w' : W)
      → server.bucket_exists bucket w ≡ (ok true, w')
      → has bucket w' ≡ true
  pub made :
      (bucket : String) (w w' : W)
      → server.make_bucket bucket w ≡ (ok tt, w')
      → has bucket w' ≡ true

module _ {W : Type 0} (server : MinioServer W) (has : String → W → Bool)
    (laws : IsBucketServer server has) where
  settled :
      (bucket : String) (exists : Bool) (w w₁ w' : W)
      → server.bucket_exists bucket w ≡ (ok exists, w₁)
      → (if exists then pure tt else label "minio make bucket" (server.make_bucket bucket)) w₁
        ≡ (ok tt, w')
      → has bucket w' ≡ true
  settled bucket true w w₁ w' asked done =
      subst (λ v. has bucket v ≡ true) (ap (λ (q : Result (Unit {0}) × W). q.1) done)
        (laws.told bucket w w₁ asked)
  settled bucket false w w₁ w' asked done =
      laws.made bucket w₁ w'
        (relabel-eq-ok "minio make bucket" (server.make_bucket bucket w₁) tt w' done)

  -- After `ensure_bucket` has succeeded, the bucket is there, whether it was before or not.
  ensure_bucket-has :
      (new_client : Endpoint → Result (MinioServer W)) (bucket : String) (w w' : W)
      → ensure_bucket new_client server bucket w ≡ (ok tt, w')
      → has bucket w' ≡ true
  unfolding ensure_bucket
  ensure_bucket-has new_client bucket w w' h =
      let (exists, w₁, asked, rest) =
        >>=-eq-ok (label "minio bucket check" (server.bucket_exists bucket))
          (λ exists.
            if exists then pure tt else label "minio make bucket" (server.make_bucket bucket))
          w tt w' h in
      settled bucket exists w w₁ w'
        (relabel-eq-ok "minio bucket check" (server.bucket_exists bucket w) exists w₁ asked) rest
