-- ===== src/Storage/Mock.antt =====
-- testutil/testutil.go: `MockStorage`, an object store in memory, as a `Storage`.
pub mod Contents
use minio_3d.Base.{
  ℕ, String, Bool, true, ◌≡◌, ◌≢◌, Option, none, some, List, [], ◌∷◌, ◌==◌, eq_iff, eq_refl, arith,
  any, discard, Bool-cases, inl, inr, length,
}
use minio_3d.Errors.{Error, Result, ok, err}
use minio_3d.Exec.{Exec}
use minio_3d.Paths.{concat}
use minio_3d.Storage.{Bytes, Storage, IsObjectStore}

-- The fields that tests set make every call of a method fail.
pub record MockStorage : Type 0 where
  pub objects : List (String × Bytes)
  pub upload_err : Option Error
  pub get_presign_err : Option Error
  pub delete_err : Option Error

-- `m.objects[key] = data` and `delete(m.objects, key)`
abbrev put : String → Bytes → List (String × Bytes) → List (String × Bytes)
put key body objects = (key, body) ∷ discard (λ o. o.0 == key) objects

abbrev failing {ℓ} :
    {A : Type ℓ} → Option Error → Result A × MockStorage → MockStorage → Result A × MockStorage
failing none r m = r
failing (some e) r m = (err e, m)

-- `Upload`, given what `io.ReadAll(body)` returns.
unfoldable pub upload_read : String → Result Bytes → Exec MockStorage String
upload_read key (ok bytes) m =
    failing m.upload_err (ok key, record m { objects = put key bytes m.objects }) m
upload_read key (err e) m = failing m.upload_err (err e, m) m

-- `Upload` of a body that is read to its end.
unfoldable pub upload : String → Bytes → ℕ → String → Exec MockStorage String
unfolding upload_read
upload key body size content_type = upload_read key (ok body)

unfoldable pub get_presigned_url : String → Exec MockStorage String
get_presigned_url key m =
    failing m.get_presign_err
      (ok (concat ("https://mock-storage.test/" ∷ key ∷ "?token=signed" ∷ [])), m) m

-- `Has`, and `Exists`, which cannot fail.
unfoldable pub has : String → MockStorage → Bool
has key m = any (λ o. o.0 == key) m.objects

unfoldable pub exists : String → Exec MockStorage Bool
unfolding has
exists key m = (ok (has key m), m)

unfoldable pub delete : String → Exec MockStorage (Unit {0})
delete key m =
    failing m.delete_err (ok tt, record m { objects = discard (λ o. o.0 == key) m.objects }) m

-- `ObjectCount`
pub object_count : MockStorage → ℕ
object_count m = length m.objects

abbrev pub mock_storage : Storage MockStorage
mock_storage = record {
  upload = upload;
  get_presigned_url = get_presigned_url;
  exists = exists;
  delete = delete;
}

any-discard_ne :
    (key j : String) (os : List (String × Bytes))
    → key ≢ j
    → any (λ o. o.0 == j) os ≡ true
    → any (λ o. o.0 == j) (discard (λ o. o.0 == key) os) ≡ true
any-discard_ne key j [] ne h = h
any-discard_ne key j ((i, b) ∷ os) ne h =
    ground (arith, any-discard_ne key j os ne, eq_iff i key, eq_iff i j)

has-put :
    (key j : String) (body : Bytes) (os : List (String × Bytes))
    → any (λ o. o.0 == j) os ≡ true
    → any (λ o. o.0 == j) (put key body os) ≡ true
has-put key j body os h = elim (Bool-cases (key == j)) [
  | inl same ↦ rw same
  | inr ne ↦ rw (ne, any-discard_ne key j os (λ e. cc ((eq_iff key j).1 e)) h)
]

mock-uploaded :
    (key : String) (body : Bytes) (size : ℕ) (content_type : String) (m : MockStorage) (k : String)
    (m' : MockStorage)
    → upload key body size content_type m ≡ (ok k, m')
    → has key m' ≡ true
unfolding upload has
mock-uploaded key body size content_type m k m' h = ground (arith, eq_refl key)

mock-upload_keeps :
    (key : String) (body : Bytes) (size : ℕ) (content_type : String) (j : String) (m : MockStorage)
    → has j m ≡ true
    → has j (upload key body size content_type m).1 ≡ true
unfolding upload has
mock-upload_keeps key body size content_type j m h = ground (arith, has-put key j body m.objects)

mock-delete_keeps :
    (key j : String) (m : MockStorage) → key ≢ j → has j m ≡ true → has j (delete key m).1 ≡ true
unfolding delete has
mock-delete_keeps key j m ne h = ground (arith, any-discard_ne key j m.objects ne)

-- `MockStorage` keeps the laws of an object store, whichever failures a test has set.
pub mock-IsObjectStore : IsObjectStore mock_storage has
mock-IsObjectStore = record {
  uploaded = mock-uploaded;
  upload_keeps = mock-upload_keeps;
  delete_keeps = mock-delete_keeps;
}
