-- ===== src/Storage/Local.antt =====
-- storage/minio.go: `OpenFileWithMeta`, on a file of the local disk. The calls of `os.File` are what
-- the file says of them; the state is the number of files that are open. `detect` stands for
-- `http.DetectContentType`.
use minio_3d.Base.{ℕ, suc, ◌+◌, ◌-◌, String, ◌≡◌, arith}
use minio_3d.Errors.{Result, ok, err}
use minio_3d.Exec.{Exec, pure, raise, lift, recover, ◌>>=◌, ◌>>◌}
use minio_3d.Storage.{Bytes}

-- How opening, `Stat`, reading the first 512 bytes, and going back to the start end. The end of the
-- file is no error of the read.
pub record LocalFile : Type 0 where
  pub opening : Result (Unit {0})
  pub stat : Result ℕ
  pub first_read : Result Bytes
  pub rewinding : Result (Unit {0})

abbrev opened : Exec ℕ (Unit {0})
opened n = (ok tt, suc n)

abbrev close : Exec ℕ (Unit {0})
close n = (ok tt, n - 1)

-- `if err != nil { f.Close(); return err }`
abbrev closing {ℓ} : {A : Type ℓ} → Result A → Exec ℕ A
closing r = recover (lift r) λ e. close >> raise e

module _ (detect : Bytes → String) where
  unfoldable pub open_file_with_meta : LocalFile → Exec ℕ (ℕ × String)
  unfolding ◌>>=◌
  open_file_with_meta f = do
    lift f.opening
    opened
    size ← closing f.stat
    buf ← closing f.first_read
    closing f.rewinding
    pure (size, detect buf)

  abbrev held {ℓ} : {A : Type ℓ} → Result A → ℕ
  held (ok a) = 1
  held (err e) = 0

  -- A call that fails leaves as many files open as before, and one that succeeds leaves one more.
  open_file_with_meta_lem :
      (f : LocalFile) (n n' : ℕ) (r : Result (ℕ × String))
      → open_file_with_meta f n ≡ (r, n')
      → n' ≡ n + held r
  unfolding open_file_with_meta
  open_file_with_meta_lem f n n' (ok x) h = ground arith
  open_file_with_meta_lem f n n' (err e) h = ground arith
