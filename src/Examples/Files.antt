-- ===== src/Examples/Files.antt =====
-- Files: a run of the service, and the theorems on metadata and uploads at concrete inputs.
use minio_3d.Base.{
  ◌↔◌, ◌<◌, ℕ, ◌+◌, any, ◌⊎◌, String, ◌≡◌, ◌≢◌, ◌≤◌, refl, true, false, [], ◌∷◌, arith,
}
use mathlib.Core.List.{Mem}
use minio_3d.Errors.{ok, err, Sentinel, sentinel}
use minio_3d.Types.{FileMeta}
use minio_3d.Sql.{Tables, quiet}
use minio_3d.Metadata.Save.{save, int64_end}
use minio_3d.Metadata.Delete.{delete}
use minio_3d.Metadata.Reads.{holds_hash}
use minio_3d.Metadata.Dedup.{save-dedup}
use minio_3d.FileService.Production.{delete-save}
use minio_3d.Metadata.Accounts.{account}
use minio_3d.Metadata.Quota.{save-account, save-over_quota}
use minio_3d.Metadata.Invariant.{IsValid}
use minio_3d.Metadata.Invariant.Saving.{save-IsValid}
use minio_3d.Metadata.Invariant.Deleting.{delete-IsValid}
use minio_3d.Examples.Data.{postgres, alice, only_alice, first_file, with_first_file}

-- Alice saves ten bytes.
save-first :
    save postgres "alice" "users/alice/h/a.txt" "h" "text/plain" "a.txt" 10 (quiet only_alice)
    ≡ (ok (record { file = first_file; duplicate = false }), quiet with_first_file)
unfolding save
save-first = refl

save-account_example :
    ((used : ℕ) × (quota : ℕ) × (account "alice" only_alice ≡ ok (used, quota))
      × (account "alice" with_first_file ≡ ok (used + 10, quota))
      × (used + 10 ≤ quota))
    × ((other : String)
        → other ≢ "alice"
        → account other with_first_file ≡ account other only_alice)
save-account_example =
    save-account postgres "alice" "users/alice/h/a.txt" "h" "text/plain" "a.txt" 10
      (quiet only_alice) (record { file = first_file; duplicate = false }) (quiet with_first_file)
      save-first

only_alice-IsValid : IsValid (λ _. 0) only_alice
only_alice-IsValid = record {
  ids = tt;
  usage = λ u used quota h. ground arith;
  within = λ u used quota h. ground arith;
}

save-IsValid_example :
    IsValid
      (λ _. 0)
      (save postgres "alice" "users/alice/h/a.txt" "h" "text/plain" "a.txt" 10
        (quiet only_alice)).1.tables
save-IsValid_example =
    save-IsValid (λ _. 0) postgres "alice" "users/alice/h/a.txt" "h" "text/plain" "a.txt" 10
      (quiet only_alice) only_alice-IsValid

with_first_file-IsValid : IsValid (λ _. 0) with_first_file
with_first_file-IsValid = record {
  ids = (refl, tt);
  usage = λ u used quota h. ground arith;
  within = λ u used quota h. ground arith;
}

abbrev again : FileMeta
again = record first_file { id = "row-1"; size = 5; original_name = "b.txt" }

abbrev with_again : Tables
with_again = record with_first_file {
  users = record alice { storage_bytes_used = 15 } ∷ [];
  files = record first_file { ref_count = 2 } ∷ again ∷ [];
}

-- The same bytes once more, under another name.
save-again :
    save postgres "alice" "users/bob/h/b.txt" "h" "text/plain" "b.txt" 5 (quiet with_first_file)
    ≡ (ok (record { file = again; duplicate = true }), quiet with_again)
unfolding save
save-again = refl

-- Alice deletes her only file again.
delete-first : delete postgres 2000 "row-0" "alice" (quiet with_first_file) ≡ (
  ok (record { object_key = "users/alice/h/a.txt"; should_delete_object = true }),
  quiet only_alice,
)
unfolding delete
delete-first = refl

delete-IsValid_example :
    IsValid (λ _. 0) (delete postgres 2000 "row-0" "alice" (quiet with_first_file)).1.tables
delete-IsValid_example =
    delete-IsValid (λ _. 0) postgres 2000 "row-0" "alice" (quiet with_first_file)
      with_first_file-IsValid

save-dedup_example :
    (true ≡ any (holds_hash "h") with_first_file.files)
    × (((true ≡ false) × (again.object_key ≡ "users/bob/h/b.txt"))
        ⊎ ((f : FileMeta) × Mem f with_first_file.files
            × (holds_hash "h" f ≡ true)
            × (again.object_key ≡ f.object_key)))
save-dedup_example =
    save-dedup postgres "alice" "users/bob/h/b.txt" "h" "text/plain" "b.txt" 5
      (quiet with_first_file) (record { file = again; duplicate = true }) (quiet with_again)
      save-again

save-over_quota_example :
    (save postgres "alice" "users/alice/h/a.txt" "h" "text/plain" "a.txt" 101 (quiet only_alice)
      ≡ (err (sentinel Sentinel.quota_exceeded), quiet only_alice))
    ↔ ((100 < 101) × (101 < int64_end))
save-over_quota_example =
    save-over_quota postgres "alice" "users/alice/h/a.txt" "h" "text/plain" "a.txt" 101 only_alice 0
      100 refl

delete-save_example : delete postgres 2000 "row-0" "alice" (quiet with_first_file) ≡ (
  ok (record { object_key = "users/alice/h/a.txt"; should_delete_object = true }),
  quiet only_alice,
)
delete-save_example =
    delete-save postgres "alice" "users/alice/h/a.txt" "h" "text/plain" "a.txt" 10 2000 only_alice
      with_first_file (record { file = first_file; duplicate = false }) save-first refl
