-- ===== src/Examples/Sharing.antt =====
-- Three users who share an object: the second `Delete` drops it under the third.
use minio_3d.Base.{String, ◌≡◌, refl, true, false, some, arith, eq_iff}
use mathlib.Core.Bool.{false≢true}
use mathlib.Core.List.{Mem, mem-cons}
use mathlib.Core.Logic.Or
use minio_3d.Errors.{ok}
use minio_3d.Exec.{◌>>=◌}
use minio_3d.Sql.{Tables, Sql, quiet}
use minio_3d.Metadata.Reads.{canonical}
use minio_3d.Metadata.Save.{SaveResult, save}
use minio_3d.Metadata.Delete.{delete}
use minio_3d.Metadata.Sharing.{delete-drops_shared}
use minio_3d.Examples.Data.{postgres, three_users, after_alice, second_file, third_file}

abbrev save_as : String → Sql SaveResult
save_as who = save postgres who "users/alice/h/a.txt" "h" "text/plain" "a.txt" 10

-- Each saves the same bytes, and Alice deletes hers.
three-saves :
    (save_as "alice" >>= λ a.
    save_as "bob" >>= λ b. save_as "carol" >>= λ c. delete postgres 2000 "row-0" "alice")
      (quiet three_users)
    ≡ (
      ok (record { object_key = "users/alice/h/a.txt"; should_delete_object = false }),
      quiet after_alice,
    )
unfolding save delete ◌>>=◌
three-saves = refl

chosen_second : canonical postgres "h" after_alice ≡ some second_file
unfolding canonical
chosen_second = refl

delete-drops_shared_example :
    (t' : Tables) × (delete postgres 3000 "row-1" "bob" (quiet after_alice)
      ≡ (ok (record { object_key = "users/alice/h/a.txt"; should_delete_object = true }), quiet t'))
    × Mem third_file t'.files
delete-drops_shared_example =
    delete-drops_shared postgres 3000 "row-1" "bob" after_alice second_file third_file second_file
      refl chosen_second (omega arith)
      (mem-cons.1 (Or.inr (mem-cons.1 (Or.inr (mem-cons.1 (Or.inl refl))))))
      (λ e. false≢true ((eq_iff "row-2" "row-1").1 e)) refl
