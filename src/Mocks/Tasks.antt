-- ===== src/Mocks/Tasks.antt =====
-- testutil/testutil.go: `MockEnqueuer`, which records tasks.
use minio_3d.Base.{ℕ, String, Option, List, [], ◌∷◌, ◌++◌, length}
use minio_3d.Errors.{Error, ok}
use minio_3d.Exec.{Exec, failing}
use minio_3d.DocumentService.{TaskEnqueuer}

pub record EnqueuedTask : Type 0 where
  pub doc_id : String
  pub user_id : String

pub record MockEnqueuer : Type 0 where
  pub tasks : List EnqueuedTask
  pub enqueue_err : Option Error

unfoldable pub enqueue_task : String → String → Exec MockEnqueuer (Unit {0})
enqueue_task doc_id user_id m =
    failing m.enqueue_err
      (λ m.
        (ok tt, record m { tasks = m.tasks ++ record { doc_id = doc_id; user_id = user_id } ∷ [] }))
      m

-- `Count`
unfoldable pub count : MockEnqueuer → ℕ
count m = length m.tasks

abbrev pub mock_enqueuer : TaskEnqueuer MockEnqueuer
unfolding enqueue_task
mock_enqueuer = record { enqueue_task = enqueue_task }
