-- ===== src/Worker/Tasks.antt =====
-- worker/tasks.go: the tasks, and the asynq client that enqueues them. The JSON of a payload is kept
-- as the value that it was made from: json.Marshal does not fail on these types.
use minio_3d.Base.{String, ℕ, Option, none, some, List, [], ◌∷◌, ◌++◌}
use minio_3d.Errors.{Error, Result, ok, err}
use minio_3d.Exec.{Exec}
use minio_3d.World.{World}

pub record ExtractPagesPayload : Type 0 where
  pub document_id : String
  pub user_id : String

pub record FireWebhookPayload : Type 0 where
  pub document_id : String
  pub webhook_url : String
  pub secret : String
  pub status : String
  pub total_pages : ℕ

-- `*asynq.Task`: the type of the task is its constructor.
pub data Task : Type 0 where
  extract_pages : ExtractPagesPayload → Task
  fire_webhook : FireWebhookPayload → Task

-- The calls of `client.Enqueue`: the tasks that the client has taken, in the order of the calls, and,
-- for each coming call, whether it takes the task or fails; an empty list stands for a client that
-- goes on to take tasks. What asynq does with a task that it has taken is not modelled.
pub record Queue : Type 0 where
  pub tasks : List Task
  pub faults : List (Option Error)

abbrev pub taken : Task → List Task → List (Option Error) → Result (Unit {0}) × Queue
taken task ts [] = (ok tt, record { tasks = ts ++ task ∷ []; faults = [] })
taken task ts (none ∷ fs) = (ok tt, record { tasks = ts ++ task ∷ []; faults = fs })
taken task ts (some e ∷ fs) = (err e, record { tasks = ts; faults = fs })

-- `client.Enqueue`
unfoldable pub enqueue : Task → Exec Queue (Unit {0})
enqueue task q = taken task q.tasks q.faults

abbrev pub new_extract_pages_task : String → String → Task
new_extract_pages_task doc_id user_id =
    extract_pages (record { document_id = doc_id; user_id = user_id })

abbrev pub new_fire_webhook_task : FireWebhookPayload → Task
new_fire_webhook_task p = fire_webhook p

-- The database, the objects and the queue: the state on which a worker acts.
pub record System (S : Type 0) : Type 0 where
  pub world : World S
  pub queue : Queue

module _ {ℓ} {S : Type 0} {A : Type ℓ} where
  abbrev pub on_world : Exec (World S) A → Exec (System S) A
  on_world m s = let (r, w) = m s.world in (r, record s { world = w })

  abbrev pub on_queue : Exec Queue A → Exec (System S) A
  on_queue m s = let (r, q) = m s.queue in (r, record s { queue = q })
