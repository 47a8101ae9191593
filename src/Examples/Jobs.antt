-- ===== src/Examples/Jobs.antt =====
-- The worker at a document of two pages, the delivery of a notification, and the watchdog.

use minio_3d.Base.{
  ℕ, ◌+◌, ◌*◌, ◌≤◌, ◌<◌, true, false, ◌≡◌, ◌⊎◌, refl, none, some, List, [], ◌∷◌, arith, any, length,
}
use minio_3d.Errors.{Error, plain, wrap, ok, err}
use minio_3d.Types.{Document, DocumentStatus, WebhookSubscription}
use minio_3d.Sql.{Tables, Conn, Postgres, quiet}
use minio_3d.Storage.Mock.{
  MockStorage, upload, get_presigned_url, mock_storage, has, mock-IsObjectStore,
}
use minio_3d.Documents.Rows.{is_stuck, get_document_by_id, mark_ready, mark_failed}
use minio_3d.Documents.Changes.{mark_ready-mark_failed}
use minio_3d.Documents.Pages.{save_page}
use minio_3d.Worker.Tasks.{System, ExtractPagesPayload, FireWebhookPayload}
use minio_3d.Worker.Pool.{Machine, Pool, new_pool, run, turn}
use minio_3d.Worker.Pool.Bounds.{IsWithin, new_pool-IsWithin, run-IsWithin}
use minio_3d.Worker.Pool.Progress.{remaining, some_turn}
use minio_3d.Worker.Pool.Ending.{can_step, steps, run-ends}
use minio_3d.Worker.Pool.Complete.{extract_all}
use minio_3d.Worker.Extract.{enqueue_webhooks, handle_extract_pages}
use minio_3d.Worker.Extract.Announce.{
  resting, calm, accepted, unused, tasks_of, enqueue_webhooks_lem,
}
use minio_3d.Worker.Extract.Ready.{Done, handle_extract_pages-ready}
use minio_3d.Worker.Extract.Failed.{Ended, handle_extract_pages-failed}
use minio_3d.Worker.Deliver.{
  WebhookClient, Delivered, handle_fire_webhook, handle_fire_webhook-Delivered,
}
use minio_3d.Worker.Watchdog.{Watchdog, sweep, sweep_lem}
use minio_3d.Examples.Data.{row_name, postgres, only_alice, empty_store}

-- A PDF is as many pages as it has bytes; the file of a page is one byte long.
abbrev pub machine : Machine
machine = record {
  mkdir_temp = λ pattern. ok "/tmp/pdfextract-1";
  new_request = λ url. ok tt;
  do_request = λ url. ok (200, ok (37 ∷ 80 ∷ []));
  create_file = λ path. ok tt;
  page_count_file = λ bytes. ok (length bytes);
  mkdir_all = λ path. ok tt;
  extract_pages_file = λ bytes dir n. ok tt;
  rename = λ old new. ok tt;
  glob = λ pattern. ok [];
  open_file = λ path. ok (7 ∷ []);
  stat_file = λ path. ok 1;
}

-- A database that numbers the pages.
abbrev pub numbering : Postgres
numbering = record postgres { new_id = λ t. row_name (length t.pages) }

-- The same machine, on a network where the store answers 404.
abbrev offline : Machine
offline = record machine { do_request = λ url. ok (404, ok []) }

abbrev leaflet : Document
leaflet = record {
  id = "row-0";
  user_id = "alice";
  filename = "leaflet.pdf";
  original_minio_path = "documents/row-0/original.pdf";
  sha256 = "h";
  status = DocumentStatus.processing;
  total_pages = none;
  error_message = none;
  size_bytes = 2;
  created_at = 1000;
  updated_at = 1000;
}

abbrev subscription : WebhookSubscription
subscription = record {
  id = "row-0";
  user_id = "alice";
  document_id = "row-0";
  url = "https://example.com/hook";
  secret = "s";
  created_at = 1000;
}

abbrev tables : Tables
tables = record only_alice { documents = leaflet ∷ []; webhooks = subscription ∷ [] }

abbrev system : System MockStorage
system = resting tables empty_store []

abbrev pub payload : ExtractPagesPayload
payload = record { document_id = "row-0"; user_id = "alice" }

abbrev pub schedule : List ℕ
schedule = 1 ∷ 0 ∷ 1 ∷ 1 ∷ 4 ∷ []

abbrev pool : Pool MockStorage
pool = new_pool system.world 2

abbrev extracted : Pool MockStorage
extracted =
    extract_all machine mock_storage numbering (37 ∷ 80 ∷ []) "/tmp/pages" "row-0" schedule 2
      system.world

run-ends_example :
    (steps machine mock_storage numbering (37 ∷ 80 ∷ []) "/tmp/pages" "row-0" schedule pool ≤ 4 * 2)
    × ((remaining
            (run machine mock_storage numbering (37 ∷ 80 ∷ []) "/tmp/pages" "row-0" schedule pool)
          ≡ 0)
        ⊎ ((i : ℕ) × (can_step i (
                run machine mock_storage numbering
                  (37 ∷ 80 ∷ [])
                  "/tmp/pages"
                  "row-0"
                  schedule
                  pool)
              ≡ true)))
run-ends_example =
    run-ends machine mock_storage numbering (37 ∷ 80 ∷ []) "/tmp/pages" "row-0" schedule 2
      system.world

no_error : extracted.first_err ≡ none
unfolding extract_all upload save_page
no_error = refl

run-IsWithin_example :
    IsWithin (run machine mock_storage numbering (37 ∷ 80 ∷ []) "/tmp/pages" "row-0" schedule pool)
run-IsWithin_example =
    run-IsWithin machine mock_storage numbering (37 ∷ 80 ∷ []) "/tmp/pages" "row-0" schedule pool
      (new_pool-IsWithin system.world 2)

some_turn_example :
    (i : ℕ) × (remaining
        (turn machine mock_storage numbering (37 ∷ 80 ∷ []) "/tmp/pages" "row-0" i pool)
      < remaining pool)
some_turn_example =
    some_turn machine mock_storage numbering (37 ∷ 80 ∷ []) "/tmp/pages" "row-0" pool
      (new_pool-IsWithin system.world 2) (omega arith)

abbrev finished_system : System MockStorage
finished_system =
    (handle_extract_pages machine mock_storage numbering schedule (ok payload) system).1

task-ends :
    handle_extract_pages machine mock_storage numbering schedule (ok payload) system
    ≡ (ok tt, finished_system)
unfolding handle_extract_pages get_document_by_id get_presigned_url upload save_page mark_ready
task-ends = refl

handle_extract_pages-ready_example : Done has "row-0" system finished_system
handle_extract_pages-ready_example =
    handle_extract_pages-ready machine mock_storage has mock-IsObjectStore numbering schedule
      payload system finished_system task-ends

abbrev not_there : Error
not_there = wrap "download original" (plain "download returned 404")

abbrev failed_system : System MockStorage
failed_system = (handle_extract_pages offline mock_storage numbering schedule (ok payload) system).1

task-fails :
    handle_extract_pages offline mock_storage numbering schedule (ok payload) system
    ≡ (err not_there, failed_system)
unfolding handle_extract_pages get_document_by_id get_presigned_url upload save_page mark_ready
task-fails = refl

handle_extract_pages-failed_example : Ended "row-0" not_there system.queue failed_system
handle_extract_pages-failed_example =
    handle_extract_pages-failed offline mock_storage has mock-IsObjectStore numbering schedule
      payload system not_there failed_system refl task-fails

-- A queue that takes every task but the first.
abbrev dropping : System MockStorage
dropping = calm tables empty_store [] (some (plain "redis: connection refused") ∷ [])

enqueue_webhooks_lem_example : enqueue_webhooks "row-0" "ready" 2 dropping ≡ (
  ok tt,
  calm tables empty_store
      (accepted (tasks_of "row-0" "ready" 2 tables) dropping.queue.faults)
      (unused (tasks_of "row-0" "ready" 2 tables) dropping.queue.faults),
)
enqueue_webhooks_lem_example =
    enqueue_webhooks_lem "row-0" "ready" 2 tables empty_store [] dropping.queue.faults

-- A subscriber that counts the requests and answers 204.
abbrev client : WebhookClient ℕ
client = record {
  marshal = λ n. ok (123 ∷ 125 ∷ []);
  hmac_hex = λ secret body. "0a";
  new_request = λ url body. ok tt;
  do_request = λ d n. (ok 204, n + 1);
}

abbrev notice : FireWebhookPayload
notice = record {
  document_id = "row-0";
  webhook_url = "https://example.com/hook";
  secret = "s";
  status = "ready";
  total_pages = 2;
}

delivery-ends : handle_fire_webhook client 1000 (ok notice) 0 ≡ (ok tt, 1)
unfolding handle_fire_webhook
delivery-ends = refl

handle_fire_webhook-Delivered_example : Delivered client notice 1000 0 1
handle_fire_webhook-Delivered_example =
    handle_fire_webhook-Delivered client notice 1000 0 1 delivery-ends

abbrev watchdog : Watchdog
watchdog = record { timeout = 300; interval = 60 }

abbrev done_leaflet : Document
done_leaflet = record leaflet { status = DocumentStatus.ready; total_pages = some 2 }

abbrev done_before : Conn
done_before = quiet (record tables { documents = done_leaflet ∷ [] })

sweep_lem_example :
    any (is_stuck 1700) (sweep postgres watchdog 2000 (quiet tables)).1.tables.documents ≡ false
sweep_lem_example = sweep_lem postgres watchdog 2000 (quiet tables) refl

abbrev late_tables : Tables
late_tables = record tables {
  documents =
      record leaflet {
        status = DocumentStatus.ready;
        total_pages = some 2;
        error_message = some "processing timeout";
      }
      ∷ [];
}

abbrev timed_out_tables : Tables
timed_out_tables = record tables {
  documents =
      record leaflet { status = DocumentStatus.failed; error_message = some "processing timeout" }
      ∷ [];
}

first-read : get_document_by_id "row-0" (quiet tables) ≡ (ok leaflet, quiet tables)
unfolding get_document_by_id
first-read = refl

then-failed :
    mark_failed postgres "row-0" "processing timeout" (quiet tables)
    ≡ (ok tt, quiet timed_out_tables)
unfolding mark_failed
then-failed = refl

then-ready : mark_ready postgres "row-0" 2 (quiet timed_out_tables) ≡ (ok tt, quiet late_tables)
unfolding mark_ready
then-ready = refl

mark_ready-mark_failed_example :
    (d' : Document) × ((get_document_by_id "row-0" (quiet late_tables)).0 ≡ ok d')
    × (d'.status ≡ DocumentStatus.ready)
    × (d'.error_message ≡ some "processing timeout")
mark_ready-mark_failed_example =
    mark_ready-mark_failed postgres "row-0" "processing timeout" 2 (quiet tables) (quiet tables)
      (quiet timed_out_tables) (quiet late_tables) leaflet first-read then-failed then-ready
