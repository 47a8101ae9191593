-- ===== src/Examples/Stores.antt =====
-- The two stores of the database under a sequence of calls.
use minio_3d.Base.{◌+◌, ◌≡◌, refl, none, some, List, [], ◌∷◌, length, arith}
use minio_3d.Sql.{Conn, Postgres}
use minio_3d.Documents.Rows as Rows
use minio_3d.Documents.Pages as Pages
use minio_3d.Documents.Webhooks.{create_webhook}
use minio_3d.Documents.Invariant.{IsSound}
use minio_3d.Documents.Calls as Calls
use minio_3d.Documents.Calls.{Call, run-IsSound}
use minio_3d.Examples.Data.{only_alice, row_name}

-- A database that numbers the rows of documents, pages and webhooks together.
abbrev numbering : Postgres
numbering = record {
  new_id = λ t. row_name (length t.documents + (length t.pages + length t.webhooks));
  now = λ t. 1000;
  choose = λ rows. 0;
}

-- A document is created, gets a page twice and a webhook, and is ready; the fifth call of the driver
-- fails, and so the first try at the page.
abbrev calls : List Call
calls =
    Call.create_document "alice" "a.pdf" "" "h" 5
    ∷ Call.save_page "row-0" 1 "documents/row-0/pages/1.pdf" 9
    ∷ Call.save_page "row-0" 1 "documents/row-0/pages/1.pdf" 9
    ∷ Call.create_webhook "alice" "row-0" "https://example.com" "key"
    ∷ Call.mark_ready "row-0" 1
    ∷ []

abbrev faulty : Conn
faulty = record { tables = only_alice; faults = none ∷ none ∷ none ∷ none ∷ some "lost" ∷ [] }

only_alice-IsSound : IsSound only_alice
only_alice-IsSound = record {
  ids = λ k. omega arith;
  numbers = λ k n. omega arith;
  owners = tt;
  settled = tt;
  page_refs = tt;
  hook_refs = tt;
}

run-IsSound_example : IsSound (Calls.run numbering calls faulty).tables
run-IsSound_example = run-IsSound numbering calls faulty only_alice-IsSound

pages_after : length (Calls.run numbering calls faulty).tables.pages ≡ 1
unfolding Calls.run Rows.create_document Pages.save_page Rows.mark_ready create_webhook
pages_after = refl
