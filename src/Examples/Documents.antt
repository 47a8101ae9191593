-- ===== src/Examples/Documents.antt =====
-- A document that is created, read by page, timed out and deleted.
use mathlib.Core.List.{Mem}
use minio_3d.Base.{
  ℕ, ◌+◌, String, Bool, false, ◌≡◌, ◌≢◌, ◌⊎◌, refl, none, some, [], ◌∷◌, ◌&&◌, any, count,
}
use minio_3d.Errors.{ok}
use minio_3d.Types.{Document, DocumentStatus, DocumentPage}
use minio_3d.Sql.{Tables, quiet}
use minio_3d.Metadata.Accounts.{account}
use minio_3d.Documents.Rows.{create_document, delete_document, fail_stuck_documents, is_stuck}
use minio_3d.Documents.Pages.{in_range, save_page, get_page, get_page_range}
use minio_3d.Documents.Pages.Lookup.{get_page-save_page}
use minio_3d.Documents.Pages.Range.{IsSorted, get_page_range_lem}
use minio_3d.Documents.Timeouts.{is_failed, fail_stuck_documents_lem}
use minio_3d.Documents.Usage.{create_document-any_quota, delete_document-create_document}
use minio_3d.Examples.Data.{postgres, alice, only_alice}

abbrev contract : Document
contract = record {
  id = "row-0";
  user_id = "alice";
  filename = "contract.pdf";
  original_minio_path = "";
  sha256 = "h";
  status = DocumentStatus.processing;
  total_pages = none;
  error_message = none;
  size_bytes = 70;
  created_at = 1000;
  updated_at = 1000;
}

abbrev with_contract : Tables
with_contract = record only_alice {
  users = record alice { storage_bytes_used = 70 } ∷ [];
  documents = contract ∷ [];
}

create-contract :
    create_document postgres "alice" "contract.pdf" "" "h" 70 (quiet only_alice)
    ≡ (ok contract, quiet with_contract)
unfolding create_document
create-contract = refl

-- Alice's quota is a hundred bytes.
create_document-any_quota_example :
    (d : Document) × (t' : Tables) × (create_document postgres "alice" "book.pdf" "" "h" 5000
        (quiet only_alice)
      ≡ (ok d, quiet t'))
    × (account "alice" t' ≡ ok (5000, 100))
create_document-any_quota_example =
    create_document-any_quota postgres "alice" "book.pdf" "" "h" 5000 only_alice 0 100 refl refl
      refl

delete_document-create_document_example :
    (t'' : Tables) × (delete_document "row-0" "alice" (quiet with_contract)
      ≡ (ok contract, quiet t''))
    × (t''.documents ≡ [])
    × (account "alice" t'' ≡ ok (70, 100))
    × ((other : String) → other ≢ "alice" → account other t'' ≡ account other only_alice)
delete_document-create_document_example =
    delete_document-create_document postgres "alice" "contract.pdf" "" "h" 70 only_alice
      with_contract contract 0 100 create-contract refl

abbrev page : ℕ → DocumentPage
page n = record {
  id = "row-0";
  document_id = "row-0";
  page_number = n;
  minio_path = "documents/row-0/pages/2.pdf";
  size_bytes = 9;
}

abbrev with_page : Tables
with_page = record with_contract { pages = page 2 ∷ [] }

save-page :
    save_page postgres "row-0" 2 "documents/row-0/pages/2.pdf" 9 (quiet with_contract)
    ≡ (ok (page 2), quiet with_page)
unfolding save_page
save-page = refl

get_page-save_page_example :
    (get_page "row-0" 2 (quiet with_page) ≡ (ok (page 2), quiet with_page))
    × ((page 2).minio_path ≡ "documents/row-0/pages/2.pdf")
    × ((page 2).size_bytes ≡ 9)
    × ((o : String) (m : ℕ)
        → (o ≢ "row-0") ⊎ (m ≢ 2)
        → (get_page o m (quiet with_page)).0 ≡ (get_page o m (quiet with_contract)).0)
get_page-save_page_example =
    get_page-save_page postgres "row-0" 2 "documents/row-0/pages/2.pdf" 9 (quiet with_contract)
      (page 2) (quiet with_page) save-page

abbrev two_pages : Tables
two_pages = record with_contract { pages = page 3 ∷ page 2 ∷ page 7 ∷ [] }

range-pages :
    get_page_range "row-0" 1 5 (quiet two_pages) ≡ (ok (page 2 ∷ page 3 ∷ []), quiet two_pages)
unfolding get_page_range
range-pages = refl

get_page_range_lem_example :
    IsSorted (page 2 ∷ page 3 ∷ [])
    × ((test : DocumentPage → Bool)
        → count test (page 2 ∷ page 3 ∷ [])
          ≡ count (λ p. in_range "row-0" 1 5 p && test p) two_pages.pages)
    × (two_pages ≡ two_pages)
get_page_range_lem_example =
    get_page_range_lem "row-0" 1 5 (quiet two_pages) (page 2 ∷ page 3 ∷ []) (quiet two_pages)
      range-pages

abbrev timed_out_tables : Tables
timed_out_tables = record with_contract {
  documents =
      record contract {
        status = DocumentStatus.failed;
        error_message = some "processing timeout: worker did not complete in time";
      }
      ∷ [];
}

fail-contract :
    fail_stuck_documents postgres 2000 (quiet with_contract) ≡ (ok 1, quiet timed_out_tables)
unfolding fail_stuck_documents
fail-contract = refl

fail_stuck_documents_lem_example :
    (1 ≡ count (is_stuck 2000) with_contract.documents)
    × (any (is_stuck 2000) timed_out_tables.documents ≡ false)
    × (count (λ d. is_failed d.status) timed_out_tables.documents
        ≡ count (λ d. is_failed d.status) with_contract.documents + 1)
    × ((d : Document)
        → Mem d with_contract.documents
        → is_stuck 2000 d ≡ false
        → Mem d timed_out_tables.documents)
    × (timed_out_tables.pages ≡ with_contract.pages)
fail_stuck_documents_lem_example =
    fail_stuck_documents_lem postgres 2000 (quiet with_contract) 1 (quiet timed_out_tables)
      fail-contract
