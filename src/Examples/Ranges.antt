-- ===== src/Examples/Ranges.antt =====
-- A range of a document of three pages, of which the caller asks for more than there are.
use minio_3d.Base.{ℕ, true, ◌≡◌, refl, some, none, [], ◌∷◌}
use minio_3d.Errors.{ok}
use minio_3d.Types.{Document, DocumentStatus, DocumentPage}
use minio_3d.Sql.{quiet}
use minio_3d.World.{World, stored}
use minio_3d.Storage.Mock.{MockStorage, mock_storage, get_presigned_url}
use minio_3d.Documents.Rows as Rows
use minio_3d.Documents.Pages as Pages
use minio_3d.DocumentService.{pages_of_range}
use minio_3d.DocumentService.Archive as Service
use minio_3d.DocumentService.Archive.{HttpClient, Archive, new_archive, completed}
use minio_3d.DocumentService.Archive.Fetched.{Sent, get_page_range-Sent}
use minio_3d.Handlers.{pending}
use minio_3d.Handlers.Documents.Range as Handler
use minio_3d.Handlers.Documents.Range.{Answer, json}
use minio_3d.DocumentService.Production.{document_store}
use minio_3d.Examples.Data.{postgres, only_alice, empty_store}

abbrev manual : Document
manual = record {
  id = "doc-1";
  user_id = "alice";
  filename = "manual.pdf";
  original_minio_path = "documents/doc-1/original.pdf";
  sha256 = "h";
  status = DocumentStatus.ready;
  total_pages = some 3;
  error_message = none;
  size_bytes = 70;
  created_at = 1000;
  updated_at = 1000;
}

abbrev sheet : ℕ → DocumentPage
sheet n = record {
  id = "page";
  document_id = "doc-1";
  page_number = n;
  minio_path = "documents/doc-1/pages/n.pdf";
  size_bytes = 9;
}

abbrev library : World MockStorage
library = record {
  conn =
      quiet
        (record only_alice { documents = manual ∷ []; pages = sheet 3 ∷ sheet 1 ∷ sheet 2 ∷ [] });
  objects = empty_store;
}

served-pages :
    pages_of_range (stored mock_storage) (document_store postgres) "doc-1" "alice" 2 9 library
    ≡ (ok (sheet 2 ∷ sheet 3 ∷ []), library)
unfolding pages_of_range Rows.get_document Pages.get_page_range
served-pages = refl

-- A client of HTTP that answers every request with one byte.
abbrev one_byte : HttpClient (World MockStorage)
one_byte = record {
  new_request = λ url. ok tt;
  do_request = λ url w. (ok (record { status = 200; received = 7 ∷ []; ending = ok tt }), w);
}

abbrev two_pages : Archive
two_pages = record {
  entries = ("page_2.pdf", 7 ∷ []) ∷ ("page_3.pdf", 7 ∷ []) ∷ [];
  flows = [];
  begun = true;
  closing = completed;
}

sent-pages :
    Service.get_page_range
      (stored mock_storage)
      one_byte
      (document_store postgres)
      "doc-1"
      "alice"
      2
      9
      (library, new_archive [])
    ≡ (ok tt, (library, two_pages))
unfolding Service.get_page_range Rows.get_document Pages.get_page_range get_presigned_url
sent-pages = refl

get_page_range-Sent_example :
    Sent
      (stored mock_storage)
      one_byte
      (document_store postgres)
      "doc-1"
      "alice"
      2
      9
      library
      library
      two_pages
get_page_range-Sent_example =
    get_page_range-Sent (stored mock_storage) one_byte (document_store postgres) "doc-1" "alice" 2 9
      library [] library two_pages sent-pages

abbrev pending_manual : Document
pending_manual = record manual { id = "doc-1-of-alice"; status = DocumentStatus.processing }

abbrev unready : World MockStorage
unready = record library { conn = quiet (record only_alice { documents = pending_manual ∷ [] }) }

abbrev conflict : Answer
conflict =
    json (record { status = 409; body = pending "document is still processing" "processing" })
