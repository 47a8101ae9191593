-- ===== src/Examples/Requests.antt =====
-- Requests to the handlers.
use minio_3d.Base.{◌≡◌, refl, none, some, [], ◌∷◌, String, true, ◌==◌, eq_refl, arith}
use minio_3d.Errors.{plain, Result, ok}
use minio_3d.Types.{Document, DocumentStatus, DocumentPage}
use minio_3d.Sql.{Tables, Conn, quiet}
use minio_3d.Storage.Mock.{MockStorage, mock_storage, get_presigned_url}
use minio_3d.Storage.Mock as Mock
use minio_3d.World.{World, stored}
use minio_3d.DocumentService.Production.{document_store}
use minio_3d.Documents.Rows as Rows
use minio_3d.Documents.Pages as Pages
use minio_3d.Handlers.{content}
use minio_3d.Handlers.Files as Files
use minio_3d.Handlers.Documents.{get_page}
use minio_3d.Handlers.Documents.Pages.{Granted, get_page-Granted}
use minio_3d.Handlers.Accounts.{AuthHandler, Credentials, register, Profile, me}
use minio_3d.Handlers.Accounts.Login.{users_of, production, LetIn, login-register}
use minio_3d.Handlers.Accounts.Me.{Tallied, me-Tallied}
use minio_3d.Metadata.Reads.{create_user}
use minio_3d.Examples.Data.{postgres, only_alice, sha256, empty_store}

abbrev offline : MockStorage
offline = record empty_store { upload_err = some (plain "no route to host") }

abbrev booklet : Document
booklet = record {
  id = "row-0";
  user_id = "alice";
  filename = "booklet.pdf";
  original_minio_path = "documents/row-0/original.pdf";
  sha256 = "h";
  status = DocumentStatus.ready;
  total_pages = some 3;
  error_message = none;
  size_bytes = 2;
  created_at = 1000;
  updated_at = 1000;
}

abbrev second_page : DocumentPage
second_page = record {
  id = "row-0";
  document_id = "row-0";
  page_number = 2;
  minio_path = "documents/row-0/pages/2.pdf";
  size_bytes = 9;
}

abbrev tables : Tables
tables = record only_alice { documents = booklet ∷ []; pages = second_page ∷ [] }

abbrev world : World MockStorage
world = record { conn = quiet tables; objects = empty_store }

get_page-Granted_example :
    let (r, w) =
      get_page (stored mock_storage) (document_store postgres) "alice" "row-0" "2" world in
    Granted (stored mock_storage) (document_store postgres) "alice" "row-0" "2" world r w
unfolding get_page Rows.get_document Pages.get_page get_presigned_url
get_page-Granted_example =
    get_page-Granted (stored mock_storage) (document_store postgres) "alice" "row-0" "2" world refl

abbrev handler : AuthHandler Conn
handler = record {
  repo = users_of postgres;
  jwt_expiry_hours = 24;
  default_quota = 100;
  generate_from_password = λ password. ok password;
  compare_hash_and_password = λ hash password. hash == password;
  signed_string = λ claims. ok claims.user_id;
}

abbrev credentials : Credentials
credentials = record { email = "dave@example.com"; password = "correct horse" }

matches :
    (password hash : String)
    → handler.generate_from_password password ≡ ok hash
    → handler.compare_hash_and_password hash password ≡ true
matches password hash h = same password hash h
  where
    same : (a b : String) → ◌≡◌ {A = Result String} (ok a) (ok b) → (b == a) ≡ true
    same a b k = ground (arith, eq_refl a)

login-register_example :
    LetIn postgres handler credentials 7 9
      (register (production postgres handler) 7 (ok credentials) (quiet only_alice))
unfolding register create_user
login-register_example =
    login-register postgres handler matches (λ claims. (claims.user_id, refl)) credentials 7 9
      (quiet only_alice) refl

abbrev profile : Profile
profile = record {
  id = "alice";
  email = "alice@example.com";
  used_bytes = 0;
  quota_bytes = 100;
  total = 1;
  tallied = record { ready_count = 1; processing_count = 0; failed_count = 0 };
  created_at = 1;
}

me-answer : (me "alice" (quiet tables)).0.body ≡ content profile
unfolding me
me-answer = refl

me-Tallied_example : Tallied "alice" profile tables
me-Tallied_example = me-Tallied "alice" (quiet tables) profile me-answer
