-- ===== src/Examples/Mocked.antt =====
-- The stand-ins of the tests on concrete inputs.
use minio_3d.Base.{◌≡◌, refl, [], ◌∷◌}
use minio_3d.Errors.{plain, ok, err}
use minio_3d.Mocks.Metadata as Meta
use minio_3d.Mocks.Metadata.{MockMeta, new_mock_meta, mock_metadata, mock_users}
use minio_3d.Mocks.Documents as Docs
use minio_3d.Mocks.Documents.{new_mock_doc_store, mock_page, mock_doc_store}
use minio_3d.Numbers.{decimal}
use minio_3d.Examples.Data.{alice}

abbrev known : MockMeta
known = record new_mock_meta { users = ("alice", alice) ∷ [] }

-- A second user with the same address is refused, and the first is found.
refused :
    (mock_users (λ us. us) (λ fs. fs) 7).create_user "alice@example.com" "hash" 5 known
    ≡ (err (plain "duplicate email"), known)
unfolding Meta.create_user
refused = refl

found :
    (mock_users (λ us. us) (λ fs. fs) 7).get_user_by_email "alice@example.com" known
    ≡ (ok alice, known)
unfolding Meta.get_user_by_email
found = refl

-- The second `Save` of a hash is a duplicate, and takes the id of the first.
abbrev saved : MockMeta
saved =
    ((mock_metadata (λ us. us) (λ fs. fs) 7).save "alice" "k" "0123456789" "text/plain" "a.txt" 3
      new_mock_meta).1

duplicate :
    (Meta.get_by_hash "0123456789"
      ((mock_metadata (λ us. us) (λ fs. fs) 8).save "bob" "k" "0123456789" "text/plain" "b.txt" 3
        saved).1).0
    ≡ (Meta.get_by_id "file-01234567" "bob"
        ((mock_metadata (λ us. us) (λ fs. fs) 8).save "bob" "k" "0123456789" "text/plain" "b.txt" 3
          saved).1).0
unfolding Meta.get_by_hash Meta.get_by_id Meta.save
duplicate = refl

-- A document that is made ready with two pages has them.
paged :
    ((mock_doc_store (λ ds. ds) (λ ps. ps)).get_page_range "doc-1" 1 9
      (Docs.set_ready "doc-1" 2 new_mock_doc_store)).0
    ≡ ok (
        mock_page "doc-1" 1 "documents/doc-1/pages/1.pdf" 1024
        ∷ mock_page "doc-1" 2 "documents/doc-1/pages/2.pdf" 1024
        ∷ [])
unfolding Docs.get_page_range Docs.set_ready decimal
paged = refl
