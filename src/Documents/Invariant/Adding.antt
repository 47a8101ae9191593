-- ===== src/Documents/Invariant/Adding.antt =====
-- The statements that add a row, and the invariant of the documents.
use mathlib.Core.Path.{subst, subst₂}
use minio_3d.Base.{
  ℕ, ◌≤◌, ◌≡◌, refl, sym, ◌∙◌, String, true, false, ◌==◌, eq_iff, List, [], ◌∷◌, ◌++◌, any, count,
  arith, ◌+◌, Bool-cases, inl, inr, update, ◌⊎◌, select,
}
use minio_3d.Errors.{ok}
use minio_3d.Counts.{
  count-append, any-append, any-update, count-update, All-append, All-weaken, All-update,
  count-eq-zero, count-select-nil,
}
use minio_3d.Types.{Document, DocumentPage, WebhookSubscription}
use minio_3d.Sql.{Tables, Postgres}
use minio_3d.Sql.Keeps.{IsKeptBy}
use minio_3d.Metadata.Save.{add_usage}
use minio_3d.Documents.Rows.{new_document, insert_document, create_document_row}
use minio_3d.Documents.Pages.{is_page, insert_page, new_page, replaced, upserted, upsert_page}
use minio_3d.Documents.Webhooks.{insert_webhook}
use minio_3d.Documents.Invariant.{IsSettled, IsSound, has_user, has_document}

-- What an accepted INSERT INTO documents says.
insert_document-eq-ok :
    (d x : Document) (t t' : Tables)
    → insert_document d t ≡ ok (x, t')
    → (has_document t d.id ≡ false)
      × (has_user t d.user_id ≡ true)
      × (record t { documents = t.documents ++ d ∷ [] } ≡ t')
unfolding insert_document
insert_document-eq-ok d x t t' h = ground arith

count-added :
    (k : String) (d : Document) (ds : List Document)
    → any (λ e. e.id == d.id) ds ≡ false
    → count (λ e. e.id == k) ds ≤ 1
    → count (λ e. e.id == k) (ds ++ d ∷ []) ≤ 1
count-added k d ds fresh h =
    let added = count-append (λ e. e.id == k) ds d in
    elim (Bool-cases (d.id == k)) [
      | inl same ↦
          let absent : count (λ e. e.id == k) ds ≡ 0 =
            subst (λ z. count (λ e. e.id == z) ds ≡ 0) ((eq_iff d.id k).0 same)
              (count-eq-zero (λ e. e.id == d.id) ds fresh) in
          ground arith
      | inr other ↦ ground arith
    ]

added_document-IsSound :
    (d : Document) (t : Tables)
    → has_document t d.id ≡ false
    → has_user t d.user_id ≡ true
    → IsSettled d
    → IsSound t
    → IsSound (record t { documents = t.documents ++ d ∷ [] })
added_document-IsSound d t fresh owner settled s = record {
  ids = λ k. count-added k d t.documents fresh (s.ids k);
  numbers = s.numbers;
  owners = All-append (λ e. has_user t e.user_id ≡ true) t.documents d s.owners owner;
  settled = All-append IsSettled t.documents d s.settled settled;
  page_refs =
      All-weaken _ _ t.pages (λ p. any-append (λ e. e.id == p.document_id) t.documents d)
        s.page_refs;
  hook_refs =
      All-weaken _ _ t.webhooks (λ w. any-append (λ e. e.id == w.document_id) t.documents d)
        s.hook_refs;
}

pub create_document_row-IsKept :
    (pg : Postgres) (user_id filename minio_path hash : String) (size_bytes : ℕ)
    → IsKeptBy IsSound (create_document_row pg user_id filename minio_path hash size_bytes)
unfolding create_document_row new_document
create_document_row-IsKept pg user_id filename minio_path hash size_bytes t x t' h s =
    let d = new_document pg user_id filename minio_path hash size_bytes t in
    let (fresh, owner, same) = insert_document-eq-ok d x t t' h in
    subst IsSound same (added_document-IsSound d t fresh owner refl s)

abbrev charged : ℕ → String → Tables → Tables
charged size user_id t = record t {
  users =
      update (λ u. u.id == user_id)
        (λ u. record u { storage_bytes_used = u.storage_bytes_used + size }) t.users;
}

-- The usage of a user changes, and no user goes.
pub add_usage-IsKept : (size : ℕ) (user_id : String) → IsKeptBy IsSound (add_usage size user_id)
unfolding add_usage
add_usage-IsKept size user_id t x t' h s =
    let same : charged size user_id t ≡ t' = ground arith in
    subst IsSound same (record {
      ids = s.ids;
      numbers = s.numbers;
      owners =
          All-weaken _ _ t.documents
            (λ d owner.
              any-update (λ u. u.id == d.user_id) (λ u. u.id == user_id)
                (λ u. record u { storage_bytes_used = u.storage_bytes_used + size }) (λ u. refl)
                t.users
              ∙ owner)
            s.owners;
      settled = s.settled;
      page_refs = s.page_refs;
      hook_refs = s.hook_refs;
    })

insert_page-eq-ok :
    (p x : DocumentPage) (t t' : Tables)
    → insert_page p t ≡ ok (x, t')
    → (has_document t p.document_id ≡ true) × (record t { pages = t.pages ++ p ∷ [] } ≡ t')
insert_page-eq-ok p x t t' h = ground arith

insert_webhook-eq-ok :
    (w x : WebhookSubscription) (t t' : Tables)
    → insert_webhook w t ≡ ok (x, t')
    → (has_document t w.document_id ≡ true) × (record t { webhooks = t.webhooks ++ w ∷ [] } ≡ t')
unfolding insert_webhook
insert_webhook-eq-ok w x t t' h = ground arith

pub insert_webhook-IsKept :
    (row : Tables → WebhookSubscription) → IsKeptBy IsSound (λ t. insert_webhook (row t) t)
insert_webhook-IsKept row t x t' h s =
    let (found, same) = insert_webhook-eq-ok (row t) x t t' h in
    subst IsSound same (record {
      ids = s.ids;
      numbers = s.numbers;
      owners = s.owners;
      settled = s.settled;
      page_refs = s.page_refs;
      hook_refs =
          All-append (λ w. has_document t w.document_id ≡ true) t.webhooks (row t) s.hook_refs
            found;
    })

count-added_page :
    (k : String) (n : ℕ) (p : DocumentPage) (ps : List DocumentPage)
    → select (is_page p.document_id p.page_number) ps ≡ []
    → count (is_page k n) ps ≤ 1
    → count (is_page k n) (ps ++ p ∷ []) ≤ 1
count-added_page k n p ps fresh h =
    let added = count-append (is_page k n) ps p in
    elim (Bool-cases (is_page k n p)) [
      | inl same ↦
          let absent : count (is_page k n) ps ≡ 0 =
            subst₂ (λ z i. count (is_page z i) ps ≡ 0) ((eq_iff p.document_id k).0 (ground arith))
              (ground arith) (count-select-nil (is_page p.document_id p.page_number) ps fresh) in
          ground arith
      | inr other ↦ ground arith
    ]

module _ (pg : Postgres) (doc_id : String) (number : ℕ) (minio_path : String) (size_bytes : ℕ) where
  upserted-eq-ok :
      (rows : List DocumentPage) (t : Tables) (x : DocumentPage) (t' : Tables)
      → upserted pg doc_id number minio_path size_bytes rows t ≡ ok (x, t')
      → ((rows ≡ [])
          × (insert_page (new_page pg doc_id number minio_path size_bytes t) t ≡ ok (x, t')))
        ⊎ (record t {
          pages = update (is_page doc_id number) (replaced minio_path size_bytes) t.pages;
        }
            ≡ t')
  unfolding new_page
  upserted-eq-ok [] t x t' h = inl (refl, h)
  upserted-eq-ok (p ∷ ps) t x t' h = inr (ground arith)

  inserted-IsSound :
      (t : Tables) (x : DocumentPage) (t' : Tables)
      → select (is_page doc_id number) t.pages ≡ []
      → insert_page (new_page pg doc_id number minio_path size_bytes t) t ≡ ok (x, t')
      → IsSound t
      → IsSound t'
  unfolding new_page
  inserted-IsSound t x t' fresh h s =
      let p = new_page pg doc_id number minio_path size_bytes t in
      let (found, same) = insert_page-eq-ok p x t t' h in
      subst IsSound same (record {
        ids = s.ids;
        numbers = λ k n. count-added_page k n p t.pages fresh (s.numbers k n);
        owners = s.owners;
        settled = s.settled;
        page_refs =
            All-append (λ q. has_document t q.document_id ≡ true) t.pages p s.page_refs found;
        hook_refs = s.hook_refs;
      })

  replaced-IsSound :
      (t : Tables)
      → IsSound t
      → IsSound (record t {
        pages = update (is_page doc_id number) (replaced minio_path size_bytes) t.pages;
      })
  replaced-IsSound t s = record {
    ids = s.ids;
    numbers = λ k n.
        subst (λ z. z ≤ 1)
          (sym (
            count-update (is_page k n) (is_page doc_id number) (replaced minio_path size_bytes)
              (λ p. refl) t.pages))
          (s.numbers k n);
    owners = s.owners;
    settled = s.settled;
    page_refs =
        All-update (λ q. has_document t q.document_id ≡ true) (is_page doc_id number)
          (replaced minio_path size_bytes) t.pages (λ p found. found) s.page_refs;
    hook_refs = s.hook_refs;
  }

  pub upsert_page-IsKept : IsKeptBy IsSound (upsert_page pg doc_id number minio_path size_bytes)
  unfolding upsert_page
  upsert_page-IsKept t x t' h s =
      let stored : upserted pg doc_id number minio_path size_bytes
            (select (is_page doc_id number) t.pages) t
          ≡ ok (x, t') =
        ground arith in
      elim (upserted-eq-ok (select (is_page doc_id number) t.pages) t x t' stored) [
        | inl (fresh, inserted) ↦ inserted-IsSound t x t' fresh inserted s
        | inr same ↦ subst IsSound same (replaced-IsSound t s)
      ]
