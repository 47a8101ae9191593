-- ===== src/Documents/Invariant/Changing.antt =====
-- The statements that change or remove rows, and the invariant of the documents.
use mathlib.Core.Path.{subst}
use minio_3d.Base.{
  ℕ, ◌≤◌, ◌≡◌, refl, sym, ap, ◌∙◌, String, true, false, ◌==◌, eq_iff, some, List, [], ◌∷◌, Bool,
  any, select, update, discard, arith,
}
use minio_3d.Errors.{ok, err, Result}
use minio_3d.Counts.{any-update, count-update, count-discard, All-weaken, All-update, All-discard}
use minio_3d.Types.{Document, ready, failed}
use minio_3d.Sql.{Tables, Postgres, one_row}
use minio_3d.Sql.Keeps.{IsKeptBy}
use minio_3d.Documents.Rows.{
  change, set_ready, set_failed, set_path, owns_document, drop_document, dropped, is_stuck,
  timed_out, fail_stuck,
}
use minio_3d.Documents.Pages.{is_page}
use minio_3d.Documents.Invariant.{IsSettled, IsSound, has_user, has_document}

-- A change of documents that leaves their ids and owners, and settles what it touches.
module _ (q : Document → Bool) (f : Document → Document)
    (keeps_id : (d : Document) → (f d).id ≡ d.id)
    (keeps_owner : (d : Document) → (f d).user_id ≡ d.user_id)
    (settles : (d : Document) → IsSettled d → IsSettled (f d)) where
  has_document-update :
      (t : Tables) (k : String) → any (λ d. d.id == k) (update q f t.documents) ≡ has_document t k
  has_document-update t k =
      any-update (λ d. d.id == k) q f (λ d. ap (λ z. z == k) (keeps_id d)) t.documents

  updated-IsSound :
      (t : Tables) → IsSound t → IsSound (record t { documents = update q f t.documents })
  updated-IsSound t s = record {
    ids = λ k.
        subst (λ z. z ≤ 1)
          (sym (count-update (λ d. d.id == k) q f (λ d. ap (λ z. z == k) (keeps_id d)) t.documents))
          (s.ids k);
    numbers = s.numbers;
    owners =
        All-update (λ d. has_user t d.user_id ≡ true) q f t.documents
          (λ d owner. ap (has_user t) (keeps_owner d) ∙ owner) s.owners;
    settled = All-update IsSettled q f t.documents settles s.settled;
    page_refs =
        All-weaken _ _ t.pages (λ p found. has_document-update t p.document_id ∙ found) s.page_refs;
    hook_refs =
        All-weaken _ _ t.webhooks (λ w found. has_document-update t w.document_id ∙ found)
          s.hook_refs;
  }

module _ (pg : Postgres) where
  pub set_ready-IsKept :
      (doc_id : String) (total_pages : ℕ) → IsKeptBy IsSound (set_ready pg doc_id total_pages)
  unfolding set_ready
  set_ready-IsKept doc_id total_pages t x t' h s =
      let f : Document → Document =
        λ d. record d { status = ready; total_pages = some total_pages; updated_at = pg.now t } in
      let same : change doc_id f t ≡ t' = ground arith in
      subst IsSound same
        (updated-IsSound (λ d. d.id == doc_id) f (λ d. refl) (λ d. refl) (λ d h. refl) t s)

  pub set_failed-IsKept :
      (doc_id err_msg : String) → IsKeptBy IsSound (set_failed pg doc_id err_msg)
  unfolding set_failed
  set_failed-IsKept doc_id err_msg t x t' h s =
      let f : Document → Document =
        λ d. record d { status = failed; error_message = some err_msg; updated_at = pg.now t } in
      let same : change doc_id f t ≡ t' = ground arith in
      subst IsSound same
        (updated-IsSound (λ d. d.id == doc_id) f (λ d. refl) (λ d. refl) (λ d h. refl) t s)

  pub set_path-IsKept : (doc_id path : String) → IsKeptBy IsSound (set_path pg doc_id path)
  unfolding set_path
  set_path-IsKept doc_id path t x t' h s =
      let f : Document → Document =
        λ d. record d { original_minio_path = path; updated_at = pg.now t } in
      let same : change doc_id f t ≡ t' = ground arith in
      subst IsSound same
        (updated-IsSound (λ d. d.id == doc_id) f (λ d. refl) (λ d. refl) (λ d h. h) t s)

  pub fail_stuck-IsKept : (cutoff : ℕ) → IsKeptBy IsSound (fail_stuck pg cutoff)
  unfolding fail_stuck
  fail_stuck-IsKept cutoff t x t' h s =
      let same : record t {
        documents = update (is_stuck cutoff) (timed_out (pg.now t)) t.documents;
      }
          ≡ t' =
        ground arith in
      subst IsSound same (
        updated-IsSound (is_stuck cutoff) (timed_out (pg.now t)) (λ d. refl) (λ d. refl)
          (λ d h. refl) t s)

pub dropped-eq-ok :
    (id user_id : String) (r : Result Document) (t : Tables) (x : Document) (t' : Tables)
    → dropped id user_id r t ≡ ok (x, t')
    → record t {
      documents = discard (owns_document id user_id) t.documents;
      pages = discard (λ p. p.document_id == id) t.pages;
      webhooks = discard (λ w. w.document_id == id) t.webhooks;
    }
      ≡ t'
dropped-eq-ok id user_id (ok d) t x t' h = ground arith
dropped-eq-ok id user_id (err e) t x t' h = cc

-- A document of another id is not discarded.
any-discard :
    (id user_id k : String) (ds : List Document)
    → (k == id) ≡ false
    → any (λ d. d.id == k) ds ≡ true
    → any (λ d. d.id == k) (discard (owns_document id user_id) ds) ≡ true
any-discard id user_id k [] ne h = h
any-discard id user_id k (d ∷ ds) ne h =
    ground (arith, any-discard id user_id k ds ne, eq_iff d.id k, eq_iff d.id id, eq_iff k id)

pub drop_document-IsKept : (id user_id : String) → IsKeptBy IsSound (drop_document id user_id)
unfolding drop_document
drop_document-IsKept id user_id t x t' h s =
    subst IsSound
      (dropped-eq-ok id user_id (one_row (select (owns_document id user_id) t.documents)) t x t' h)
      (record {
        ids = λ k.
            let fewer = count-discard (λ d. d.id == k) (owns_document id user_id) t.documents in
            let old = s.ids k in omega arith;
        numbers = λ k n.
            let fewer = count-discard (is_page k n) (λ p. p.document_id == id) t.pages in
            let old = s.numbers k n in omega arith;
        owners =
            All-discard _ _ (owns_document id user_id) t.documents (λ d owner gone. owner) s.owners;
        settled =
            All-discard _ _ (owns_document id user_id) t.documents (λ d done gone. done) s.settled;
        page_refs =
            All-discard _ _ (λ p. p.document_id == id) t.pages
              (λ p found stays. any-discard id user_id p.document_id t.documents stays found)
              s.page_refs;
        hook_refs =
            All-discard _ _ (λ w. w.document_id == id) t.webhooks
              (λ w found stays. any-discard id user_id w.document_id t.documents stays found)
              s.hook_refs;
      })
