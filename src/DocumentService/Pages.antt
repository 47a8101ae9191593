-- ===== src/DocumentService/Pages.antt =====
-- Which pages a caller is given.
use minio_3d.Base.{
  ℕ, ◌≤◌, String, true, false, ◌≡◌, refl, ◌∙◌, Option, none, some, List, [], ◌∷◌, ltb, arith,
  if◌then◌else◌, ap, sym,
}
use mathlib.Core.Path.{subst, subst₂}
use minio_3d.Errors.{plain, Sentinel, sentinel, Result, ok}
use minio_3d.Types.{Document, DocumentStatus, processing, ready, failed, DocumentPage}
use minio_3d.Numbers.{decimal}
use minio_3d.Paths.{concat}
use minio_3d.Exec.{Exec, pure, guard, ◌>>=◌, ◌>>◌}
use minio_3d.Exec.Laws.{>>=-eq-ok, guard-eq-ok}
use minio_3d.Storage.{Storage}
use minio_3d.DocumentService.{
  DocumentRepository, is_ready, is_empty, clamp_start, clamp_end, ready_document, pages_of_range,
}

ready_of : (s : DocumentStatus) → is_ready s ≡ true → s ≡ ready
ready_of processing h = ground arith
ready_of ready h = refl
ready_of failed h = ground arith

clamped :
    (total : Option ℕ) (end : ℕ)
    → (clamp_end total end ≤ end) × ((n : ℕ) → total ≡ some n → clamp_end total end ≤ n)
clamped none end = (omega arith, λ n h. ground arith)
clamped (some n) end = (ground arith, λ m h. ground arith)

answered :
    {W A : Type 0} (a b : A) (w w' : W)
    → ◌≡◌ {A = Result A × W} (ok a, w) (ok b, w')
    → (a ≡ b) × (w ≡ w')
answered a b w w' h = ground arith

module _ {W : Type 0} (store : Storage W) (docs : DocumentRepository W)
    (doc_id user_id : String) where
  pub ready_document-eq-ok :
      (w : W) (doc : Document) (w' : W)
      → ready_document store docs doc_id user_id w ≡ (ok doc, w')
      → (docs.get_document doc_id user_id w ≡ (ok doc, w')) × (doc.status ≡ ready)
  unfolding ready_document
  ready_document-eq-ok w doc w' h =
      let (d, w₁, read, rest) =
        >>=-eq-ok (docs.get_document doc_id user_id)
          (λ d. guard (is_ready d.status) (sentinel Sentinel.not_ready) >> pure d) w doc w' h in
      let (u, w₂, passed, done) =
        >>=-eq-ok (guard (is_ready d.status) (sentinel Sentinel.not_ready)) (λ _. pure d) w₁ doc w'
          rest in
      let (is, same) =
        guard-eq-ok (is_ready d.status) (sentinel Sentinel.not_ready) w₁ u w₂ passed in
      let (same_doc, same_end) = answered d doc w₂ w' done in
      (
        subst₂ (λ x v. docs.get_document doc_id user_id w ≡ (ok x, v)) same_doc
            (sym same ∙ same_end) read,
        ap (λ (x : Document). x.status) (sym same_doc) ∙ ready_of d.status is,
      )

  -- The pages that a range was read for, and the document that allowed it.
  pub record Served (start end : ℕ) (w : W) (ps : List DocumentPage) (w' : W) : Type 0 where
    pub doc : Document
    pub first : ℕ
    pub last : ℕ
    pub before : W
    pub allowed : docs.get_document doc_id user_id w ≡ (ok doc, before)
    pub status : doc.status ≡ ready
    pub read : docs.get_page_range doc_id first last before ≡ (ok ps, w')
    pub from_one : 1 ≤ first
    pub from_start : start ≤ first
    pub in_order : first ≤ last
    pub to_end : last ≤ end
    pub to_total : (n : ℕ) → doc.total_pages ≡ some n → last ≤ n
    pub found : is_empty ps ≡ false

  module _ (start end : ℕ) where
    abbrev reading : Document → Exec W (List DocumentPage)
    reading doc =
        docs.get_page_range doc_id (clamp_start start) (clamp_end doc.total_pages end) >>= λ ps.
        guard (if is_empty ps then false else true) (sentinel Sentinel.not_found) >> pure ps

    abbrev bounded : Document → Exec W (List DocumentPage)
    bounded doc =
        guard (if ltb (clamp_end doc.total_pages end) (clamp_start start) then false else true) (
          plain (
            concat (
              "start ("
              ∷ decimal (clamp_start start)
              ∷ ") must be <= end ("
              ∷ decimal (clamp_end doc.total_pages end)
              ∷ ")"
              ∷ [])))
        >> reading doc

    reading-eq-ok :
        (doc : Document) (w : W) (ps : List DocumentPage) (w' : W)
        → reading doc w ≡ (ok ps, w')
        → (docs.get_page_range doc_id (clamp_start start) (clamp_end doc.total_pages end) w
            ≡ (ok ps, w'))
          × (is_empty ps ≡ false)
    reading-eq-ok doc w ps w' h =
        let (qs, w₁, read, rest) =
          >>=-eq-ok (docs.get_page_range doc_id (clamp_start start) (clamp_end doc.total_pages end))
            (λ qs.
              guard (if is_empty qs then false else true) (sentinel Sentinel.not_found) >> pure qs)
            w ps w' h in
        let (u, w₂, passed, done) =
          >>=-eq-ok (guard (if is_empty qs then false else true) (sentinel Sentinel.not_found))
            (λ _. pure qs) w₁ ps w' rest in
        let (some_page, same) =
          guard-eq-ok (if is_empty qs then false else true) (sentinel Sentinel.not_found) w₁ u w₂
            passed in
        let (same_pages, same_end) = answered qs ps w₂ w' done in
        (
          subst₂
              (λ x v.
                docs.get_page_range doc_id (clamp_start start) (clamp_end doc.total_pages end) w
                ≡ (ok x, v))
              same_pages (sym same ∙ same_end) read,
          ap is_empty (sym same_pages) ∙ ground arith,
        )

    -- Whatever the store and the repository are, a range of pages is given only of a document that
    -- the repository gives to this caller and that is ready. What is read, and is not empty, are the
    -- pages from a first to a last one that lie within the range asked for, within one and the
    -- document's number of pages, and in order.
    pub pages_of_range-Served :
        (w : W) (ps : List DocumentPage) (w' : W)
        → pages_of_range store docs doc_id user_id start end w ≡ (ok ps, w')
        → Served start end w ps w'
    unfolding pages_of_range
    pages_of_range-Served w ps w' h =
        let (doc, w₁, got, rest) =
          >>=-eq-ok (ready_document store docs doc_id user_id) bounded w ps w' h in
        let message = plain (
          concat (
            "start ("
            ∷ decimal (clamp_start start)
            ∷ ") must be <= end ("
            ∷ decimal (clamp_end doc.total_pages end)
            ∷ ")"
            ∷ [])) in
        let fits =
          if ltb (clamp_end doc.total_pages end) (clamp_start start) then false else true in
        let (u, w₂, passed, done) =
          >>=-eq-ok (guard fits message) (λ _. reading doc) w₁ ps w' rest in
        let (in_order, same) = guard-eq-ok fits message w₁ u w₂ passed in
        let (allowed, status) = ready_document-eq-ok w doc w₁ got in
        let (read, found) =
          reading-eq-ok doc w₁ ps w' (subst (λ v. reading doc v ≡ (ok ps, w')) same done) in
        let (to_end, to_total) = clamped doc.total_pages end in
        record {
          doc = doc;
          first = clamp_start start;
          last = clamp_end doc.total_pages end;
          before = w₁;
          allowed = allowed;
          status = status;
          read = read;
          from_one = ground arith;
          from_start = ground arith;
          in_order = ground arith;
          to_end = to_end;
          to_total = to_total;
          found = found;
        }
