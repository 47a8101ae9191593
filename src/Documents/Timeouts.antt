-- ===== src/Documents/Timeouts.antt =====
-- Which documents the watchdog's statement changes.
use mathlib.Core.List.{Mem, mem-cons, not-mem-nil}
use mathlib.Core.Logic.Or
use minio_3d.Base.{
  ℕ, ◌+◌, Bool, true, false, ◌≡◌, refl, sym, ◌∙◌, List, [], ◌∷◌, arith, any, count, update,
  if◌then◌else◌,
}
use minio_3d.Errors.{ok}
use minio_3d.Types.{Document, DocumentStatus, processing, ready, failed}
use minio_3d.Sql.{Tables, Postgres, Conn}
use minio_3d.Sql.Laws.{label-query-eq-ok}
use minio_3d.Documents.Rows.{is_processing, is_stuck, timed_out, fail_stuck, fail_stuck_documents}

abbrev pub is_failed : DocumentStatus → Bool
is_failed processing = false
is_failed ready = false
is_failed failed = true

failed_or : (s : DocumentStatus) → is_processing s ≡ true → is_failed s ≡ false
failed_or processing h = refl
failed_or ready h = refl
failed_or failed h = ground arith

module _ (cutoff now : ℕ) where
  abbrev ended : List Document → List Document
  ended ds = update (is_stuck cutoff) (timed_out now) ds

  none_stuck : (ds : List Document) → any (is_stuck cutoff) (ended ds) ≡ false
  none_stuck [] = refl
  none_stuck (d ∷ ds) = ground (arith, none_stuck ds)

  failed-ended :
      (ds : List Document)
      → count (λ d. is_failed d.status) (ended ds)
        ≡ count (λ d. is_failed d.status) ds + count (is_stuck cutoff) ds
  failed-ended [] = refl
  failed-ended (d ∷ ds) = ground (arith, failed-ended ds, failed_or d.status)

  mem-ended :
      (ds : List Document) (d : Document) → Mem d ds → is_stuck cutoff d ≡ false → Mem d (ended ds)
  mem-ended [] d m h = absurd (not-mem-nil m)
  mem-ended (e ∷ ds) d m h = mem-cons.1 (
      Or.elim (λ x y. squash₁ x y) (mem-cons.0 m) (λ same. Or.inl (same ∙ kept e (rw (sym same) h)))
        (λ later. Or.inr (mem-ended ds d later h)))
    where
      kept :
          (e : Document)
          → is_stuck cutoff e ≡ false
          → e ≡ (if is_stuck cutoff e then timed_out now e else e)
      kept e h = rw h

module _ (pg : Postgres) (cutoff : ℕ) where
  of_statement :
      (n : ℕ) (t t' : Tables)
      → fail_stuck pg cutoff t ≡ ok (n, t')
      → (n ≡ count (is_stuck cutoff) t.documents)
        × (t'.documents ≡ ended cutoff (pg.now t) t.documents)
        × (t'.pages ≡ t.pages)
  unfolding fail_stuck
  of_statement n t t' h = ground arith

  -- When the watchdog's statement has succeeded, no document created before the cutoff is still in
  -- processing; the number that it returns is the number of documents that were, by which the
  -- failed ones have grown; every other document is as before, and so are its pages.
  pub fail_stuck_documents_lem :
      (c : Conn) (n : ℕ) (c' : Conn)
      → fail_stuck_documents pg cutoff c ≡ (ok n, c')
      → (n ≡ count (is_stuck cutoff) c.tables.documents)
        × (any (is_stuck cutoff) c'.tables.documents ≡ false)
        × (count (λ d. is_failed d.status) c'.tables.documents
            ≡ count (λ d. is_failed d.status) c.tables.documents + n)
        × ((d : Document)
            → Mem d c.tables.documents
            → is_stuck cutoff d ≡ false
            → Mem d c'.tables.documents)
        × (c'.tables.pages ≡ c.tables.pages)
  unfolding fail_stuck_documents
  fail_stuck_documents_lem c n c' h =
      let (counted, documents, pages) =
        of_statement n c.tables c'.tables
          (label-query-eq-ok "fail stuck documents" (fail_stuck pg cutoff) c n c' h) in
      (
        counted,
        rw documents (none_stuck cutoff (pg.now c.tables) c.tables.documents),
        rw (documents, counted) (failed-ended cutoff (pg.now c.tables) c.tables.documents),
        λ d m h. rw documents (mem-ended cutoff (pg.now c.tables) c.tables.documents d m h),
        pages,
      )
