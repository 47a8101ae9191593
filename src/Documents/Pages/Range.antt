-- ===== src/Documents/Pages/Range.antt =====
-- Which pages a range has, and their order.
use minio_3d.Base.{
  ℕ, String, Bool, true, ◌&&◌, ◌||◌, ◌≡◌, ◌∙◌, List, [], ◌∷◌, leb, arith, count, select, All,
  insert_by, order_by, Bool-cases, inl, inr,
}
use minio_3d.Counts.{count-order_by, count-select}
use minio_3d.Errors.{ok}
use minio_3d.Types.{DocumentPage}
use minio_3d.Sql.{Tables, Conn}
use minio_3d.Sql.Laws.{label-query-eq-ok}
use minio_3d.Metadata.Save.{int32_end}
use minio_3d.Documents.Pages.{in_range, page_order, fetch_range, get_page_range}

abbrev IsBefore : DocumentPage → DocumentPage → Type 0
IsBefore p q = page_order p q ≡ true

-- Every page stands before the later ones.
abbrev pub IsSorted : List DocumentPage → Type 0
IsSorted [] = Unit
IsSorted (p ∷ ps) = All (IsBefore p) ps × IsSorted ps

IsBefore-All :
    (p q : DocumentPage) (ps : List DocumentPage)
    → page_order p q ≡ true
    → All (IsBefore q) ps
    → All (IsBefore p) ps
IsBefore-All p q [] h a = tt
IsBefore-All p q (r ∷ ps) h a = (ground arith, IsBefore-All p q ps h a.1)

All-insert_by :
    (p q : DocumentPage) (ps : List DocumentPage)
    → page_order q p ≡ true
    → All (IsBefore q) ps
    → All (IsBefore q) (insert_by page_order p ps)
All-insert_by p q [] h a = (h, tt)
All-insert_by p q (r ∷ ps) h a = elim (Bool-cases (page_order p r)) [
  | inl first ↦ rw first (h, a)
  | inr later ↦ rw later (a.0, All-insert_by p q ps h a.1)
]

insert_by-IsSorted :
    (p : DocumentPage) (ps : List DocumentPage) → IsSorted ps → IsSorted (insert_by page_order p ps)
insert_by-IsSorted p [] h = (tt, tt)
insert_by-IsSorted p (q ∷ ps) h = elim (Bool-cases (page_order p q)) [
  | inl first ↦ rw first ((first, IsBefore-All p q ps first h.0), h)
  | inr later ↦ rw later (All-insert_by p q ps (ground arith) h.0, insert_by-IsSorted p ps h.1)
]

order_by-IsSorted : (ps : List DocumentPage) → IsSorted (order_by page_order ps)
order_by-IsSorted [] = tt
order_by-IsSorted (p ∷ ps) = insert_by-IsSorted p (order_by page_order ps) (order_by-IsSorted ps)

module _ (doc_id : String) (start end : ℕ) where
  fetched :
      (t : Tables) (ps : List DocumentPage) (t' : Tables)
      → fetch_range doc_id start end t ≡ ok (ps, t')
      → (ps ≡ order_by page_order (select (in_range doc_id start end) t.pages)) × (t' ≡ t)
  unfolding fetch_range
  fetched t ps t' h = elim (Bool-cases (leb int32_end start || leb int32_end end)) [
    | inl big ↦ let q = rw big at h in cc
    | inr fits ↦ let q = rw fits at h in (ground arith, ground arith)
  ]

  -- `GetPageRange` answers with exactly the pages of the document whose numbers lie in the range,
  -- each as often as the table has it, in the order of their numbers, and changes nothing.
  pub get_page_range_lem :
      (c : Conn) (ps : List DocumentPage) (c' : Conn)
      → get_page_range doc_id start end c ≡ (ok ps, c')
      → IsSorted ps
        × ((test : DocumentPage → Bool)
            → count test ps ≡ count (λ p. in_range doc_id start end p && test p) c.tables.pages)
        × (c'.tables ≡ c.tables)
  unfolding get_page_range
  get_page_range_lem c ps c' h =
      let (rows, same) =
        fetched c.tables ps c'.tables
          (label-query-eq-ok "get page range" (fetch_range doc_id start end) c ps c' h) in
      let found = select (in_range doc_id start end) c.tables.pages in
      (
        rw rows (order_by-IsSorted found),
        λ test. rw rows (
            count-order_by page_order test found
            ∙ count-select test (in_range doc_id start end) c.tables.pages),
        same,
      )
