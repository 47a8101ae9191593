-- ===== src/Documents/Pages/Lookup.antt =====
-- What `GetPage` finds after `SavePage`.
use minio_3d.Base.{
  ℕ, String, Bool, true, false, ◌≡◌, ◌≢◌, ◌⊎◌, inl, inr, refl, List, [], ◌∷◌, ◌++◌, eq_iff, eq_refl,
  leb, arith, select, update, Bool-cases,
}
use minio_3d.Errors.{ok}
use minio_3d.Types.{DocumentPage}
use minio_3d.Sql.{Tables, Postgres, Conn, quiet, one_row}
use minio_3d.Sql.Laws.{label-query-eq-ok}
use minio_3d.Sql.Reading.{or_not_found-reading}
use minio_3d.Metadata.Save.{int32_end}
use minio_3d.Documents.Pages.{
  is_page, page_in, replaced, upserted, upsert_page, save_page, get_page,
}

module _ (doc_id : String) (number : ℕ) (minio_path : String) (size_bytes : ℕ) where
  first_replaced :
      (ps rest : List DocumentPage) (p : DocumentPage)
      → select (is_page doc_id number) ps ≡ p ∷ rest
      → one_row (
          select
            (is_page doc_id number)
            (update (is_page doc_id number) (replaced minio_path size_bytes) ps))
        ≡ ok (replaced minio_path size_bytes p)
  first_replaced [] rest p h = cc
  first_replaced (q ∷ ps) rest p h = ground (arith, first_replaced ps rest p)

  last_page :
      (ps : List DocumentPage) (p : DocumentPage)
      → select (is_page doc_id number) ps ≡ []
      → is_page doc_id number p ≡ true
      → one_row (select (is_page doc_id number) (ps ++ p ∷ [])) ≡ ok p
  last_page [] p h e = rw e
  last_page (q ∷ ps) p h e = ground (arith, last_page ps p)

  others_replaced :
      (other : DocumentPage → Bool) (ps : List DocumentPage)
      → ((p : DocumentPage) → other (replaced minio_path size_bytes p) ≡ other p)
      → ((p : DocumentPage) → is_page doc_id number p ≡ true → other p ≡ false)
      → select other (update (is_page doc_id number) (replaced minio_path size_bytes) ps)
        ≡ select other ps
  others_replaced other [] kept apart = refl
  others_replaced other (q ∷ ps) kept apart =
      ground (arith, others_replaced other ps kept apart, kept q, apart q)

select-append_ne :
    (other : DocumentPage → Bool) (ps : List DocumentPage) (p : DocumentPage)
    → other p ≡ false
    → select other (ps ++ p ∷ []) ≡ select other ps
select-append_ne other [] p h = rw h
select-append_ne other (q ∷ ps) p h = ground (arith, select-append_ne other ps p h)

-- A row has one document and one number.
apart :
    (doc_id o : String) (number m : ℕ)
    → (o ≢ doc_id) ⊎ (m ≢ number)
    → (p : DocumentPage) → is_page doc_id number p ≡ true
    → is_page o m p ≡ false
apart doc_id o number m (inl ne) p h =
    ground (arith, eq_iff p.document_id doc_id, eq_iff p.document_id o)
apart doc_id o number m (inr ne) p h = ground arith

module _ (pg : Postgres) (doc_id : String) (number : ℕ) (minio_path : String) (size_bytes : ℕ) where
  abbrev pub Found : DocumentPage → Tables → Type 0
  Found r t' =
      (one_row (select (is_page doc_id number) t'.pages) ≡ ok r)
      × (r.minio_path ≡ minio_path)
      × (r.size_bytes ≡ size_bytes)

  pub upserted-Found :
      (rows : List DocumentPage) (t : Tables) (r : DocumentPage) (t' : Tables)
      → select (is_page doc_id number) t.pages ≡ rows
      → upserted pg doc_id number minio_path size_bytes rows t ≡ ok (r, t')
      → Found r t'
  unfolding upserted
  upserted-Found [] t r t' e h =
      ground (arith, last_page doc_id number minio_path size_bytes t.pages r, eq_refl doc_id)
  upserted-Found (p ∷ rest) t r t' e h =
      ground (arith, first_replaced doc_id number minio_path size_bytes t.pages rest p)

  pub upserted-others :
      (rows : List DocumentPage) (t : Tables) (r : DocumentPage) (t' : Tables) (o : String) (m : ℕ)
      → (o ≢ doc_id) ⊎ (m ≢ number)
      → upserted pg doc_id number minio_path size_bytes rows t ≡ ok (r, t')
      → select (is_page o m) t'.pages ≡ select (is_page o m) t.pages
  unfolding upserted
  upserted-others [] t r t' o m ne h =
      let far = apart doc_id o number m ne r in
      ground (arith, select-append_ne (is_page o m) t.pages r, eq_refl doc_id)
  upserted-others (p ∷ rest) t r t' o m ne h =
      let same =
        others_replaced doc_id number minio_path size_bytes (is_page o m) t.pages (λ p. refl)
          (apart doc_id o number m ne) in
      ground arith

  pub upserted_of_ok :
      (t : Tables) (r : DocumentPage) (t' : Tables)
      → upsert_page pg doc_id number minio_path size_bytes t ≡ ok (r, t')
      → (leb int32_end number ≡ false)
        × (upserted pg doc_id number minio_path size_bytes
              (select (is_page doc_id number) t.pages)
              t
            ≡ ok (r, t'))
  unfolding upsert_page
  upserted_of_ok t r t' h = elim (Bool-cases (leb int32_end number)) [
    | inl big ↦ let q = rw big at h in cc
    | inr fits ↦ (fits, rw fits at h)
  ]

  -- After `SavePage` has succeeded, by an insert or over an older row, `GetPage` finds the page as
  -- it was saved, and finds every other page, of this document or another, as before.
  pub get_page-save_page :
      (c : Conn) (r : DocumentPage) (c' : Conn)
      → save_page pg doc_id number minio_path size_bytes c ≡ (ok r, c')
      → (get_page doc_id number (quiet c'.tables) ≡ (ok r, quiet c'.tables))
        × (r.minio_path ≡ minio_path)
        × (r.size_bytes ≡ size_bytes)
        × ((o : String) (m : ℕ)
            → (o ≢ doc_id) ⊎ (m ≢ number)
            → (get_page o m (quiet c'.tables)).0 ≡ (get_page o m (quiet c.tables)).0)
  unfolding save_page get_page
  get_page-save_page c r c' h =
      let (fits, done) = upserted_of_ok c.tables r c'.tables (
        label-query-eq-ok "save page" (upsert_page pg doc_id number minio_path size_bytes) c r c'
          h) in
      let (found, path, size) =
        upserted-Found (select (is_page doc_id number) c.tables.pages) c.tables r c'.tables refl
          done in
      (
        rw (fits, found),
        path,
        size,
        λ o m ne.
            let same =
              upserted-others (select (is_page doc_id number) c.tables.pages) c.tables r c'.tables o
                m ne done in
            or_not_found-reading "get page" (page_in o m) c'.tables c.tables (rw same refl),
      )

module _ (pg : Postgres) (doc_id : String) (number : ℕ) (minio_path : String) (size_bytes : ℕ) where
  upserted-documents :
      (rows : List DocumentPage) (t : Tables) (r : DocumentPage) (t' : Tables)
      → upserted pg doc_id number minio_path size_bytes rows t ≡ ok (r, t')
      → t'.documents ≡ t.documents
  unfolding upserted
  upserted-documents [] t r t' h = ground arith
  upserted-documents (p ∷ rest) t r t' h = ground arith

  pub upsert_page-documents :
      (t : Tables) (r : DocumentPage) (t' : Tables)
      → upsert_page pg doc_id number minio_path size_bytes t ≡ ok (r, t')
      → t'.documents ≡ t.documents
  upsert_page-documents t r t' h =
      upserted-documents (select (is_page doc_id number) t.pages) t r t'
        (upserted_of_ok pg doc_id number minio_path size_bytes t r t' h).1
