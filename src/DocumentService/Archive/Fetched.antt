-- ===== src/DocumentService/Archive/Fetched.antt =====
-- What the archive of a range holds.
use mathlib.Core.Path.{subst, subst₂}
use mathlib.Core.List.{append-nil, append_assoc}
use minio_3d.Base.{
  ℕ, String, true, ◌≡◌, refl, sym, ap, ◌∙◌, ◌⊎◌, inl, inr, List, [], ◌∷◌, ◌++◌, arith,
}
use minio_3d.Errors.{Result, ok}
use minio_3d.Types.{DocumentPage}
use minio_3d.Exec.{Exec, lift, label}
use minio_3d.Exec.Laws.{>>=-eq-ok, relabel-eq-ok}
use minio_3d.Storage.{Bytes, Storage}
use minio_3d.DocumentService.{DocumentRepository, pages_of_range}
use minio_3d.DocumentService.Pages.{Served, pages_of_range-Served}
use minio_3d.DocumentService.Archive.{
  new_archive, HttpResponse, HttpClient, Archive, written, create, extend, copy, on_world, Flow,
  buffered, flushed, refused, completed, cut_off, close, on_archive, and_close, for_page,
  entry_name, zip_page, zip_pages, get_page_range,
}

-- One entry for each page, with the bytes of its response.
abbrev pub entries_of : List DocumentPage → List HttpResponse → List (String × Bytes)
entries_of [] rs = []
entries_of (p ∷ ps) [] = []
entries_of (p ∷ ps) (r ∷ rs) = (entry_name p, r.received) ∷ entries_of ps rs

module _ {W : Type 0} (store : Storage W) (http : HttpClient W) where
  -- The responses to requests, one after another, for the URLs that the store signs for the pages.
  abbrev pub Fetched : List DocumentPage → W → List HttpResponse → W → Type 0
  Fetched [] w [] w' = w ≡ w'
  Fetched [] w (r ∷ rs) w' = ⊥
  Fetched (p ∷ ps) w [] w' = ⊥
  Fetched (p ∷ ps) w (r ∷ rs) w' =
      (url : String) × (w₁ : W) × (w₂ : W) × (store.get_presigned_url p.minio_path w ≡ (ok url, w₁))
      × (http.do_request url w₁ ≡ (ok r, w₂))
      × Fetched ps w₂ rs w'

extend-append :
    (body : Bytes) (es : List (String × Bytes)) (name : String)
    → extend body (es ++ (name, []) ∷ []) ≡ es ++ (name, body) ∷ []
extend-append body [] name = refl
extend-append body (e ∷ []) name = refl
extend-append body (e ∷ f ∷ es) name = ap (λ t. e ∷ t) (extend-append body (f ∷ es) name)

written-eq-ok :
    (fs : List Flow) (f : Archive → Archive) (a a' : Archive)
    → ((b c : Archive) → c.entries ≡ b.entries → (f c).entries ≡ (f b).entries)
    → written fs f a ≡ (ok tt, a')
    → a'.entries ≡ (f a).entries
written-eq-ok [] f a a' same h = ground arith
written-eq-ok (buffered ∷ fs) f a a' same h = ground (arith, same a (record a { flows = fs }) refl)
written-eq-ok (flushed ∷ fs) f a a' same h =
    ground (arith, same a (record a { flows = fs; begun = true }) refl)
written-eq-ok (refused m ∷ fs) f a a' same h = cc

-- Closing leaves the entries, and the archive whole or cut off.
abbrev pub IsEnded : Archive → Type 0
IsEnded a = (a.closing ≡ completed) ⊎ ((m : String) × (a.closing ≡ cut_off m))

close_lem :
    (fs : List Flow) (a : Archive) → ((close fs a).entries ≡ a.entries) × IsEnded (close fs a)
close_lem [] a = (refl, inl refl)
close_lem (buffered ∷ fs) a = (refl, inl refl)
close_lem (flushed ∷ fs) a = (refl, inl refl)
close_lem (refused m ∷ fs) a = (refl, inr (m, refl))

create-eq-ok :
    (name : String) (a a' : Archive)
    → create name a ≡ (ok tt, a')
    → a'.entries ≡ a.entries ++ (name, []) ∷ []
unfolding create
create-eq-ok name a a' h =
    written-eq-ok a.flows (λ a. record a { entries = a.entries ++ (name, []) ∷ [] }) a a'
      (λ b c e. ap (λ es. es ++ (name, []) ∷ []) e) h

copy-eq-ok :
    (r : HttpResponse) (a a' : Archive)
    → copy r a ≡ (ok tt, a')
    → a'.entries ≡ extend r.received a.entries
unfolding copy
copy-eq-ok r a a' h =
    let (u, a₁, sent, rest) =
      >>=-eq-ok (λ a. written a.flows (λ a. record a { entries = extend r.received a.entries }) a)
        (λ _. lift r.ending) a tt a' h in
    let same : a₁ ≡ a' = ground arith in
    subst (λ b. b.entries ≡ extend r.received a.entries) same
      (written-eq-ok a.flows (λ a. record a { entries = extend r.received a.entries }) a a₁
        (λ b c e. ap (extend r.received) e) sent)

module _ {ℓ} {W : Type 0} {A : Type ℓ} where
  on_world-eq-ok :
      (m : String) (f : Exec W A) (s : W × Archive) (x : A) (s' : W × Archive)
      → label m (on_world f) s ≡ (ok x, s')
      → (f s.0 ≡ (ok x, s'.0)) × (s'.1 ≡ s.1)
  on_world-eq-ok m f s x s' h =
      let done = relabel-eq-ok m (on_world f s) x s' h in
      (
        ap (λ (q : Result A × (W × Archive)). (q.0, q.1.0)) done,
        sym (ap (λ (q : Result A × (W × Archive)). q.1.1) done),
      )

  on_archive-eq-ok :
      (m : String) (f : Exec Archive A) (s : W × Archive) (x : A) (s' : W × Archive)
      → label m (on_archive f) s ≡ (ok x, s')
      → (f s.1 ≡ (ok x, s'.1)) × (s'.0 ≡ s.0)
  on_archive-eq-ok m f s x s' h =
      let done = relabel-eq-ok m (on_archive f s) x s' h in
      (
        ap (λ (q : Result A × (W × Archive)). (q.0, q.1.1)) done,
        sym (ap (λ (q : Result A × (W × Archive)). q.1.0) done),
      )

module _ {ℓ} {W : Type 0} {A : Type ℓ} where
  and_close-eq-ok :
      (m : Exec (W × Archive) A) (s : W × Archive) (x : A) (s' : W × Archive)
      → and_close m s ≡ (ok x, s')
      → (t : Archive) × (m s ≡ (ok x, (s'.0, t))) × (close t.flows t ≡ s'.1)
  and_close-eq-ok m s x s' h =
      let t = (m s).1.1 in
      (
        t,
        ap (λ (q : Result A × (W × Archive)). (q.0, (q.1.0, t))) h,
        ap (λ (q : Result A × (W × Archive)). q.1.1) h,
      )

module _ {W : Type 0} (store : Storage W) (http : HttpClient W) where
  zip_page-eq-ok :
      (p : DocumentPage) (w : W) (a : Archive) (w' : W) (a' : Archive)
      → zip_page store http p (w, a) ≡ (ok tt, (w', a'))
      → (url : String) × (w₁ : W) × (r : HttpResponse) × (store.get_presigned_url p.minio_path w
          ≡ (ok url, w₁))
        × (http.do_request url w₁ ≡ (ok r, w'))
        × (a'.entries ≡ a.entries ++ (entry_name p, r.received) ∷ [])
  unfolding zip_page
  zip_page-eq-ok p w a w' a' h =
      let name = entry_name p in
      let (url, s₁, signed, h₁) =
        >>=-eq-ok (label (for_page "presign" p) (on_world (store.get_presigned_url p.minio_path))) _
          (w, a) tt (w', a') h in
      let (u, s₂, built, h₂) =
        >>=-eq-ok (label (for_page "build request" p) (lift (http.new_request url))) _ s₁ tt
          (w', a') h₁ in
      let (r, s₃, fetched, h₃) =
        >>=-eq-ok (label (for_page "fetch" p) (on_world (http.do_request url))) _ s₂ tt (w', a')
          h₂ in
      let (v, s₄, created, copied) =
        >>=-eq-ok (label (for_page "zip entry" p) (on_archive (create name)))
          (λ _. label (for_page "write zip" p) (on_archive (copy r))) s₃ tt (w', a') h₃ in
      let same =
        relabel-eq-ok (for_page "build request" p) (lift (http.new_request url) s₁) u s₂ built in
      let (signed_at, kept₁) =
        on_world-eq-ok (for_page "presign" p) (store.get_presigned_url p.minio_path) (w, a) url s₁
          signed in
      let (fetched_at, kept₃) =
        on_world-eq-ok (for_page "fetch" p) (http.do_request url) s₂ r s₃ fetched in
      let (created_at, kept₄) =
        on_archive-eq-ok (for_page "zip entry" p) (create name) s₃ v s₄ created in
      let (copied_at, kept₅) =
        on_archive-eq-ok (for_page "write zip" p) (copy r) s₄ tt (w', a') copied in
      let entries₄ = create-eq-ok name s₃.1 s₄.1 created_at in
      let entries₅ = copy-eq-ok r s₄.1 a' copied_at in
      let stay : s₁ ≡ s₂ = ap (λ (q : Result (Unit {0}) × (W × Archive)). q.1) same in
      (
        url,
        s₁.0,
        r,
        signed_at,
        subst₂ (λ v z. http.do_request url v ≡ (ok r, z)) (sym (ap (λ (s : W × Archive). s.0) stay))
            (sym (kept₅ ∙ kept₄)) fetched_at,
        entries₅
            ∙ ap (extend r.received) entries₄
            ∙ extend-append r.received s₃.1.entries name
            ∙ ap (λ (b : Archive). b.entries ++ (name, r.received) ∷ [])
                (kept₃ ∙ sym (ap (λ (s : W × Archive). s.1) stay) ∙ kept₁),
      )

  -- What a loop that succeeds has fetched, and what it has put behind the entries that were there.
  zip_pages-eq-ok :
      (ps : List DocumentPage) (w : W) (a : Archive) (w' : W) (a' : Archive)
      → zip_pages store http ps (w, a) ≡ (ok tt, (w', a'))
      → (rs : List HttpResponse) × Fetched store http ps w rs w'
        × (a'.entries ≡ a.entries ++ entries_of ps rs)
  unfolding zip_pages
  zip_pages-eq-ok [] w a w' a' h = (
    [],
    ap (λ (q : Result (Unit {0}) × (W × Archive)). q.1.0) h,
    sym (ap (λ (q : Result (Unit {0}) × (W × Archive)). q.1.1.entries) h)
        ∙ sym (append-nil a.entries),
  )
  zip_pages-eq-ok (p ∷ ps) w a w' a' h =
      let (u, s, zipped, rest) =
        >>=-eq-ok (zip_page store http p) (λ _. zip_pages store http ps) (w, a) tt (w', a') h in
      let (url, w₁, r, signed, fetched, entries) = zip_page-eq-ok p w a s.0 s.1 zipped in
      let (rs, later, added) = zip_pages-eq-ok ps s.0 s.1 w' a' rest in
      (
        r ∷ rs,
        (url, w₁, s.0, signed, fetched, later),
        added
            ∙ ap (λ es. es ++ entries_of ps rs) entries
            ∙ append_assoc a.entries ((entry_name p, r.received) ∷ []) (entries_of ps rs),
      )

module _ {W : Type 0} (store : Storage W) (http : HttpClient W) (docs : DocumentRepository W)
    (doc_id user_id : String) (start end : ℕ) where
  -- What a range that was sent says.
  pub record Sent (w w' : W) (a' : Archive) : Type 0 where
    pub pages : List DocumentPage
    pub before : W
    pub responses : List HttpResponse
    pub served : Served store docs doc_id user_id start end w pages before
    pub fetched : Fetched store http pages before responses w'
    pub entries : a'.entries ≡ entries_of pages responses
    pub ended : IsEnded a'

  -- Whatever the store, the repository and the client are: when GetPageRange succeeds on a new archive,
  -- it has read a range of a ready document that the repository gives to this caller, within the range
  -- asked for and the pages of the document; the writer of the archive has taken one entry for each
  -- of these pages, in order, named after its number, with the bytes of the response to a request for
  -- the URL that the store signed for the page; and the writer has been closed, so that the archive
  -- is whole, or is cut off where the response refused the last of it.
  pub get_page_range-Sent :
      (w : W) (flows : List Flow) (w' : W) (a' : Archive)
      → get_page_range store http docs doc_id user_id start end (w, new_archive flows)
        ≡ (ok tt, (w', a'))
      → Sent w w' a'
  unfolding get_page_range
  get_page_range-Sent w flows w' a' h =
      let (ps, s, served, rest) =
        >>=-eq-ok (on_world (pages_of_range store docs doc_id user_id start end))
          (λ pages. and_close (zip_pages store http pages)) (w, new_archive flows) tt (w', a') h in
      let (t, looped, closed) = and_close-eq-ok (zip_pages store http ps) s tt (w', a') rest in
      let (rs, fetched, entries) = zip_pages-eq-ok store http ps s.0 s.1 w' t looped in
      let (same, ended) = close_lem t.flows t in
      let fresh : s.1 ≡ new_archive flows =
        sym (ap (λ (q : Result (List DocumentPage) × (W × Archive)). q.1.1) served) in
      record {
        pages = ps;
        before = s.0;
        responses = rs;
        served =
            pages_of_range-Served store docs doc_id user_id start end w ps s.0
              (ap (λ (q : Result (List DocumentPage) × (W × Archive)). (q.0, q.1.0)) served);
        fetched = fetched;
        entries =
            sym (ap (λ (b : Archive). b.entries) closed)
            ∙ same
            ∙ entries
            ∙ ap (λ (b : Archive). b.entries ++ entries_of ps rs) fresh;
        ended = subst IsEnded closed ended;
      }
