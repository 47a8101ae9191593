-- ===== src/Documents/Usage.antt =====
-- What creating and deleting a document do to the owner's account.
use minio_3d.Base.{
  ℕ, ◌+◌, String, true, false, ◌&&◌, ◌≡◌, ◌≢◌, refl, sym, ap, ◌∙◌, List, [], ◌∷◌, ◌++◌, ◌==◌,
  eq_refl, leb, arith, any, select, discard,
}
use mathlib.Core.Path.{subst₂}
use minio_3d.Errors.{ok}
use minio_3d.Types.{User, Document, DocumentStatus}
use minio_3d.Exec.{pure, label, ◌>>◌}
use minio_3d.Exec.Laws.{>>=-eq-ok}
use minio_3d.Sql.{Tables, Postgres, Conn, Sql, quiet, query, one_row}
use minio_3d.Sql.Laws.{label-query-eq-ok, transaction-eq-ok}
use minio_3d.Metadata.Accounts.{account, account-charged, account-charged_ne}
use minio_3d.Metadata.Save.{quotas, add_usage, int64_end}
use minio_3d.Metadata.Save.Effect.{charged}
use minio_3d.Documents.Rows.{
  new_document, create_document_row, create_document_tx, create_document, owns_document,
  delete_document,
}

module _ (pg : Postgres) (user_id filename minio_path hash : String) (size_bytes : ℕ) where
  -- What a creation that ended well has done.
  pub record Created (t : Tables) (d : Document) (t' : Tables) : Type 0 where
    pub fresh : any (λ e. e.id == d.id) t.documents ≡ false
    pub documents : t'.documents ≡ t.documents ++ d ∷ []
    pub users : t'.users ≡ charged user_id size_bytes t.users
    pub pages : t'.pages ≡ t.pages
    pub webhooks : t'.webhooks ≡ t.webhooks
    pub files : t'.files ≡ t.files
    pub owner : d.user_id ≡ user_id
    pub size : d.size_bytes ≡ size_bytes
    pub status : d.status ≡ DocumentStatus.processing

  inserted :
      (t t₁ t' : Tables) (d : Document)
      → create_document_row pg user_id filename minio_path hash size_bytes t ≡ ok (d, t₁)
      → add_usage size_bytes user_id t₁ ≡ ok (tt, t')
      → Created t d t'
  unfolding create_document_row add_usage
  inserted t t₁ t' d h p = ground arith

  abbrev charge : Document → Sql Document
  charge d = label "update storage usage" (query (add_usage size_bytes user_id)) >> pure d

  charge-eq-ok :
      (d : Document) (c : Conn) (r : Document) (c' : Conn)
      → charge d c ≡ (ok r, c')
      → (add_usage size_bytes user_id c.tables ≡ ok (tt, c'.tables)) × (r ≡ d)
  charge-eq-ok d c r c' h =
      let (u, c₁, charged_up, rest) =
        >>=-eq-ok (label "update storage usage" (query (add_usage size_bytes user_id)))
          (λ _. pure d) c r c' h in
      let e : add_usage size_bytes user_id c.tables ≡ ok (u, c₁.tables) =
        label-query-eq-ok "update storage usage" (add_usage size_bytes user_id) c u c₁ charged_up in
      (ground arith, ground arith)

  create_document_tx-Created :
      (c : Conn) (d : Document) (c' : Conn)
      → create_document_tx pg user_id filename minio_path hash size_bytes c ≡ (ok d, c')
      → Created c.tables d c'.tables
  unfolding create_document_tx
  create_document_tx-Created c r c' h =
      let row = create_document_row pg user_id filename minio_path hash size_bytes in
      let (d, c₁, made, rest) =
        >>=-eq-ok (label "create document" (query row)) (λ d. charge d) c r c' h in
      let (paid, same) = charge-eq-ok d c₁ r c' rest in
      inserted c.tables c₁.tables c'.tables r
        (label-query-eq-ok "create document" row c d c₁ made
          ∙ ap (λ x. ok (x, c₁.tables)) (sym same))
        paid

  pub create_document-Created :
      (c : Conn) (d : Document) (c' : Conn)
      → create_document pg user_id filename minio_path hash size_bytes c ≡ (ok d, c')
      → Created c.tables d c'.tables
  unfolding create_document
  create_document-Created c d c' h =
      let (c₁, c₂, before, ran, after) =
        transaction-eq-ok "commit"
          (create_document_tx pg user_id filename minio_path hash size_bytes) c d c' h in
      subst₂ (λ x y. Created x d y) before (sym after) (create_document_tx-Created c₁ d c₂ ran)

has_account :
    (user_id : String) (us : List User) (used quota : ℕ)
    → quotas (select (λ u. u.id == user_id) us) ≡ ok (used, quota)
    → any (λ u. u.id == user_id) us ≡ true
has_account user_id [] used quota h = cc
has_account user_id (u ∷ us) used quota h = ground (arith, has_account user_id us used quota)

fetched_last :
    (user_id : String) (ds : List Document) (d : Document)
    → any (λ e. e.id == d.id) ds ≡ false
    → owns_document d.id user_id d ≡ true
    → one_row (select (owns_document d.id user_id) (ds ++ d ∷ [])) ≡ ok d
fetched_last user_id [] d h o = rw o
fetched_last user_id (e ∷ ds) d h o = ground (arith, fetched_last user_id ds d)

dropped_last :
    (user_id : String) (ds : List Document) (d : Document)
    → any (λ e. e.id == d.id) ds ≡ false
    → owns_document d.id user_id d ≡ true
    → discard (owns_document d.id user_id) (ds ++ d ∷ []) ≡ ds
dropped_last user_id [] d h o = rw o
dropped_last user_id (e ∷ ds) d h o = ground (arith, dropped_last user_id ds d)

module _ (pg : Postgres) (user_id filename minio_path hash : String) (size_bytes : ℕ) where
  -- On a driver that answers, a document is created and charged whatever the user's quota is, so
  -- that the usage can pass the quota: only the range of the column and a fresh id are asked for.
  pub create_document-any_quota :
      (t : Tables) (used quota : ℕ)
      → account user_id t ≡ ok (used, quota)
      → any (λ u. u.id == user_id && leb int64_end (u.storage_bytes_used + size_bytes)) t.users
        ≡ false
      → any (λ e. e.id == pg.new_id t) t.documents ≡ false
      → (d : Document) × (t' : Tables) × (create_document pg user_id filename minio_path hash
            size_bytes
            (quiet t)
          ≡ (ok d, quiet t'))
        × (account user_id t' ≡ ok (used + size_bytes, quota))
  unfolding create_document new_document
  create_document-any_quota t used quota h range fresh =
      let known = has_account user_id t.users used quota h in
      let after = account-charged user_id size_bytes t.users used quota h in
      let d = new_document pg user_id filename minio_path hash size_bytes t in
      (
        d,
        record t { documents = t.documents ++ d ∷ []; users = charged user_id size_bytes t.users },
        ground arith,
        after,
      )

  -- A document that is created and then deleted, on a driver that answers, leaves no row of itself,
  -- and leaves its owner charged with its size; no other account has changed.
  pub delete_document-create_document :
      (t t' : Tables) (d : Document) (used quota : ℕ)
      → create_document pg user_id filename minio_path hash size_bytes (quiet t) ≡ (ok d, quiet t')
      → account user_id t ≡ ok (used, quota)
      → (t'' : Tables) × (delete_document d.id user_id (quiet t') ≡ (ok d, quiet t''))
        × (t''.documents ≡ t.documents)
        × (account user_id t'' ≡ ok (used + size_bytes, quota))
        × ((other : String) → other ≢ user_id → account other t'' ≡ account other t)
  unfolding delete_document
  delete_document-create_document t t' d used quota h before =
      let e =
        create_document-Created pg user_id filename minio_path hash size_bytes (quiet t) d
          (quiet t') h in
      let mine : owns_document d.id user_id d ≡ true =
        rw e.owner (ground (arith, eq_refl d.id, eq_refl user_id)) in
      let fetched : one_row (select (owns_document d.id user_id) t'.documents) ≡ ok d =
        rw (e.documents, fetched_last user_id t.documents d e.fresh mine) in
      let gone : discard (owns_document d.id user_id) t'.documents ≡ t.documents =
        rw (e.documents, dropped_last user_id t.documents d e.fresh mine) in
      rw fetched (
        _,
        refl,
        gone,
        rw e.users (account-charged user_id size_bytes t.users used quota before),
        λ other ne. rw e.users (account-charged_ne user_id size_bytes other t.users ne),
      )
