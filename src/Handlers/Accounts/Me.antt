-- ===== src/Handlers/Accounts/Me.antt =====
-- handlers/users.go: the counts of documents in a profile.
use mathlib.Core.Path.{subst}
use minio_3d.Base.{
  ℕ, ◌+◌, String, Bool, ◌&&◌, ◌≡◌, refl, ap, ◌∙◌, List, [], ◌∷◌, ◌==◌, arith, if◌then◌else◌, count,
  select, order_by, leb, length,
}
use minio_3d.Counts.{count-order_by, count-select}
use minio_3d.Errors.{Error, Result, ok, err}
use minio_3d.Types.{User, Document, DocumentStatus, processing, ready, failed}
use minio_3d.Sql.{Tables, Conn, reading, one_row}
use minio_3d.Sql.Laws.{label-query-eq-ok}
use minio_3d.Sql.Reading.{or_not_found-query-reading}
use minio_3d.Metadata.Reads.{get_user_by_id}
use minio_3d.Documents.Rows.{list_documents, is_processing}
use minio_3d.Documents.Timeouts.{is_failed}
use minio_3d.DocumentService.{is_ready}
use minio_3d.Handlers.{content, respond, internal_error, missing_error, finish}
use minio_3d.Handlers.Accounts.{Tally, tally, counted, no_documents, Profile, profile, profiled, me}

-- How many documents of a user pass a test.
abbrev pub owned_count : String → (DocumentStatus → Bool) → Tables → ℕ
owned_count user_id test t = count (λ d. d.user_id == user_id && test d.status) t.documents

pub record Tallied (user_id : String) (p : Profile) (t : Tables) : Type 0 where
  pub readies : p.tallied.ready_count ≡ owned_count user_id is_ready t
  pub in_process : p.tallied.processing_count ≡ owned_count user_id is_processing t
  pub failures : p.tallied.failed_count ≡ owned_count user_id is_failed t
  pub sum : p.tallied.ready_count + p.tallied.processing_count + p.tallied.failed_count ≡ p.total

abbrev total_of : Tally → ℕ
total_of t = t.ready_count + t.processing_count + t.failed_count

-- One document more.
counted_lem :
    (s : DocumentStatus) (t : Tally)
    → ((counted s t).ready_count ≡ (if is_ready s then t.ready_count + 1 else t.ready_count))
      × ((counted s t).processing_count
          ≡ (if is_processing s then t.processing_count + 1 else t.processing_count))
      × ((counted s t).failed_count ≡ (if is_failed s then t.failed_count + 1 else t.failed_count))
      × (total_of (counted s t) ≡ total_of t + 1)
counted_lem processing t = (refl, refl, refl, omega arith)
counted_lem ready t = (refl, refl, refl, omega arith)
counted_lem failed t = (refl, refl, refl, omega arith)

tally_lem :
    (ds : List Document) (t : Tally)
    → ((tally t ds).ready_count ≡ t.ready_count + count (λ d. is_ready d.status) ds)
      × ((tally t ds).processing_count
          ≡ t.processing_count + count (λ d. is_processing d.status) ds)
      × ((tally t ds).failed_count ≡ t.failed_count + count (λ d. is_failed d.status) ds)
      × (total_of (tally t ds) ≡ total_of t + length ds)
unfolding tally
tally_lem [] t = (omega arith, omega arith, omega arith, omega arith)
tally_lem (d ∷ ds) t =
    let (r, p, f, s) = tally_lem ds (counted d.status t) in
    let (r', p', f', s') = counted_lem d.status t in
    (ground (arith, r, r'), ground (arith, p, p'), ground (arith, f, f'), ground (arith, s, s'))

module _ (user_id : String) where
  abbrev newest : Document → Document → Bool
  newest d e = leb e.created_at d.created_at

  abbrev mine : Tables → List Document
  mine t = select (λ d. d.user_id == user_id) t.documents

  listed-count :
      (c : Conn) (docs : List Document) (c' : Conn)
      → list_documents user_id c ≡ (ok docs, c')
      → (test : DocumentStatus → Bool)
      → count (λ d. test d.status) docs ≡ owned_count user_id test c.tables
  unfolding list_documents
  listed-count c docs c' h test =
      let rows =
        label-query-eq-ok "list documents" (reading (λ t. ok (order_by newest (mine t)))) c docs c'
          h in
      let same : docs ≡ order_by newest (mine c.tables) = ground arith in
      ap (count (λ (d : Document). test d.status)) same
      ∙ count-order_by newest (λ d. test d.status) (mine c.tables)
      ∙ count-select (λ d. test d.status) (λ d. d.user_id == user_id) c.tables.documents

  listed-Tallied :
      (user : User) (c : Conn) (docs : List Document) (c' : Conn)
      → list_documents user_id c ≡ (ok docs, c')
      → Tallied user_id (profile user docs) c.tables
  unfolding tally
  listed-Tallied user c docs c' h =
      let (r, p, f, s) = tally_lem docs no_documents in
      record {
        readies = omega (arith, r, listed-count c docs c' h is_ready);
        in_process = omega (arith, p, listed-count c docs c' h is_processing);
        failures = omega (arith, f, listed-count c docs c' h is_failed);
        sum = omega (arith, s);
      }

  listed :
      (user : User) (c : Conn) (q : Result (List Document) × Conn) (p : Profile)
      → list_documents user_id c ≡ q
      → (finish internal_error (λ docs. respond 200 (profile user docs)) q).0.body ≡ content p
      → Tallied user_id p c.tables
  listed user c (ok docs, c') p h found =
      subst (λ x. Tallied user_id x c.tables) (same_content (profile user docs) p found)
        (listed-Tallied user c docs c' h)
    where
      same_content : (x y : Profile) → content x ≡ content y → x ≡ y
      same_content x y k = ground arith
  listed user c (err e, c') p h found = cc

  looked_up :
      (c : Conn) (q : Result User × Conn) (p : Profile)
      → q.1.tables ≡ c.tables
      → (profiled user_id q).0.body ≡ content p
      → Tallied user_id p c.tables
  looked_up c (ok user, c₁) p same found =
      subst (Tallied user_id p) same (listed user c₁ (list_documents user_id c₁) p refl found)
  looked_up c (err e, c₁) p same found = absurd (no_content e p found)
    where
      no_content :
          (e : Error) (p : Profile)
          → (missing_error {A = Profile} "user not found" e).body ≡ content p
          → ⊥
      no_content e p k = ground arith

  -- When `Me` answers with a profile, its counts are those of the documents of the user in the
  -- tables by status, and they add up to its total.
  pub me-Tallied :
      (c : Conn) (p : Profile) → (me user_id c).0.body ≡ content p → Tallied user_id p c.tables
  unfolding me get_user_by_id
  me-Tallied c p h =
      looked_up c (get_user_by_id user_id c) p
        (or_not_found-query-reading "get user by id"
          (λ t. one_row (select (λ u. u.id == user_id) t.users)) c)
        h
