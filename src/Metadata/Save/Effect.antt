-- ===== src/Metadata/Save/Effect.antt =====
-- What a successful `Save` has done to the tables, read off its statements.
use minio_3d.Base.{
  ℕ, ◌+◌, String, false, not, ◌&&◌, ◌≡◌, Option, none, some, List, [], ◌∷◌, ◌++◌, ◌==◌, refl, ap,
  sym, arith, leb, any, select, update,
}
use mathlib.Core.Path.{subst₂}
use minio_3d.Errors.{ok, Sentinel, sentinel}
use minio_3d.Types.{User, FileMeta, is_null}
use minio_3d.Exec.{pure, ◌>>=◌, ◌>>◌, guard, label}
use minio_3d.Sql.{Tables, Postgres, SameOthers, Conn, Sql, Statement, query, beside, reading}
use minio_3d.Exec.Laws.{>>=-eq-ok, guard-eq-ok}
use minio_3d.Sql.Laws.{label-query-eq-ok, transaction-eq-ok}
use minio_3d.Metadata.Reads.{canonical}
use minio_3d.Metadata.Save.{
  SaveResult, quotas, int64_end, exceeds, lock_user, add_usage, incr_ref, insert_row, record_file,
  save_tx, save,
}

-- The files after the reference count of the row found has grown.
abbrev pub referenced : Option FileMeta → List FileMeta → List FileMeta
referenced none fs = fs
referenced (some e) fs =
    update (λ f. f.id == e.id) (λ f. record f { ref_count = f.ref_count + 1 }) fs

-- The key under which the new row is recorded.
abbrev pub shared_key : String → Option FileMeta → String
shared_key own none = own
shared_key own (some e) = e.object_key

abbrev pub charged : String → ℕ → List User → List User
charged user_id size us =
    update (λ u. u.id == user_id)
      (λ u. record u { storage_bytes_used = u.storage_bytes_used + size }) us

pub any-referenced :
    (k : String) (ex : Option FileMeta) (fs : List FileMeta)
    → any (λ g. g.id == k) (referenced ex fs) ≡ any (λ g. g.id == k) fs
any-referenced k none fs = refl
any-referenced k (some e) [] = refl
any-referenced k (some e) (f ∷ fs) = ground (arith, any-referenced k (some e) fs)

module _ (pg : Postgres) (user_id object_key hash content_type original_name : String)
    (size : ℕ) where
  pub record Effect (t : Tables) (r : SaveResult) (t' : Tables) : Type 0 where
    pub used : ℕ
    pub quota : ℕ
    pub locked : lock_user user_id t ≡ ok ((used, quota), t)
    pub fits : exceeds used size quota ≡ false
    pub in_range :
        any (λ u. u.id == user_id && leb int64_end (u.storage_bytes_used + size)) t.users ≡ false
    pub fresh : any (λ g. g.id == r.file.id) t.files ≡ false
    pub files : t'.files ≡ referenced (canonical pg hash t) t.files ++ r.file ∷ []
    pub users : t'.users ≡ charged user_id size t.users
    pub duplicate : r.duplicate ≡ not (is_null (canonical pg hash t))
    pub key : r.file.object_key ≡ shared_key object_key (canonical pg hash t)
    pub owner : r.file.user_id ≡ user_id
    pub sha256 : r.file.sha256 ≡ hash
    pub file_size : r.file.size ≡ size
    pub ref_count : r.file.ref_count ≡ 1
    pub active : r.file.deleted_at ≡ none
    pub name : r.file.original_name ≡ original_name
    pub others : SameOthers t t'

  pub record Recorded (ex : Option FileMeta) (t : Tables) (f : FileMeta) (t' : Tables)
      : Type 0 where
    pub fresh : any (λ g. g.id == f.id) (referenced ex t.files) ≡ false
    pub files : t'.files ≡ referenced ex t.files ++ f ∷ []
    pub users : t'.users ≡ t.users
    pub key : f.object_key ≡ shared_key object_key ex
    pub owner : f.user_id ≡ user_id
    pub sha256 : f.sha256 ≡ hash
    pub file_size : f.size ≡ size
    pub ref_count : f.ref_count ≡ 1
    pub active : f.deleted_at ≡ none
    pub name : f.original_name ≡ original_name
    pub others : SameOthers t t'

  abbrev stored : String → Statement FileMeta
  stored = insert_row pg user_id object_key hash content_type original_name size

  insert_row-effect :
      (ex : Option FileMeta) (t t₁ t' : Tables) (f : FileMeta)
      → t₁.files ≡ referenced ex t.files
      → t₁.users ≡ t.users
      → SameOthers t t₁
      → insert_row pg user_id object_key hash content_type original_name size
          (shared_key object_key ex)
          t₁
        ≡ ok (f, t')
      → Recorded ex t f t'
  unfolding insert_row
  insert_row-effect ex t t₁ t' f hf hu ho h = ground arith

  incr_ref-effect :
      (e : FileMeta) (t t₁ : Tables)
      → incr_ref e.id t ≡ ok (tt, t₁)
      → (t₁.files ≡ referenced (some e) t.files) × (t₁.users ≡ t.users) × SameOthers t t₁
  unfolding incr_ref
  incr_ref-effect e t t₁ h = ground arith

  record_file-effect :
      (ex : Option FileMeta) (c c' : Conn) (f : FileMeta)
      → record_file pg user_id object_key hash content_type original_name size ex c ≡ (ok f, c')
      → Recorded ex c.tables f c'.tables
  unfolding record_file
  record_file-effect none c c' f h =
      insert_row-effect none c.tables c.tables c'.tables f refl refl (refl, refl, refl, refl)
        (label-query-eq-ok "insert new file" (stored object_key) c f c' h)
  record_file-effect (some e) c c' f h =
      let (u, c₁, counted, rest) =
        >>=-eq-ok (label "increment ref_count" (query (incr_ref e.id)))
          (λ _. label "insert dedup row" (query (stored e.object_key))) c f c' h in
      let (files, users, others) =
        incr_ref-effect e c.tables c₁.tables
          (label-query-eq-ok "increment ref_count" (incr_ref e.id) c u c₁ counted) in
      insert_row-effect (some e) c.tables c₁.tables c'.tables f files users others
        (label-query-eq-ok "insert dedup row" (stored e.object_key) c₁ f c' rest)

  add_usage-effect :
      (t t' : Tables)
      → add_usage size user_id t ≡ ok (tt, t')
      → (any (λ u. u.id == user_id && leb int64_end (u.storage_bytes_used + size)) t.users ≡ false)
        × (t'.files ≡ t.files)
        × (t'.users ≡ charged user_id size t.users)
        × SameOthers t t'
  unfolding add_usage
  add_usage-effect t t' h = ground arith

  -- The rest of the body, from each of its steps on.
  abbrev charge : Option FileMeta → FileMeta → Sql SaveResult
  charge ex file =
      label "update storage usage" (query (add_usage size user_id))
      >> pure (record { file = file; duplicate = not (is_null ex) })

  abbrev keep : Option FileMeta → Sql SaveResult
  keep ex = record_file pg user_id object_key hash content_type original_name size ex >>= λ file.
      charge ex file

  abbrev look : Sql SaveResult
  look = label "find canonical" (query (reading (λ t. ok (canonical pg hash t)))) >>= λ ex. keep ex

  abbrev check : ℕ × ℕ → Sql SaveResult
  check quota =
      guard (not (exceeds quota.0 size quota.1)) (sentinel Sentinel.quota_exceeded) >> look

  charge-effect :
      (ex : Option FileMeta) (file : FileMeta) (c : Conn) (r : SaveResult) (c' : Conn)
      → charge ex file c ≡ (ok r, c')
      → (add_usage size user_id c.tables ≡ ok (tt, c'.tables))
        × (r ≡ record { file = file; duplicate = not (is_null ex) })
  charge-effect ex file c r c' h =
      let (u, c₁, charged_up, rest) =
        >>=-eq-ok (label "update storage usage" (query (add_usage size user_id)))
          (λ _. pure (record { file = file; duplicate = not (is_null ex) })) c r c' h in
      let e : add_usage size user_id c.tables ≡ ok (u, c₁.tables) =
        label-query-eq-ok "update storage usage" (add_usage size user_id) c u c₁ charged_up in
      (ground arith, ground arith)

  same_after_lock :
      (us : List User) (t : Tables) (quota : ℕ × ℕ) (t₁ : Tables)
      → beside t (quotas us) ≡ ok (quota, t₁)
      → t₁ ≡ t
  same_after_lock [] t quota t₁ h = cc
  same_after_lock (u ∷ us) t quota t₁ h = cc

  same_others :
      (t t₃ t₄ t' : Tables) → t₃ ≡ t → SameOthers t₃ t₄ → SameOthers t₄ t' → SameOthers t t'
  same_others t t₃ t₄ t' e p q = ground arith

  assemble :
      (t t₁ t₂ t₃ t₄ t' : Tables) (quota : ℕ × ℕ) (ex : Option FileMeta) (file : FileMeta)
      (r : SaveResult)
      → lock_user user_id t ≡ ok (quota, t₁)
      → exceeds quota.0 size quota.1 ≡ false
      → t₂ ≡ t₁
      → reading (λ t. ok (canonical pg hash t)) t₂ ≡ ok (ex, t₃)
      → Recorded ex t₃ file t₄
      → (any (λ u. u.id == user_id && leb int64_end (u.storage_bytes_used + size)) t₄.users ≡ false)
        × (t'.files ≡ t₄.files)
        × (t'.users ≡ charged user_id size t₄.users)
        × SameOthers t₄ t'
      → r ≡ record { file = file; duplicate = not (is_null ex) }
      → Effect t r t'
  unfolding lock_user
  assemble t t₁ t₂ t₃ t₄ t' quota ex file r locked fits same found kept paid result =
      let e₁ = same_after_lock (select (λ u. u.id == user_id) t.users) t quota t₁ locked in
      let e₃ : t₃ ≡ t = cc in
      let e : ex ≡ canonical pg hash t = cc in
      rw result (record {
        used = quota.0;
        quota = quota.1;
        locked = cc;
        fits = fits;
        in_range = cc (paid.0, kept.users, e₃);
        fresh = cc (kept.fresh, any-referenced file.id ex t₃.files, e₃);
        files = cc (paid.1, kept.files, e₃, e);
        users = cc (paid.2, kept.users, e₃);
        duplicate = cc e;
        key = cc (kept.key, e);
        owner = kept.owner;
        sha256 = kept.sha256;
        file_size = kept.file_size;
        ref_count = kept.ref_count;
        active = kept.active;
        name = kept.name;
        others = same_others t t₃ t₄ t' e₃ kept.others paid.3;
      })

  -- The body of the transaction, statement by statement.
  save_tx-Effect :
      (c : Conn) (r : SaveResult) (c' : Conn)
      → save_tx pg user_id object_key hash content_type original_name size c ≡ (ok r, c')
      → Effect c.tables r c'.tables
  unfolding save_tx
  save_tx-Effect c r c' h =
      let (quota, c₁, locking, h₁) =
        >>=-eq-ok (label "lock user" (query (lock_user user_id))) check c r c' h in
      let locked = label-query-eq-ok "lock user" (lock_user user_id) c quota c₁ locking in
      let (u, c₂, checking, h₂) =
        >>=-eq-ok (guard (not (exceeds quota.0 size quota.1)) (sentinel Sentinel.quota_exceeded))
          (λ _. look) c₁ r c' h₁ in
      let (within, same) =
        guard-eq-ok (not (exceeds quota.0 size quota.1)) (sentinel Sentinel.quota_exceeded) c₁ u c₂
          checking in
      let (ex, c₃, finding, h₃) =
        >>=-eq-ok (label "find canonical" (query (reading (λ t. ok (canonical pg hash t))))) keep c₂
          r c' h₂ in
      let found =
        label-query-eq-ok "find canonical" (reading (λ t. ok (canonical pg hash t))) c₂ ex c₃
          finding in
      let (file, c₄, recording, h₄) =
        >>=-eq-ok (record_file pg user_id object_key hash content_type original_name size ex)
          (charge ex) c₃ r c' h₃ in
      let kept = record_file-effect ex c₃ c₄ file recording in
      let (charging, result) = charge-effect ex file c₄ r c' h₄ in
      assemble c.tables c₁.tables c₂.tables c₃.tables c₄.tables c'.tables quota ex file r locked
        (ground arith) (ap (λ (d : Conn). d.tables) same) found kept
        (add_usage-effect c₄.tables c'.tables charging) result

  -- A successful `Save` has this effect on the tables that it found.
  pub save-Effect :
      (c : Conn) (r : SaveResult) (c' : Conn)
      → save pg user_id object_key hash content_type original_name size c ≡ (ok r, c')
      → Effect c.tables r c'.tables
  unfolding save
  save-Effect c r c' h =
      let (c₁, c₂, before, ran, after) =
        transaction-eq-ok "commit"
          (save_tx pg user_id object_key hash content_type original_name size) c r c' h in
      let e = save_tx-Effect c₁ r c₂ ran in subst₂ (λ a b. Effect a r b) before (sym after) e
