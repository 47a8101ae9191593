-- ===== src/FileService/Presence.antt =====
-- Which files have their object in the store, before and after an upload.
use mathlib.Core.Bool.{Bool-set}
use mathlib.Core.List.{Mem, mem-cons, not-mem-nil}
use mathlib.Core.Logic.Or
use mathlib.Core.Path.{subst}
use minio_3d.Base.{
  ℕ, String, Bool, true, false, not, ◌≡◌, ◌⊎◌, refl, sym, ap, ◌∙◌, Option, none, some, List, [],
  ◌∷◌, ◌++◌, ◌==◌, arith, Bool-cases, inl, inr,
}
use minio_3d.Errors.{Result, ok, err}
use minio_3d.Paths.{base}
use minio_3d.Sql.{Tables, Postgres, quiet}
use minio_3d.Storage.{Bytes, Storage, IsObjectStore}
use minio_3d.World.{World, stored}
use minio_3d.Types.{FileMeta, is_null}
use minio_3d.Metadata.Reads.{canonical, holds_hash}
use minio_3d.Metadata.Dedup.{canonical-eq-some}
use minio_3d.Metadata.Save.{SaveResult}
use minio_3d.Metadata.Save.Effect
use minio_3d.Metadata.Save.Effect.{referenced, shared_key}
use minio_3d.FileService.{FileHeader, FileUploadResult, upload}
use minio_3d.FileService.Production.{metadata_store}
use minio_3d.FileService.Upload.{key_for, type_of, upload-eq-err}
use minio_3d.FileService.Upload.Outcome

module _ {S : Type 0} (holds : String → S → Bool) where
  abbrev pub IsStored : S → FileMeta → Type 0
  IsStored s f = f.deleted_at ≡ none → holds f.object_key s ≡ true

  -- Every row that is not deleted has its object in the store.
  abbrev pub AllStored : S → List FileMeta → Type 0
  AllStored s [] = Unit
  AllStored s (f ∷ fs) = IsStored s f × AllStored s fs

  pub AllStored-append :
      (s : S) (fs : List FileMeta) (f : FileMeta)
      → AllStored s fs
      → IsStored s f
      → AllStored s (fs ++ f ∷ [])
  AllStored-append s [] f h hf = (hf, tt)
  AllStored-append s (g ∷ fs) f h hf = (h.0, AllStored-append s fs f h.1 hf)

  pub AllStored-referenced :
      (s : S) (ex : Option FileMeta) (fs : List FileMeta)
      → AllStored s fs
      → AllStored s (referenced ex fs)
  AllStored-referenced s none fs h = h
  AllStored-referenced s (some e) [] h = tt
  AllStored-referenced s (some e) (f ∷ fs) h = elim (Bool-cases (f.id == e.id)) [
    | inl hit ↦ rw hit (h.0, AllStored-referenced s (some e) fs h.1)
    | inr miss ↦ rw miss (h.0, AllStored-referenced s (some e) fs h.1)
  ]

  pub stored_of_mem :
      (s : S) (fs : List FileMeta) (f : FileMeta)
      → AllStored s fs
      → Mem f fs
      → f.deleted_at ≡ none
      → holds f.object_key s ≡ true
  stored_of_mem s [] f h m active = absurd (not-mem-nil m)
  stored_of_mem s (g ∷ fs) f h m active =
      Or.elim (Bool-set _ _) (mem-cons.0 m)
        (λ e. rw e (h.0 (ap (λ (x : FileMeta). x.deleted_at) (sym e) ∙ active)))
        (λ later. stored_of_mem s fs f h.1 later active)

  -- A change of the store that keeps what it holds.
  pub AllStored-mono :
      (s s' : S) (fs : List FileMeta)
      → ((k : String) → holds k s ≡ true → holds k s' ≡ true)
      → AllStored s fs
      → AllStored s' fs
  AllStored-mono s s' [] keeps h = tt
  AllStored-mono s s' (f ∷ fs) keeps h =
      (λ active. keeps f.object_key (h.0 active), AllStored-mono s s' fs keeps h.1)

active_of : (hash : String) (f : FileMeta) → holds_hash hash f ≡ true → f.deleted_at ≡ none
active_of hash f h = ground arith

own_key :
    (ex : Option FileMeta) (own key : String)
    → not (is_null ex) ≡ false
    → key ≡ shared_key own ex
    → key ≡ own
own_key none own key h e = e
own_key (some f) own key h e = cc

module _ {S : Type 0} (sha256 : Bytes → String) (store : Storage S) (holds : String → S → Bool)
    (laws : IsObjectStore store holds) (pg : Postgres) (now : ℕ) (user_id : String)
    (header : FileHeader) where
  abbrev Ends : Tables → S → FileUploadResult → World S → Type 0
  Ends = Outcome.Uploaded sha256 store pg now user_id header

  keeps_objects :
      (s s' : S)
      → Outcome.Touched sha256 store pg now user_id header s s'
      → (k : String) → holds k s ≡ true
      → holds k s' ≡ true
  keeps_objects s s' (inl same) k h = rw same h
  keeps_objects s s' (inr (body, sent)) k h = rw sent (
      laws.upload_keeps (key_for sha256 store pg now user_id header body) body header.size
        (type_of sha256 store pg now user_id header) k s h)

  abbrev SaveEffect : Bytes → Tables → SaveResult → Tables → Type 0
  SaveEffect body =
      Effect.Effect pg user_id (key_for sha256 store pg now user_id header body) (sha256 body)
        (type_of sha256 store pg now user_id header) (base header.filename) header.size

  effect_of :
      (t : Tables) (s : S) (r : FileUploadResult) (w' : World S) (o : Ends t s r w')
      → SaveEffect o.body t o.saved w'.conn.tables
  effect_of t s r w' o =
      Effect.save-Effect pg user_id (key_for sha256 store pg now user_id header o.body)
        (sha256 o.body) (type_of sha256 store pg now user_id header) (base header.filename)
        header.size (quiet t) o.saved w'.conn o.saving

  -- A row that shares the object of an active row has its object.
  object_of_hit :
      (t : Tables) (s : S) (hash : String) (ex : Option FileMeta) (own key : String)
      → AllStored holds s t.files
      → canonical pg hash t ≡ ex
      → not (is_null ex) ≡ true
      → key ≡ shared_key own ex
      → holds key s ≡ true
  object_of_hit t s hash none own key h e p q = cc
  object_of_hit t s hash (some f) own key h e p q =
      let (holds_it, _, m) = canonical-eq-some pg hash t f e in
      rw q (stored_of_mem holds s t.files f h m (active_of hash f holds_it))

  -- The object of the row that a successful upload returns is in the store.
  object_of_new :
      (t : Tables) (s : S) (r : FileUploadResult) (w' : World S) (o : Ends t s r w')
      → AllStored holds s t.files
      → holds o.saved.file.object_key w'.objects ≡ true
  object_of_new t s r w' o h = by_objects o.objects
    where
      by_objects :
          ((o.saved.duplicate ≡ true) × (w'.objects ≡ s))
            ⊎ ((o.saved.duplicate ≡ false)
                × ((k : String) × (Outcome.store_call sha256 store pg now user_id header o.body s
                      ≡ (ok k, w'.objects))))
          → holds o.saved.file.object_key w'.objects ≡ true
      by_objects (inl (hit, same)) =
          let e = effect_of t s r w' o in
          rw same (
            object_of_hit t s (sha256 o.body) (canonical pg (sha256 o.body) t)
              (key_for sha256 store pg now user_id header o.body) o.saved.file.object_key h refl
              (sym e.duplicate ∙ hit) e.key)
      by_objects (inr (new_row, (k, sent))) =
          let e = effect_of t s r w' o in
          let own =
            own_key (canonical pg (sha256 o.body) t)
              (key_for sha256 store pg now user_id header o.body) o.saved.file.object_key
              (sym e.duplicate ∙ new_row) e.key in
          rw own (
            laws.uploaded (key_for sha256 store pg now user_id header o.body) o.body header.size
              (type_of sha256 store pg now user_id header) s k w'.objects sent)

  ended-AllStored :
      (t : Tables) (s : S) (res : Result FileUploadResult) (w' : World S)
      → Outcome.run sha256 store pg now user_id header
          (Outcome.begin sha256 store pg now user_id header t s)
        ≡ (res, w')
      → AllStored holds s t.files
      → AllStored holds w'.objects w'.conn.tables.files
  ended-AllStored t s res w' h v =
      let keeps = keeps_objects s w'.objects (
        subst (λ p. Outcome.Touched sha256 store pg now user_id header s p.1.objects) h
          (Outcome.upload-objects sha256 store pg now user_id header t s)) in
      by_result res h keeps
    where
      by_result :
          (res : Result FileUploadResult)
          → Outcome.run sha256 store pg now user_id header
              (Outcome.begin sha256 store pg now user_id header t s)
            ≡ (res, w')
          → ((k : String) → holds k s ≡ true → holds k w'.objects ≡ true)
          → AllStored holds w'.objects w'.conn.tables.files
      by_result (err x) h keeps =
          let same = upload-eq-err sha256 store pg now user_id header t s x w' h in
          rw same (AllStored-mono holds s w'.objects t.files keeps v)
      by_result (ok r) h keeps =
          let o = Outcome.upload-eq-ok sha256 store pg now user_id header t s r w' h in
          let e = effect_of t s r w' o in
          rw e.files (
            AllStored-append holds w'.objects (referenced (canonical pg (sha256 o.body) t) t.files)
              o.saved.file
              (AllStored-referenced holds w'.objects (canonical pg (sha256 o.body) t) t.files
                (AllStored-mono holds s w'.objects t.files keeps v))
              (λ _. object_of_new t s r w' o v))

  -- On a driver that answers, and over a store that keeps its laws, if every active file has its
  -- object then so it is after an upload, however the upload ends.
  pub upload-AllStored :
      (t : Tables) (s : S)
      → AllStored holds s t.files
      → let (_, w') =
          upload sha256
            (stored store)
            (metadata_store pg now)
            user_id
            header
            (record { conn = quiet t; objects = s }) in
        AllStored holds w'.objects w'.conn.tables.files
  upload-AllStored t s v =
      let (res, w') =
        upload sha256 (stored store) (metadata_store pg now) user_id header
          (record { conn = quiet t; objects = s }) in
      ended-AllStored t s res w' refl v
