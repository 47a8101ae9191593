-- ===== src/Handlers/Documents/Range.antt =====
-- handlers/documents.go: `GetPageRange`, which streams a ZIP.
use minio_3d.Base.{
  ℕ, zero, suc, String, Bool, true, false, ◌≡◌, ◌⊎◌, inl, inr, Option, none, some, if◌then◌else◌,
}
use Prim.Native.String as Text
use minio_3d.Errors.{Error, Sentinel, Result, ok, err, is}
use minio_3d.Types.{Document}
use minio_3d.Storage.{Storage}
use minio_3d.DocumentService.{DocumentRepository, is_ready}
use minio_3d.DocumentService.Archive as Service
use minio_3d.DocumentService.Archive.{HttpClient, Archive}
use minio_3d.Handlers.{Response, unready_error, internal_error, still_processing}
use minio_3d.Handlers.Documents.{requested_range}

-- What the client gets: JSON alone; the 500 of gin.Recovery; the headers of a ZIP with no body, and
-- status 200; or an archive that has begun, with status 200, and any JSON that comes after it.
pub data Answer : Type 0 where
  json : Response (Unit {0}) → Answer
  crashed : Answer
  empty : Answer
  zip : Option (Response (Unit {0})) → Answer

abbrev pub status : Answer → ℕ
status (json r) = r.status
status crashed = 500
status empty = 200
status (zip rest) = 200

-- `docID[:8]` panics on a shorter id. An id is ASCII.
unfoldable pub has_length : ℕ → String → Bool
has_length zero s = true
has_length (suc n) Text.[] = false
has_length (suc n) (Text.◌∷◌ c s) = has_length n s

-- `begun`: the response has been written to, and its status sent.
abbrev pub failed : Bool → Error → Answer
failed begun e =
    if is e Sentinel.not_found
    then if begun then zip none else empty
    else if begun
    then zip (some (unready_error "" e))
    else json (unready_error "" e)

abbrev pub finished : {W : Type 0} → Result (Unit {0}) × (W × Archive) → Answer × (W × Archive)
finished (ok _, s) = (zip none, s)
finished (err e, s) = (failed s.1.begun e, s)

module _ {W : Type 0} (store : Storage W) (http : HttpClient W) (docs : DocumentRepository W)
    (user_id doc_id : String) where
  abbrev pub range_answer : Response (Unit {0}) ⊎ (ℕ × ℕ) → W × Archive → Answer × (W × Archive)
  unfolding has_length Service.get_page_range
  range_answer (inl refused) s = (json refused, s)
  range_answer (inr (start, end)) s =
      if has_length 8 doc_id
      then finished (Service.get_page_range store http docs doc_id user_id start end s)
      else (crashed, s)

  unfoldable pub get_page_range :
      Option String → Option String → W × Archive → Answer × (W × Archive)
  unfolding range_answer requested_range
  get_page_range start end s = range_answer (requested_range start end) s

-- How a range ends that its document refuses: the lookup of the document, and the answer.
pub data Refused : Result Document → Answer → Type 0 where
  missing : (e : Error) → is e Sentinel.not_found ≡ true → Refused (err e) empty
  broken :
      (e : Error)
      → is e Sentinel.not_found ≡ false
      → is e Sentinel.not_ready ≡ false
      → Refused (err e) (json (internal_error e))
  unready : (d : Document) → is_ready d.status ≡ false → Refused (ok d) (json (still_processing))
