-- ===== src/DocumentService/Archive.antt =====
-- service/document_service.go: `GetPageRange`, which fetches the pages of a range over HTTP and writes
-- them to a ZIP. The client of net/http is a parameter. The archive is the list of entries that the
-- writer of archive/zip has taken; it buffers them, and any call of it may fail at the response.
pub mod Fetched
use minio_3d.Base.{ℕ, String, Bool, true, false, List, [], ◌∷◌, ◌++◌}
use minio_3d.Errors.{plain, Result, ok, err}
use minio_3d.Numbers.{decimal}
use minio_3d.Paths.{concat}
use minio_3d.Types.{DocumentPage}
use minio_3d.Exec.{Exec, pure, raise, lift, label, ◌>>=◌, ◌>>◌}
use minio_3d.Storage.{Bytes, Storage}
use minio_3d.DocumentService.{DocumentRepository, pages_of_range}

-- A response: its status, the bytes that come, and how reading them ends.
pub record HttpResponse : Type 0 where
  pub status : ℕ
  pub received : Bytes
  pub ending : Result (Unit {0})

-- `http.NewRequestWithContext`, which parses the URL, and `httpClient.Do`.
pub record HttpClient (W : Type 0) : Type 0 where
  pub new_request : String → Result (Unit {0})
  pub do_request : String → Exec W HttpResponse

-- How a call of the writer ends: what it takes stays in its buffer or goes on to the response, or the
-- response refuses what the writer sends.
pub data Flow : Type 0 where
  buffered flushed : Flow
  refused : String → Flow

-- What has become of `zw.Close`, which writes the directory and all that was buffered. The service
-- defers it, and drops its error; the client then has an archive that is cut off.
pub data Closing : Type 0 where
  still_open completed : Closing
  cut_off : String → Closing

-- `flows` says how the coming calls of the writer end: a refusal stays, as the error of a bufio.Writer
-- does, and an empty list stands for calls that only fill the buffer. `begun` holds once the response has been written to, which sends its status.
pub record Archive : Type 0 where
  pub entries : List (String × Bytes)
  pub flows : List Flow
  pub begun : Bool
  pub closing : Closing

abbrev pub new_archive : List Flow → Archive
new_archive flows = record { entries = []; flows = flows; begun = false; closing = still_open }

abbrev pub written : List Flow → (Archive → Archive) → Exec Archive (Unit {0})
written [] f a = (ok tt, f a)
written (buffered ∷ fs) f a = (ok tt, f (record a { flows = fs }))
written (flushed ∷ fs) f a = (ok tt, f (record a { flows = fs; begun = true }))
written (refused m ∷ fs) f a = (err (plain m), record a { begun = true })

-- `zw.Close()`: it leaves nothing in the buffer, so it writes to the response in any case.
abbrev pub close : List Flow → Archive → Archive
close [] a = record a { begun = true; closing = completed }
close (buffered ∷ fs) a = record a { flows = fs; begun = true; closing = completed }
close (flushed ∷ fs) a = record a { flows = fs; begun = true; closing = completed }
close (refused m ∷ fs) a = record a { begun = true; closing = cut_off m }

-- `zw.Create(name)`
unfoldable pub create : String → Exec Archive (Unit {0})
create name a = written a.flows (λ a. record a { entries = a.entries ++ (name, []) ∷ [] }) a

-- More bytes for the last entry.
abbrev pub extend : Bytes → List (String × Bytes) → List (String × Bytes)
extend body [] = []
extend body (e ∷ []) = (e.0, e.1 ++ body) ∷ []
extend body (e ∷ f ∷ es) = e ∷ extend body (f ∷ es)

-- `io.Copy(fw, resp.Body)`
unfoldable pub copy : HttpResponse → Exec Archive (Unit {0})
unfolding ◌>>=◌
copy resp =
    (λ a. written a.flows (λ a. record a { entries = extend resp.received a.entries }) a)
    >> lift resp.ending

module _ {ℓ} {W : Type 0} {A : Type ℓ} where
  abbrev pub on_world : Exec W A → Exec (W × Archive) A
  on_world m s = let (r, w) = m s.0 in (r, (w, s.1))

  abbrev pub on_archive : Exec Archive A → Exec (W × Archive) A
  on_archive m s = let (r, a) = m s.1 in (r, (s.0, a))

  -- `defer zw.Close()`
  abbrev pub and_close : Exec (W × Archive) A → Exec (W × Archive) A
  and_close m s = let (r, t) = m s in (r, (t.0, close t.1.flows t.1))

abbrev pub for_page : String → DocumentPage → String
unfolding decimal
for_page what p = concat (what ∷ " page " ∷ decimal p.page_number ∷ [])

abbrev pub entry_name : DocumentPage → String
unfolding decimal
entry_name p = concat ("page_" ∷ decimal p.page_number ∷ ".pdf" ∷ [])

module _ {W : Type 0} (store : Storage W) (http : HttpClient W) where
  -- The body of the loop. The status of the response is not looked at.
  unfoldable pub zip_page : DocumentPage → Exec (W × Archive) (Unit {0})
  unfolding ◌>>=◌ create copy for_page entry_name
  zip_page p = do
    url ← label (for_page "presign" p) (on_world (store.get_presigned_url p.minio_path))
    label (for_page "build request" p) (lift (http.new_request url))
    resp ← label (for_page "fetch" p) (on_world (http.do_request url))
    label (for_page "zip entry" p) (on_archive (create (entry_name p)))
    label (for_page "write zip" p) (on_archive (copy resp))

  unfoldable pub zip_pages : List DocumentPage → Exec (W × Archive) (Unit {0})
  unfolding ◌>>=◌ zip_page
  zip_pages [] = pure tt
  zip_pages (p ∷ ps) = zip_page p >> zip_pages ps

  unfoldable pub get_page_range :
      DocumentRepository W → String → String → ℕ → ℕ → Exec (W × Archive) (Unit {0})
  unfolding ◌>>=◌ pages_of_range zip_pages
  get_page_range docs doc_id user_id start end =
      on_world (pages_of_range store docs doc_id user_id start end) >>= λ pages.
      and_close (zip_pages pages)
