-- ===== src/Worker/Pool.antt =====
-- worker/processor.go: the goroutines of `HandleExtractPages`, one for each page, and the channel
-- `sem` of five places. A goroutine is at a stage, and a turn takes it to the next one; a schedule is
-- the list of the pages whose goroutine takes the next turn.
pub mod Turns
pub mod Bounds
pub mod Progress
pub mod Contents
pub mod Outcome
pub mod Complete
pub mod Ending
use minio_3d.Base.{
  ℕ, zero, suc, ◌+◌, ◌-◌, ◌*◌, String, Bool, true, false, Option, none, some, List, [], ◌∷◌, ltb,
  length, get_elem?, if◌then◌else◌,
}
use minio_3d.Errors.{Error, plain, wrap, Result, ok, err}
use minio_3d.Numbers.{decimal}
use minio_3d.Paths.{concat}
use minio_3d.Types.{DocumentPage}
use minio_3d.Sql.{Postgres}
use minio_3d.Storage.{Bytes, Storage}
use minio_3d.World.{World, on_conn, stored}
use minio_3d.Documents.Pages.{save_page}

-- What the operating system, pdfcpu and the network answer during one task: the steps that do not
-- touch the database, the object store or the queue. The PDF that is downloaded is handed on as its
-- bytes.
pub record Machine : Type 0 where
  pub mkdir_temp : String → Result String
  pub new_request : String → Result (Unit {0})
  pub do_request : String → Result (ℕ × Result Bytes)
  pub create_file : String → Result (Unit {0})
  pub page_count_file : Bytes → Result ℕ
  pub mkdir_all : String → Result (Unit {0})
  pub extract_pages_file : Bytes → String → ℕ → Result (Unit {0})
  pub rename : String → String → Result (Unit {0})
  pub glob : String → Result (List String)
  pub open_file : String → Result Bytes
  pub stat_file : String → Result ℕ

pub data Stage : Type 0 where
  waiting started : Stage
  located : Bytes → ℕ → Stage
  uploaded : ℕ → Stage
  finished : Option Error → Stage

-- `set xs i v`: a write out of bounds changes nothing.
abbrev pub set {ℓ} : {A : Type ℓ} → List A → ℕ → A → List A
set [] i v = []
set (x ∷ xs) zero v = v ∷ xs
set (x ∷ xs) (suc i) v = x ∷ set xs i v

-- The goroutine of page n stands at position n - 1. `held` is the number of values in `sem`.
pub record Pool (S : Type 0) : Type 0 where
  pub world : World S
  pub held : ℕ
  pub jobs : List Stage
  pub first_err : Option Error

-- `pageExtractionConcurrency`
abbrev pub page_extraction_concurrency : ℕ
page_extraction_concurrency = 5

unfoldable pub page_path : String → ℕ → String
unfolding decimal
page_path doc_id n = concat ("documents/" ∷ doc_id ∷ "/pages/" ∷ decimal n ∷ ".pdf" ∷ [])

abbrev at_page : String → ℕ → String
at_page text n = concat (text ∷ decimal n ∷ [])

abbrev relabelled {ℓ} : {A : Type ℓ} → String → Result A → Result A
relabelled m (ok a) = ok a
relabelled m (err e) = err (wrap m e)

-- `filepath.Join(dir, name)` for a clean path and a name.
abbrev pub join : String → String → String
join dir name = concat (dir ∷ "/" ∷ name ∷ [])

-- The first match of the pattern of `findExtractedPage`.
abbrev first_match : String → ℕ → Result (List String) → Result String
first_match dir n (err e) = err e
first_match dir n (ok []) =
    err (plain (concat ("no file found matching *_" ∷ decimal n ∷ ".pdf in " ∷ dir ∷ [])))
first_match dir n (ok (m ∷ _)) = ok m

module _ (machine : Machine) (pages_dir : String) where
  abbrev numbered : String → ℕ → String
  numbered prefix n = join pages_dir (concat (prefix ∷ decimal n ∷ ".pdf" ∷ []))

  unfoldable pub find_extracted_page : ℕ → Result String
  unfolding decimal
  find_extracted_page n = first_match pages_dir n (machine.glob (numbered "*_" n))

  abbrev page_file : ℕ → Result (Unit {0}) → Result String
  page_file n (ok _) = ok (numbered "page_" n)
  page_file n (err _) = relabelled (at_page "locate extracted page " n) (find_extracted_page n)

  abbrev sized : Result ℕ → Bytes → Stage
  sized (ok size) body = located body size
  sized (err e) body = finished (some (wrap "stat page file" e))

  abbrev opened : String → Result Bytes → Stage
  opened name (ok body) = sized (machine.stat_file name) body
  opened name (err e) = finished (some (wrap "open page file" e))

  abbrev named : Result String → Stage
  named (ok name) = opened name (machine.open_file name)
  named (err e) = finished (some e)

  abbrev extracted : ℕ → Result (Unit {0}) → Stage
  extracted n (ok _) =
      named (page_file n (machine.rename (numbered "original_" n) (numbered "page_" n)))
  extracted n (err e) = finished (some (wrap (at_page "pdfcpu extract page " n) e))

module _ {W : Type 0} where
  abbrev sent : ℕ → ℕ → Result String × W → Stage × W
  sent n size (ok _, w) = (uploaded size, w)
  sent n size (err e, w) = (finished (some (wrap (at_page "upload page " n) e)), w)

  abbrev recorded : ℕ → Result DocumentPage × W → Stage × W
  recorded n (ok _, w) = (finished none, w)
  recorded n (err e, w) = (finished (some (wrap (at_page "save page metadata " n) e)), w)

-- `if firstErr == nil { firstErr = err }`
abbrev noted : Option Error → Stage → Option Error
noted none (finished r) = r
noted none _ = none
noted (some e) _ = some e

-- A goroutine that ends leaves its place.
abbrev left : ℕ → Stage → ℕ
left held (finished r) = held - 1
left held _ = held

abbrev settle : {S : Type 0} → ℕ → Pool S → Stage × World S → Pool S
settle i p (stage, w) = record {
  world = w;
  held = left p.held stage;
  jobs = set p.jobs i stage;
  first_err = noted p.first_err stage;
}

module _ {S : Type 0} (machine : Machine) (store : Storage S) (pg : Postgres) (original : Bytes)
    (pages_dir doc_id : String) where
  -- The next step of `extractAndUploadPage` for page n, once it holds its place.
  unfoldable pub advance : ℕ → Stage → World S → Stage × World S
  unfolding find_extracted_page page_path
  advance n waiting w = (waiting, w)
  advance n started w =
      (extracted machine pages_dir n (machine.extract_pages_file original pages_dir n), w)
  advance n (located body size) w =
      sent n size ((stored store).upload (page_path doc_id n) body size "application/pdf" w)
  advance n (uploaded size) w =
      recorded n (on_conn (save_page pg doc_id n (page_path doc_id n) size) w)
  advance n (finished r) w = (finished r, w)

  -- A goroutine that waits takes a place if there is one.
  abbrev turn_at : ℕ → Option Stage → Pool S → Pool S
  turn_at i none p = p
  turn_at i (some waiting) p =
      if ltb p.held page_extraction_concurrency
      then record p { held = p.held + 1; jobs = set p.jobs i started }
      else p
  turn_at i (some started) p = settle i p (advance (suc i) started p.world)
  turn_at i (some (located body size)) p = settle i p (advance (suc i) (located body size) p.world)
  turn_at i (some (uploaded size)) p = settle i p (advance (suc i) (uploaded size) p.world)
  turn_at i (some (finished r)) p = p

  unfoldable pub turn : ℕ → Pool S → Pool S
  unfolding advance
  turn i p = turn_at i (get_elem? p.jobs i) p

  unfoldable pub run : List ℕ → Pool S → Pool S
  unfolding turn
  run [] p = p
  run (i ∷ is) p = run is (turn i p)

  -- One turn for each of the first n goroutines.
  unfoldable pub sweep : ℕ → Pool S → Pool S
  unfolding turn
  sweep zero p = p
  sweep (suc i) p = sweep i (turn i p)

  -- `wg.Wait()` after a schedule: turns for everyone, as often as the stages can need.
  unfoldable pub drain : ℕ → Pool S → Pool S
  unfolding sweep
  drain zero p = p
  drain (suc k) p = drain k (sweep (length p.jobs) p)

-- `go func(n int) { ... }(pageNum)` for each page.
abbrev pub goroutines : ℕ → List Stage
goroutines zero = []
goroutines (suc n) = waiting ∷ goroutines n

abbrev pub new_pool : {S : Type 0} → World S → ℕ → Pool S
new_pool w page_count = record {
  world = w;
  held = 0;
  jobs = goroutines page_count;
  first_err = none;
}
