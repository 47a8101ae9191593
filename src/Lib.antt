-- ===== src/Lib.antt =====
-- minio_3D is a file service in Go: users upload files over HTTP, PostgreSQL keeps the metadata and
-- an object store (MinIO or Cloudflare R2) keeps the bytes, each object once for all users whose
-- file has its SHA-256 hash. This library models the metadata store, the file service above it, the
-- object store behind it, the rate limiter in front of it, the store of PDF documents beside it,
-- the worker that takes a document apart into its pages, and the keys and tokens by which users are
-- known. Config (config/config.go) has the settings with their defaults, and Database (db/db.go) the
-- connection that applies the migrations; Config/Environment writes settings as variables.
--
-- The parts, in the order in which a request meets them:
-- * Router (main.go) has the table of routes and the middlewares in front of the handlers, which
--   are a parameter of it; Router/Guards is on who gets past the middlewares.
-- * Auth (middleware/auth.go, middleware/apikey.go) finds the user of a request: `flex_auth` is
--   `FlexAuth`, which asks the parser of tokens or the API keys. ApiKeys (storage/apikey_store.go)
--   has the methods of `APIKeyStore`. Auth/Tokens has `parseToken`. Auth/Identity, Auth/Tokens and
--   ApiKeys/Lookup are on who is let in.
-- * Handlers (handlers/) has the handlers of files, documents, accounts, profiles and API keys:
--   each takes what gin has read from the request (the form file, the parsed JSON, the parameters
--   of the path) and returns the state with a `Response`, a status and a body. Handlers/Files,
--   Documents and Accounts have the handlers, and Documents/Range the one that streams a ZIP, whose
--   answer says what the client gets when it fails half way; Documents/Pages, Accounts/Login and
--   Accounts/Me are on the pages that are given out, on logging in and on profiles.
-- * RateLimiter (middleware/ratelimit.go) is the middleware on uploads of documents. It keeps the
--   times of a user's recent requests; `limit_request` is `Limit`, `allow` and `cleanup` are its
--   methods. Times are nanoseconds, read once for each call. RateLimiter/Window has its lemmas and
--   RateLimiter/History runs a sequence of requests and cleanups beside a plain log of the
--   requests.
-- * FileService (service/file_service.go) is written over two interfaces, `MetadataRepository` and
--   `Storage`, which are records of operations here. `upload` hashes the body, asks `save`, and
--   hands a new body to the store; `place` is its last part, with the cleanup when the store fails.
--   FileService/Production puts `MetadataStore` behind the interface, as main.go does. Upload,
--   Upload/Outcome and Presence are on what an upload leaves behind.
-- * Metadata (storage/metadata.go): Reads has the creation of users and the methods that only read,
--   Save and Delete the two transactions; each clause of a transaction is one statement of the Go
--   code, with the row tests of its WHERE clause. Effect modules say what a transaction that ended
--   well has done; Accounts, Bytes and Ids have the lemmas on a user's account, the bytes of active
--   files and the ids; Invariant, Quota, Dedup, Lookup and Sharing have the properties.
-- * Documents (storage/document_store.go): Rows has the documents and the watchdog's statement,
--   Pages the extracted pages with their upsert, Webhooks the subscriptions. Usage, Timeouts,
--   Changes, Pages/Lookup and Pages/Range are on what these calls do to accounts, statuses and
--   pages. Invariant has the keys and references of these tables; its children Adding, Changing and
--   Others are on the statements that add rows, change them, and belong to the metadata store, and
--   Calls has the calls of both stores as data and any sequence of them.
-- * DocumentService (service/document_service.go) is written over `DocumentRepository`, `Storage`
--   and `TaskEnqueuer`; DocumentService/Production puts the methods of Documents behind the first.
--   `pages_of_range` is `GetPageRange` up to the loop that fetches and zips the pages, and Archive has
--   the rest of it. Pages and Archive/Fetched are on which pages a caller is given.
-- * Worker (worker/processor.go, worker/tasks.go, worker/watchdog.go): Tasks has the payloads and
--   the tasks that the asynq client has taken; Extract is `HandleExtractPages` with `fail` and
--   `enqueueWebhooks`, Deliver is `HandleFireWebhook`, and Watchdog the watchdog with its loop.
--   Enqueuer is `AsynqEnqueuer` of service/document_service.go, with the document service on a
--   system with a queue. Worker/Pool is what the goroutines of one task do: each is at a stage (it
--   waits for a place in `sem`, has started, has found the file of its page, has uploaded it, or
--   has finished), and a turn takes one goroutine to its next stage, so a list of page positions is
--   an interleaving of them at their calls of the object store and of the database. The steps of a
--   goroutine that only touch the disk are one turn. `drain` is `wg.Wait()`. Pool/Turns, Bounds,
--   Progress, Contents, Outcome, Complete and Ending are on the runs of the goroutines; Extract/Announce,
--   Steps, Ready and Failed on how a task ends, and Journey on a document from its upload on.
-- * Storage (storage/storage.go, storage/minio.go): the interface, the MinIO adapter over its
--   client, and the laws that a caller relies on. Storage/Connect is `NewMinIOStorage`,
--   Storage/Local `OpenFileWithMeta`, and Storage/Mock the store in memory of
--   testutil/testutil.go, with what it holds in Storage/Mock/Contents.
-- * Mocks (testutil/testutil.go) has the other stand-ins of the tests, as instances of the
--   interfaces: Documents is `MockDocStore`, Metadata `MockMeta`, Tasks `MockEnqueuer`.
--
-- Below them: Errors (the sentinel errors and wrapped errors, with `errors.Is`), Types
-- (storage/types.go and the rows of the other tables), Paths (what is used of path/filepath and
-- strings), Numbers (`%d` and `strconv`), Exec (calls that change a state and may fail) and Sql
-- (statements on the tables of db/migrations, the driver and transactions; Sql/Keeps is on
-- predicates of the tables that a method keeps). Maps has Go's maps as lists of keys and values. World joins the
-- database and the object store, the state on which the services act. Base has numbers, strings and
-- lists, and Counts the lemmas on counting rows. Examples runs the model on concrete inputs and
-- applies each theorem there.
--
-- The database. `Tables` has a list for each table of db/migrations. A method of the Go code is an
-- action on a `Conn`: the tables, and the list of failures that the driver has yet to report, one
-- entry for each call, so that any call can fail; `quiet` is a driver that answers every call. A
-- transaction keeps the tables of before unless it commits. What PostgreSQL decides is the
-- parameter `Postgres`: the ids and times of new rows, and the row that LIMIT 1 picks, about which
-- nothing is assumed. Constraints (keys, references, the range of BIGINT and INT) are checks of the
-- statements. Ids are the texts of UUIDs: that the database refuses any other text as an id is not
-- modelled. Transactions run one after another: isolation between concurrent transactions is not
-- modelled.
--
-- The numbers. Sizes, limits and page numbers are natural numbers; sizes are ℕ below 2 ^ 63; where
-- the Go code adds two int64 the wrap of the sum is written out in `exceeds`, and the database
-- refuses a sum past the end of its column. Two definitions have fuel:
-- `drain` gives every goroutine a turn, again and again, four times as often as there are goroutines:
-- each has at most four steps, and every such round gets on. `decimal` gives `digits` more fuel than
-- the number, which has fewer digits than that. Worker/Pool/Complete and Numbers/Laws are about them. Every other function is structural.
--
-- The worker. A task runs on a `System`, the database, the objects and the queue. What pdfcpu, the
-- disk and the network answer is the parameter `Machine`, functions of what they are asked, since
-- the files of a task are in its own directory; the JSON of a payload is kept as the value it
-- encodes. The queue, as the driver, may refuse any call. Between two steps of a task no other
-- request runs.
--
-- The archive of a range. A ZIP is the list of the named entries that its writer has taken, which it
-- buffers; any call of the writer may fail at the response, its `Close` too, and one that fails has
-- added nothing. The status of the answer
-- is sent with the first write to the response. The id of a document in the path is ASCII.
--
-- Bodies. The body that is handed to a store is read to its end; `MockStorage` also has an upload whose
-- body cannot be read. Times are nanoseconds, and the times of a token whole seconds.
--
-- Parameters: the environment, the SHA-256 functions, the random bytes of a new API key, the jwt
-- library, HMAC, bcrypt, the JSON encoder and the HTTP clients of a delivery and of a range, the
-- machine of a task, the MinIO client, the driver and the files of the migrations, the order in which
-- `range` goes through a map, `http.DetectContentType`, and the laws of an object store.
--
-- Not modelled: the server that asynq runs the tasks in and its retries, the wiring of the parts in
-- main.go with the server and its shutdown, what is printed, and the vendored packages.
pub mod Base
pub mod Errors
pub mod Types
pub mod Paths
pub mod Numbers
pub mod Counts
pub mod Database
pub mod Config
pub mod Exec
pub mod Sql
pub mod Storage
pub mod World
pub mod Maps
pub mod Metadata
pub mod Mocks
pub mod Documents
pub mod FileService
pub mod Worker
pub mod Handlers
pub mod Router
pub mod DocumentService
pub mod ApiKeys
pub mod Auth
pub mod RateLimiter
mod Examples
