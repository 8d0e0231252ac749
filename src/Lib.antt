-- ===== src/Lib.antt =====
-- Paradise imageboard: a server for a tree of pictures, videos and documents, with accounts, an
-- index of the tree in PostgreSQL, and workers that keep the index up to date.
--
-- The parts and how they interact. A request reaches the API (go_api/cmd/api) with a name and a
-- password; `authenticate` checks them against the "user" table, with a cache of recent proofs,
-- and gives the handler a `user`. The account handlers (users.go) write to that table, each in one
-- transaction under one advisory lock. The index handlers (handlers.go) put jobs in the table
-- index_job; the index worker (index_worker/cmd/index-worker) claims them under a lease, walks the
-- tree, writes the image table and finishes the job. The embedding worker makes a vector of the
-- tags and comments of each image, again whenever they change.
--
-- Files, and the code they model:
--   Base          shared names, tests on numbers, lists
--   Text          Go strings as lists of bytes: strings, strconv, hex, UTF-8
--   Password      go_api/cmd/api/main.go verifyPassword, users.go hashPassword, validUsername
--   Accounts      go_api/cmd/api/users.go: createUser, updateUser, resetUserPassword,
--                 changeOwnPassword, setAccountPassword, beginAccountChange, userPathID,
--                 auditAccount; Accounts/Guard: accountWrite
--   Auth          go_api/cmd/api/main.go: withAuth, withAdmin, authenticate, authCacheKey
--   Index/Jobs    handlers.go enqueueJob, activeJob, cancelJob; index_worker main.go claim,
--                 renewLease, progress, cancelled, finish
--   Index/Images  index_worker main.go upsertBatch, staleDeleteQuery, deindexStale,
--                 deindexMissingScope
--   Search        handlers.go parseImageSearch and its parser, cleanTag, normalizeSearchTerm
--   Search/Compile, Search/Listing   handlers.go compileImageSearch, listImages, positiveInt
--   Index/Walk    index_worker main.go process: the function handed to WalkDir, flush, safeParts
--   Index/Walk/Process   process, jobRoot
--   Index/Requests   handlers.go enqueueSingle, enqueueTree, createJob, enqueueJob, getJob,
--                 cancelJob, getImageFile
--   Documents     handlers.go readDocument
--   Explorer      handlers.go explore
--   Comments      handlers.go addComment
--   Gallery       handlers.go favoriteImage, unfavoriteImage, updateImage, pathID
--   Gallery/Context   handlers.go contextUpdate
--   Gallery/Serve     the routes of these and of addComment in main.go
--   Paths/Kinds   supportedMedia, isVideo, supportedDocument of both programs
--   Paths         handlers.go canonicalPath, safeComponent, joinCanonical, encodedPath; main.go
--                 authorizeMedia
--   Thumbnails    thumbnail.go parseThumbnailPath, loadThumbnail, storeThumbnail,
--                 thumbnailAdditionalData, encryptThumbnail, decryptThumbnail
--   Thumbnails/Serve   thumbnail.go thumbnail; index_worker/cmd/index-worker/thumbnails.go
--                 ensureVideoThumbnail
--   Embedding     go_api/internal/embedding/worker.go: Configure, Claim, source, Publish, Process,
--                 Fail; the trigger of imageboard/migrations/versions/0008_discovery_vectors.py
-- A definition has the name of its function in snake case.
--
-- How the state is modelled. A table is a list of records, and an SQL statement a function on it.
-- A handler of accounts gives its reply and the tables it leaves. Its steps pass on a `Session`: the
-- stored tables, and those of its transaction. A statement changes the latter, `commit` stores them,
-- and the rollback behind every handler gives up what is not stored. A record `Env` of the
-- environment says which statement the database fails and how the commit ends, so a theorem about
-- every `Env` holds for every failure. `account_write` stands before these handlers; what withAuth
-- finds is their argument. Two handlers do not interleave, since each holds the lock
-- until its transaction ends. Statements on jobs are atomic, and `apply_all` runs any sequence of
-- them. Time is a number of seconds that each statement is given.
--
-- The media tree that a job walks is a tree of nodes, which says of each folder and file whether it
-- can be read; how each batch ends is a function of its number, how the deletion ends is one of three cases, and
-- nobody else writes the image
-- table meanwhile. The order in which Go goes through a map is a parameter of the database.
--
-- Parameters: mime.ParseMediaType, url.Parse, strings.EqualFold, scrypt, HMAC-SHA256, AES-GCM, the random bytes, strings.ToLower, the picture that is
-- made of a file, sort.Slice, the vectors of go_api/internal/embedding/vector.go.
--
-- Bounds and fuel. `strconv` results are bounded by the int type they are read into: `parse_int`
-- takes the bound. The parser of searches has 4 units of fuel for each byte and 4 more: a byte is
-- read before its four functions call one another again. The loop over a comment's ancestors
-- counts down the 7 steps that the source allows. The walk is by recursion on the tree. `itoa` has
-- a unit of fuel more than its number.
--
-- Not modelled: HTTP and JSON themselves, the decoding and scaling of images and videos, SQL that
-- only reads lists, the browser's code, the migrations and the deployment. The README says that
-- video thumbnails are disabled; the code makes and serves them, and the model follows the code.
pub mod Base
pub mod Text
pub mod Password
pub mod Accounts
pub mod Auth
pub mod Index
pub mod Search
pub mod Paths
pub mod Comments
pub mod Gallery
pub mod Documents
pub mod Explorer
pub mod Thumbnails
pub mod Embedding
