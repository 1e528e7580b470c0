-- ===== src/Lib.antt =====
-- Veloria, a code search over WordPress plugins, themes and core releases.
--
-- The server keeps one extension store for each repository type (internal/repo), a manager whose
-- updater loop downloads and indexes extensions through these stores (internal/manager), and the
-- line search of one extension's files (internal/index). A task of the updater runs the indexer in a
-- subprocess (cmd/veloria), which downloads a zip and tells by its exit code what went wrong. The
-- lists of extensions come over the API client (internal/repo), and results are stored as protobuf
-- messages (internal/search). Agents search, list and read through tools (internal/mcp).
--
-- Which file models which part:
--   Grep, Grep/*        internal/index/index.go: grepData, countNL, the context of a match and the
--                       truncation of lines; Grep/Spec is what the search of a file promises
--   Search, Search/*    internal/index/index.go: SearchCompiled, over the files of one extension
--   Store               internal/repo/repository.go and extension.go: the maps of a store, index swaps
--   Store/Updates       internal/repo/repository.go: PrepareUpdates
--   Store/Task          internal/repo/repository.go: makeIndexTask with its fallback URLs
--   Store/Load          internal/repo/repository.go: LoadFromDB and LoadIndexes, over a listing of the
--                       index directory
--   Store/Resume        internal/repo/repository.go: ResumeUnindexed, MakeReindexTaskBySlug, GetAll
--   Store/Rows          internal/repo/repository.go: markClosed, RecordIndexSuccess, RecordIndexFailure
--                       and the queries of the resumption, on the rows of a table
--   Store/Search        internal/repo/repository.go: Search, the dispatcher and its workers as steps on
--                       the state that they share
--   Manager, Manager/*  internal/manager/manager.go: runTasks under any order of its goroutines and a
--                       context that may be done, and the updater loop with its retry map, its ad-hoc
--                       queue and the failure counts
--   Manager/Search      internal/manager/manager.go: Search with its cache, its key and its order
--   Fetch               internal/repo/plugins.go and themes.go: FetchPluginsSince and FetchThemesSince
--   Fetch/Discover      the same files and watermark.go: the full scan, the choice between it and the
--                       fetch of updates, the row of the table datasources
--   Fetch/Versions      internal/repo/cores.go: compareVersions, the order of core releases and the
--                       choice of those to index
--   Http/Delay          parseRetryAfterHeader and parseRetryAfter, on int64 durations
--   Http/Download       cmd/veloria/index.go: downloadZip, validateZipMagic, waitBeforeRetry
--   Http/Client         internal/repo/api_client.go: FetchJSON and doRequest
--   Codec               internal/search/model/codec.go: the stored form of search results
--   Sanitize            internal/repo/sanitize.go: sanitizeText and normalizeName, on runes
--   Registry            internal/service/registry.go: the references to services, the search gate
--   Pagination          internal/api/pagination.go: ParsePagination
--   Mcp/ReadFile        internal/mcp/service.go and tools.go: ReadFile, the handler of its tool
--   Mcp/GrepFile        internal/mcp/service.go: GrepFile and grepSingleFile
--   Mcp/Persist         internal/mcp/service.go: Search, persistSearch and LoadSearch, over the database's
--                       rows and the object store
--   Mcp/Pages           internal/mcp/format.go, ListExtensions and escapeLike of service.go: the pages of
--                       matches and of extensions, and their text
--   Mcp/Handlers        internal/mcp/tools.go: the handlers of searches, lists and greps
--   Mcp/Uri             internal/mcp/tools.go: parseExtensionURI
--   Mcp/Numbers         formatNumber, and formatNumberWithCommas of internal/ui/format.go
--   Health, Health/*    internal/health/health.go: Check, and the status code of its handler
--   Web, Web/*          internal/web/helpers.go: ReadContextLines; internal/search/web.go: ContextPage
--   Indexer             cmd/veloria/index.go: Run, on the directories and files that it renames
--   Extract, Extract/*  internal/index/extract.go: UnzipWithStats and findCommonPrefix
--   Base, Base/*        lists, text, maps and integers that these share
--   Examples/*          tests, and the theorems at concrete inputs
-- A function keeps its Go name in snake case; a method takes its receiver as a state and returns the
-- new one.
--
-- Text is a list of bytes and a Go int that is never negative a natural number; where a product may
-- wrap around, it is taken modulo 2^64 and read as an int64. A loop over a slice is a recursion on the
-- list. The loops over positions in a buffer run on fuel, which starts above the buffer's length, and
-- each round takes at least one byte. The retry loops recurse on the attempts that are left. The loops
-- over the pages of the API run on fuel, one for each request: it is enough if it is above the number of
-- pages that the responses speak of. A number with commas has fuel above the number itself, and each
-- round divides it by 1000. A time is a natural number of nanoseconds. The loop over a Go map takes its
-- entries in the order of the association list.
--
-- Parameters stand for what is not this program's: the regular expressions and the posting query of
-- the trigram index (internal/codesearch, a copy of google/codesearch), files, the network, the
-- indexer subprocess as the task sees it, the circuit breaker and the rate limiter's clock, the JSON
-- decoder, UTF-8 repair, HTML unescaping, the classes of package unicode, package time's parser, the
-- verb %q, the paths of package filepath, the order in which goroutines finish, the rows of the
-- database, the listing of the index directory and the opening of an index, which entries the cache
-- still holds, and what a ping of the database answers.
--
-- Not modelled: the HTTP server, pages and middleware, sessions and users, database queries, and the S3
-- and cache adapters (glue around libraries or output); the trigram index (a copy of a library); the
-- writing of an index from a directory, the decoding of the API's JSON, the list of core releases, and
-- the tools for details, statistics and lists of files.
pub mod Base
pub mod Codec
pub mod Examples
pub mod Extract
pub mod Fetch
pub mod Grep
pub mod Health
pub mod Http
pub mod Indexer
pub mod Manager
pub mod Mcp
pub mod Pagination
pub mod Registry
pub mod Sanitize
pub mod Search
pub mod Web
pub mod Store
