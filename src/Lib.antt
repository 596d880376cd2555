-- ===== src/Lib.antt =====
-- The item service of go-clean-architecture: its use cases, its cursor tokens, its in-memory store and its HTTP
-- handlers, the authentication and rate limiting in front of it, the configuration and life of the application, and the
-- bootstrap of a new project from the repository.
--
-- The program. A request is authenticated by its bearer token (pkg/auth) and counted against a token bucket
-- (pkg/ratelimit) by the security middleware (internal/controller/http/security.go). The item service (internal/item)
-- validates it and calls a store; the in-memory one is internal/item/memory, the one over a database
-- internal/item/postgres. Lists are paged by offset or by cursor: a cursor is a signed token that carries the position
-- of the last row of a page, and the store continues strictly behind that position. A create may carry an idempotency key: the store
-- then performs it at most once while the key's record is retained, and replays the item afterwards.
-- The application (internal/app) makes its parts of a configuration (config), which is loaded from the environment,
-- with the tracing of pkg/telemetry, and releases them when it ends. The command cmd/bootstrap renames a checkout:
-- it reads which names the checkout holds, and rewrites the files.
--
-- The files.
--   Prelude        Shared names: results of Go functions, Boolean tests, lists, byte strings, integers.
--   Std            What the sources use of Go's standard library: time.Time, strings as runes,
--                  encoding/base64 (raw URL alphabet) and encoding/hex.
--   Dict           Go maps as association lists, with their laws.
--   Item           internal/item. Errors is errors.go; Model is model.go; Cursor is cursor.go up to
--                  decode, with Fields, RoundTrip, Authentic and Issue on its tokens; CursorList is ListCursor of
--                  cursor.go; Idempotency and IdempotentCreate are idempotency.go; Service is service.go; Ports
--                  and Context are the interfaces the service is built over; HttpApi is httpapi/handler.go: the
--                  parsing of requests, the mapping of errors to responses, in HttpApi/Handlers the handlers Get
--                  and List, in HttpApi/Creating the handler Create and options.go.
--   Memory         internal/item/memory/store.go. Memory/Idempotent is idempotency.go of the same
--                  package; Order, Validity and Replay hold the lemmas. Memory/Calls lets any calls run between the
--                  sections of an idempotent create, as a step relation.
--   Postgres       internal/item/postgres/store.go. Postgres/Writes is CreateIdempotent, one transaction; Commits
--                  says how it ends, Refinement compares the lists with those of the memory store.
--   Paging         The service over the memory store, and a client that follows the cursors.
--   Auth           pkg/auth/auth.go.
--   RateLimit      pkg/ratelimit/ratelimit.go: the limiter, its eviction and cleanup; RateLimit/Allow is AllowN.
--   Security       internal/controller/http/security.go.
--   Observability  internal/controller/http/observability.go: identifiers of requests, and the logged events.
--   Metrics        pkg/metrics/metrics.go: the labels of routes, NormalizeRoute; Metrics/Tracking is Track and Observe.
--   Config         config/config.go: Config/Endpoint holds Validate, Config/Load the loading; Accepted and Production
--                  say what has been checked of a configuration.
--   Telemetry      pkg/telemetry/telemetry.go; Agreement and Endpoints compare its checks with those of Config.
--   App            internal/app/app.go: RunContext. Startup and Serving are about the parts it makes, Lifecycle about their
--                  order.
--   Bootstrap      cmd/bootstrap/main.go: the replacements and their application; Bootstrap/Plan the options and
--                  metadata, Bootstrap/Files the reading of the files, Bootstrap/Run the command.
--   HttpServer     pkg/httpserver/server.go and options.go.
--   Tests          Examples.
--
-- The model. A method with a state takes the state and returns the new one; a function that returns a value
-- and an error returns a Result. An error is a tree of what it wraps, and errors.Is is a function on it.
-- A nil pointer or interface is none. What a call observes of the world outside, its context and the
-- clock, is a function of the moment, a number that grows along the call. A text is the sequence of runes
-- and invalid bytes that range yields, a token or key its bytes. An instant is the bit pattern of its signed
-- 64-bit seconds since year 1, with nanoseconds; sums of seconds saturate. A lock is not a value of the model: each
-- function is what runs under one lock. The idempotent create is the composition of its three sections when no
-- other call runs between them, and a sequence of steps of many calls where others do. Sorting is by insertion.
--
-- Parameters. SHA-256, HMAC-SHA256, the UUID package and encoding/json are records of functions that the
-- definitions take. An HTTP request holds its query, its id and its header values as net/url, the UUID
-- package and net/http have parsed them. Of the hashes only the length and the range of their bytes is
-- assumed. A float64 is a value of any type with the source's operations, of which the invariant of a limiter
-- assumes what IEEE 754 says of comparisons and of subtraction. An authenticator, the text of the peer's address,
-- and the answers of the JSON decoder to a body are given with a request. Of the UUID package it is assumed,
-- for offset pages, that the text of UUIDs orders as their bytes do. The driver pgx and the database are a
-- record of queries and one of the operations of a transaction, over any states; that the queries of a page
-- select, order and limit rows as SQL says is a hypothesis where it is used, of comparisons only with times that a
-- column of the type TIMESTAMPTZ tells exactly. The parsers of strconv, time and
-- net/url, of which it is assumed where needed that the path of a URL with a host is empty or starts with a slash,
-- the tracing SDK, and what the pool and the server answer to a run of the application are records too. So are
-- the regular expressions, path/filepath, the answers of Git and what a write leaves of the mode of a file for the
-- bootstrap, whose files are a map by path.
--
-- Bounds. The client of Paging asks for at most a given number of pages; one more than there are rows
-- is enough, since each page but the last holds at least one row. The loop of replaceOnce has one round more than the
-- text has bytes, which is enough, since no normalized replacement has an empty old text.
--
-- Not modelled: monotonic clock readings and constant-time comparison, which the values do not show; the text of
-- queries, which a database reads; the router, the telemetry middleware and the logger, which wire packages of
-- others; the registry of the metrics; the goroutine of the server; the commands for migrations and health checks,
-- the parsing of flags, timeouts, signals, messages and temporary files, which the values do not show either.
pub mod Prelude
pub mod Std
pub mod Dict
pub mod Item
pub mod Memory
pub mod Paging
pub mod Auth
pub mod RateLimit
pub mod Security
pub mod Postgres
pub mod Metrics
pub mod Observability
pub mod Config
pub mod Telemetry
pub mod App
pub mod Bootstrap
pub mod HttpServer
pub mod Tests
