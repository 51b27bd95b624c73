-- ===== src/Lib.antt =====
-- GoShorty, a URL shortener: what its Go code does, and proofs that it does what it means to.
--
-- The program and the files. A request goes through the middleware and the guards of its route to an
-- HTTP handler, from there to a service, and from there to a store: the in-memory one or PostgreSQL.
--
-- - Prelude and its children: the names of the libraries that the other files share, Boolean tests, list
--   lemmas, Go strings, integers over the native numbers, and results (`ok`, `err`).
-- - Go/Map, Go/Sort, Go/Search, Go/Url and their children: Go's maps, `sort.SliceStable`, `sort.Search`
--   and the parts of a `url.URL`, which the code uses.
-- - Models, Models/Keyset, Models/Cursor: models/url.go, models/user.go and models/pagination.go. A
--   `time.Time` is its `UnixNano()`; an int64 counter is its 64-bit pattern, whose sums wrap around.
-- - Random, Random/Alphabet: utils/random.go, over the numbers that the random source draws.
-- - Config and its children: config/config.go, `NewConfig` from the environment and `Validate`.
-- - Paging, Paging/Walk: the page arithmetic that the stores share, and a client that follows cursors.
-- - Storage and its children: storage/storage.go, the in-memory URL store. `set_if_absent`, `get`,
--   `delete_key` (Go's `Delete`), `get_and_increment`, `get_all_for`, `list_urls`, `stats_for` and the
--   cleanup goroutine, each with the time that its `time.Now()` returns as an argument. Storage/View says
--   what a client can see of a state: at each time, the live URL under each code. Storage/Invariant has
--   the step relation and the states that it reaches, Storage/Listing the pages.
-- - UrlStore: the interface `URLStore` of storage/interfaces.go as a record of operations, with the
--   contract that a service may rely on. Each operation takes what the call meets: the time for the
--   in-memory store (UrlStore/Memory); for the database (Postgres/Contract) also the fate of the call, and
--   what comes before a second statement. UrlStore/Listed is about the pages of any such store.
-- - UrlService and its children: services/url_service.go and services/pagination.go, over any store.
-- - Token and its children: services/token_service.go.
-- - Users and its children: storage/user.go, the in-memory user store. Its two maps hold pointers to
--   the same objects, so users live in a heap, and the maps hold addresses.
-- - Limiter and its children: handlers/security.go, the rate limiter. The order in which Go's `range`
--   visits its table is an argument.
-- - Auth and its children: the two middleware functions of handlers/auth.go, over the user store's
--   `GetUserByID`.
-- - UserStore: the interface `UserStore` of storage/interfaces.go as a record of operations;
--   UserStore/Memory is the in-memory store as one, Postgres/Users the one of the database.
--   UserStore/Contract is what the handlers for passwords and sessions rely on, UserStore/Later has the
--   states after further calls. UserStore/Shared, Changes and Grown are about the two maps of the
--   in-memory store, UserStore/Promises and Postgres/Users fulfil the contract, UserStore/Pages and
--   Postgres/UserPages are about `ListUsers`.
-- - Handlers: the answers (status and body); Handlers/Links is handlers/handler.go over any URL store,
--   Handlers/Accounts the rest of handlers/auth.go over any user store. Their children have the
--   theorems: Answers, Login, Password, and Kept, which carries an invariant of the store through them.
-- - Middleware, Observability and their children: middleware.go and observability.go.
-- - Server: main.go. Server/Routes is the table of `newAppRouter` and `registerAPIGroup`,
--   Server/Pipeline takes a request through the middleware, the guards of its route and its handler
--   (`serve`), Server/Reach has the states of the server from request to request, Server/Startup the
--   checks of `main`.
-- - Postgres and its children: storage/postgres.go. A table is the list of its rows and a statement a
--   function on the tables, with the constraints of storage/migrations; Postgres/Urls and
--   Postgres/Accounts have the methods, Postgres/Migrations the migrations. Postgres/View and its
--   neighbours fulfil the contract of a URL store; Postgres/Reach has the states of the tables that the
--   calls of both stores reach, and Postgres/Integrity what holds in them.
-- - Tests: concrete inputs for the theorems.
--
-- Concurrency. The methods of the in-memory stores hold their lock throughout, so each is one step, and an
-- interleaving of requests is a sequence of steps. A service or a handler that makes two store calls
-- (`DeleteURL`, `Login`, `ChangePassword`) has the state of the second one as a separate argument, since
-- other steps may come between; the attempts of `CreateShortURL` follow one another with nothing between.
-- Server serves one request after another.
--
-- Parameters. Go's JSON and base64url codecs, HMAC-SHA256, bcrypt, `url.Parse`, `time.ParseDuration`,
-- `strconv.Atoi` and `strings.ToLower` are arguments. Where a theorem needs it, it assumes that decoding
-- reads back what was encoded, that only the empty input is encoded as the empty text, that base64url
-- has no dot and no space, that a digest has 32 bytes, that bcrypt accepts a password for its own hash,
-- and that `range` visits every key. Gin's matching of a path to a route and its JSON binding are
-- arguments of the server, and so are `strings.EqualFold` and the database's collation and rounding of
-- times. What becomes of a call of the database is an argument too: it is answered, its answer is lost,
-- or it is not run. The statements are read as SQL defines them, each as one step; a transaction under
-- the advisory lock is one step.
--
-- Recursion. The binary search runs on fuel `n`, the length searched: each round makes the interval
-- smaller, so `n` rounds are enough. The loop of `CreateShortURL` makes 100 attempts, as in the code. A
-- client that follows cursors is given as many requests as its listing has pages. All other functions are structural.
--
-- Integers. Lengths and the count of requests in a window are natural numbers. Times and durations are
-- integers without bound: the code's int64 sums of a current time and a lifetime or the clock skew stay
-- far below 2 ^ 63, and the difference of two positive timestamps cannot overflow.
--
-- Not modelled: opening and closing of the database pool, the HTTP server's timeouts and shutdown, the
-- recovery from panics, log and audit lines, the text format of the metrics, pprof.go, api_spec.go, the
-- front end, cmd/localdb and the scripts, which have no logic of their own. Outside the answers of the
-- handlers the text of error messages is not kept: an error is its kind.
pub mod Prelude
pub mod Go
pub mod Paging
pub mod Models
pub mod Random
pub mod Config
pub mod Storage
pub mod UrlStore
pub mod UrlService
pub mod Token
pub mod Users
pub mod Limiter
pub mod Auth
pub mod Tests
pub mod UserStore
pub mod Handlers
pub mod Middleware
pub mod Observability
pub mod Server
pub mod Postgres
