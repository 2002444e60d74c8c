-- ===== src/Lib.antt =====
-- The Bridge A2A server: an HTTP server in Go that speaks the A2A protocol for many tenants and keeps
-- their tasks in PostgreSQL.
--
-- internal/config reads the configuration from the environment, and internal/auth/oidc.go builds a
-- verifier of tokens from it. A request passes the middleware of internal/auth/auth.go, which checks
-- its bearer token with that verifier and puts the verified identity into the request's context; then
-- internal/server limits and buffers its body and normalizes its service parameters. The call
-- interceptor of auth.go writes the identity's tenant into the typed request and names the call's user;
-- the SDK then calls the executor of internal/orchestrator, which hands the message to a dispatcher and
-- turns what that puts out into events, and the store of internal/storage/postgres, which reads the
-- identity from the context again and confines every statement to it. The error boundary of
-- internal/server decides what a client sees of an error.
--
-- Files and code:
--   Prelude     names, byte strings (`Text`, a list of bytes), dictionaries, results, integers.
--   Strings     the functions of Go's strings and fmt packages that the program uses, on bytes.
--   Platform    what the program takes from Go's net, net/url, path/filepath, strings and time, as a
--               record of functions; strconv's reading and printing of numbers.
--   Config      internal/config/config.go: Oidc is loadOIDCConfig, Database loadDatabaseConfig, Load
--               the rest of Load.
--   Sorting     insertion sort by a Boolean order: SQL's ORDER BY.
--   Http        headers, requests and answers of net/http; a middleware is a function from a request
--               to the request that it hands on or to the answer.
--   Identity    internal/auth/auth.go: Identity, OwnerKey.
--   Auth        internal/auth/auth.go: Bearer is bearerToken and validBearerCredential; Scope is
--               validScopeToken and NewAuthenticator; Middleware is Authenticator.Middleware and
--               writeAuthError; Interceptor is identityInterceptor.Before. Oidc is
--               internal/auth/oidc.go: the tests of URLs and of the configuration and the policy of
--               redirects in Oidc itself, newOIDCVerifier in New, Verify in Claims, the public
--               addresses and dialing in Address.
--   Storage     internal/storage/postgres: Table is the table of the first migration and the
--               statements on it; Store is store.go's Create, Update and Get; Listing is its List;
--               Cursor is cursor.go; Migrations is migrations.go, its readMigrations in Source,
--               verifyMigrationSet in Verify, Migrate and VerifySchema in Run;
--               Pool is pool.go.
--   Orchestrator  internal/orchestrator/executor.go: Request is what the dispatcher is told, Execute and
--               Cancel the two operations, Loopback the loopback dispatcher.
--   Server      internal/server: Params is protocol.go's normalizeServiceParameters and version check,
--               Body its limitRequestBody, Pipeline the protected handler that server.go's New builds;
--               ErrorBoundary is error_boundary.go, Card agent_card.go and auth.go's ConfigureAgentCard,
--               Assembly the rest of New.
--   Command     cmd/server/main.go and cmd/migrate/main.go: what run builds and serves.
--   Tests       the theorems at concrete inputs.
--
-- State: the table is a list of rows. Create, Update, Get and List are functions of the table, the
-- identity of the context and the time of the call; Create and Update also give the new table. Each
-- is one statement, or one transaction that holds the lock of its row or reads one snapshot, so an
-- interleaving of calls is a sequence of them (`run`). `Faults` says which calls to the database fail,
-- and whether the server commits but its answer to that is lost: the caller then sees a failure, and
-- the table has changed.
--
-- An execution is a function of its consumer, which says of all that it was handed whether it wants
-- more, and of the list that the dispatcher gives; its map of artifacts is passed along the loop. The
-- redirects that a client follows are a relation of steps (`IsFollowed`). The environment is a map, and
-- the time of a verification an argument. An error is a tree of the errors that it wraps.
--
-- Parameters, for code that is not in the repository: the middleware's verifier is a function from
-- tokens to identities; the check of a token's signature and the discovery of a provider are
-- functions, and so are JSON's numbers and floats, and the resolving and dialing of addresses; the parsing of URLs, durations and addresses and
-- the Unicode functions are a `Platform`, of which one theorem uses documented laws; JSON is a `Codec`, whose law is that a stored task decodes to itself; the time layout
-- and base64 are a `TokenText`, whose laws are their round trips; the collation of task IDs is a
-- Boolean function, whose law is that it is a strict linear order; SHA-256 is a function on texts, and
-- a function says what a migration's SQL makes of the schema. The tests have an instance of each.
--
-- Bounds and fuel: versions are checked against the largest bigint and the number of tasks against
-- the largest 64-bit int. Trimming and printing of numbers recurse on fuel, which is the length of
-- the text and the number plus one; both take something off in every round. The limit on a body is
-- computed as an int64, whose wrap-around is written out. A client that follows page tokens has fuel,
-- and the theorem says how much is enough.
--
-- The mux of an assembled server is a map from patterns to handlers; a path is looked up in its plain
-- form, and else goes to `/`. A handler is the SDK's one for the card, or its REST one behind layers.
--
-- Not modelled: the redirects of the mux to a path's plain form; the signals, the shutdown and the listening of the commands; the SDK's handlers and
-- what they do on a panic; the texts of error values; the log.
pub mod Prelude
pub mod Strings
pub mod Platform
pub mod Config
pub mod Sorting
pub mod Identity
pub mod Http
pub mod Auth
pub mod Storage
pub mod Orchestrator
pub mod Server
pub mod Command
pub mod Tests
