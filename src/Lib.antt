-- ===== src/Lib.antt =====
-- rusty-gateway: a gateway in Go that starts MCP servers (upstreams) and offers their tools to
-- clients, grouped in namespaces.
--
-- A call comes in at the mcp server of a namespace. In the modes `full` and `hybrid` the native
-- tools of the upstreams are registered there under prefixed names (`syncLocked`); in the other
-- modes clients search the catalog and call through meta-tools (`registerMetaTools`, `metaCall`).
-- Each call goes through `dispatch`: the circuit breaker of its upstream, the semaphores of the
-- gateway, the namespace and the upstream, and then the upstream's session. What is logged is
-- redacted first.
--
-- Files, and the code they model (paths from the repository's root):
-- - Gateway/Breaker: the circuit breaker of internal/gateway/limits.go, one function per method.
--   History, Trial: what a sequence of its calls does.
-- - Gateway/Limits: the overrides and the semaphores of internal/gateway/limits.go.
-- - Gateway/Dispatch: `dispatch` of internal/gateway/gateway.go as a step relation over all calls
--   in flight (`Gate`, `Step`, `Reach`). Counting, Invariant, Progress, LostTrial: its properties.
-- - Gateway/Server: `New`, `Refresh`, `RefreshAll`, `Breakers` and `Namespaces` of
--   internal/gateway/gateway.go, and the `Gate` that dispatch starts from. Built, Refreshing: what
--   they establish. Gateway/Handling: the handler of one tool, around dispatch, with what it answers
--   and what it hands to the audit log.
-- - Gateway/Names: Separator and UpstreamID; Cutting: when strings.Cut undoes the prefix.
-- - Gateway/Discovery: Namespace, `toolInfos`, `schemaKeys`, `displayTitle`. Ranking: `search` and
--   `Tools`. MetaTools: `registerMetaTools` and `metaCall` of internal/gateway/discovery.go. Sync:
--   `syncLocked` of internal/gateway/gateway.go.
-- - Redact: `JSON`, `walk`, `redactString` of internal/redact/redact.go; Pattern: its regexps.
-- - Supervisor: the state of one upstream, and what Status, Tools and CallTool show of it
--   (internal/supervisor/supervisor.go). Run: `run`, `runOnce`, `awaitOAuth` and `refreshTools` as
--   a step relation (`Machine`, `Step`, `Reach`). Table: `Start`, `Stop`, `Statuses` and `LivePIDs`
--   over all upstreams, whose loops take their steps in any order; Views, Lifting,
--   Cancelled, Stopped, Waiting: what follows for it from one loop. Stderr: `stderrLogger`. Environment: `composeEnv` and
--   `redactEnv`.
-- - Config: the records and the defaults of internal/config/config.go. Expand: references to
--   environment variables. Validate: `validate`; Sound, Accepted: what it establishes.
-- - UpstreamAuth: the entry of one OAuth upstream and its credentials (internal/upstreamauth).
--   Login: StartLogin beside all that runs with it, as a step relation. Callback: the redirect.
--   Tokens: the store and the token source. Manager: the table that `New` builds. AutoLogin:
--   AutoLogin, the login handler and the metadata document. Origin: the transport that adds the
--   headers of an upstream.
-- - Audit: rows, `row` of internal/audit/sink.go. Sink: Observe and the two steps of the writer. Query: the
--   conditions of internal/audit/store.go. Log: Insert and Query on the rows, and the loop of
--   `audit tail -f` in cmd/gateway/audit.go. Http: the handler of internal/audit/http.go.
-- - Auth: internal/auth. Verified: whom an authenticator lets in.
-- - Wiring: the specs and limits that cmd/gateway/main.go makes of the configuration. Found: the
--   upstreams under their IDs. Limited: their limits in dispatch. Managed: which of them the login
--   manager has. Start: the calls of auth.New and ui.New; Accepted: how they end; Discovered: where
--   clients find the metadata of a namespace.
-- - Dashboard: the session cookies of internal/ui/ui.go; Sessions: which of them are valid. Pages:
--   its routes, guards, sign-in and sign-out. Overview: the data of its pages and the page that
--   starts logins. Stream: the events that internal/ui/datastar.go writes, with a reader of event
--   streams.
-- - Routes: the routes of cmd/gateway/routes.go with the middleware of internal/auth in front of
--   them, and cmd/gateway/healthcheck.go. Guarded, Reached, Health: what a request gets. Metadata:
--   the documents of `MetadataHandler` in internal/auth/auth.go.
-- - Common: lists, association lists, texts, JSON values and Go's int on the native numbers.
--   Common/Mux: the patterns of http.ServeMux, as far as the routes use them: the most specific
--   pattern wins.
--
-- Conventions. A time is a number of nanoseconds, an int is the library-style ℤ of Common/Int with
-- the wrap of 64 bits written out where the code adds. A Go map is an association list or a
-- function. What other code answers is a parameter: the catalog of the supervisor, encoding/json,
-- the table of lower-case letters, the host's environment, the HMAC of the dashboard, the parsing
-- of durations and times, the canonical names of HTTP headers, the bearer middleware of the SDK
-- (`BearerCheck`, of which is assumed that it lets nobody in but with a header of two words, a token
-- as the second one that its verifier takes, and the scopes that it asks for). SQLite is the list of the
-- rows of a table. The IDs of the specs of a supervisor are different, which `validate` sees to but
-- for a server named twice in one namespace. Texts are code points, and bytes in Redact,
-- Supervisor/Stderr and Supervisor/Environment.
--
-- Fuel. The walk of Redact takes fuel for the documents nested in strings. A decoded string is
-- shorter than the document it stands in, so one more than the longest string is enough
-- (Redact/Fuel). The page loop of Supervisor takes the finite list of the pages that the upstream
-- sends. Everything else is structural recursion.
--
-- Not modelled: the HTTP and MCP transports, the headers and signals of the event streams, SQLite,
-- the process table and signals, the templates of the UI, the log lines (requestLogger), the
-- sessions that the SDK counts (SessionCount), the flags and the start and shutdown of the servers
-- in cmd/gateway/main.go, and internal/fakeserver, a server for tests only.
mod Common
pub mod Gateway
pub mod Redact
pub mod Supervisor
pub mod Config
pub mod UpstreamAuth
pub mod Audit
pub mod Auth
pub mod Wiring
pub mod Dashboard
pub mod Routes
