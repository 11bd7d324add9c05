-- ===== src/Lib.antt =====
-- CodeScout collects the logs of an app's test devices and shows them to its developers. This
-- library models the parts of the server that keep state and decide who may do what.
--
-- Live sessions (internal/live/hub.go, internal/domain/live.go). The hub pairs a device with a
-- dashboard through a short code, streams the device's logs to everyone who watches, and relays
-- questions to the device. `Live.Session` is one session with its replay ring, `Live.Channel` the
-- store of Go channels that sessions and subscribers share, `Live.Hub` the registry and how a
-- session ends; its children are `Live.Hub.Pairing` (Mint, Claim), `Live.Hub.Stream` (Publish,
-- Watch, Cancel), `Live.Hub.Ask` (Ask, Deliver) and `Live.Hub.Listing` (Get, List).
-- `Domain.Pairing` is the codes, `Domain.LiveSession` the types and the two timeouts. Each function
-- is one critical section of the hub's mutex, so a history of them in any order is what concurrent
-- callers can bring about; `Live.Hub.Steps` has the histories, `Live.Hub.Invariant` what holds
-- between the sections and `Live.Hub.Promises` what callers rely on. A send on a closed channel and
-- a second close, which are panics in Go, are counted by the store.
--
-- Accounts (internal/domain/user.go, internal/domain/access.go). `Domain.Roles` has the roles,
-- levels and records, `Domain.Access` the two rules that every service asks.
--
-- The account services (internal/services, internal/adapters/db). `Accounts.Database` is the
-- database: four tables, a list of faults that says which of the coming statements fail, and
-- transactions, which put the tables back when they fail; its children `Rules` and `Statements`
-- have the rules that the proofs go by, from what holds of the tables before a run to what holds
-- after it. `Accounts.Repos` has the statements of user_repo.go, member_repo.go and token_repo.go,
-- `Accounts.Members` member_service.go, `Accounts.TokenService` token_service.go with
-- internal/domain/token.go, and `Accounts.AuthService` auth_service.go. `Accounts.Service` serves
-- requests one after the other: two requests whose statements interleave are not modelled. What
-- comes from bcrypt, from the mail parser and from SHA-256 is a parameter.
--
-- Search (pkg/search/parser.go, internal/domain/search.go, internal/domain/search_query.go). The log
-- viewer keeps its state in a query, which the toolbar changes by way of a filter. `Search.Filter` is
-- the filter, `Search.Toggles` the clicks, `Search.Printer` Query, `Search.Fields`, `Search.Lexer`
-- and `Search.Parser` Parse, where what is left of the query stands for the position in it.
-- `Search.Printable` says which filters are meant to be read back; `Search.Chains`, `Search.Steps` and
-- `Search.RoundTrip` follow the parser through the parts of a query, and `Search.Clicks` has the
-- clicks as a relation; `Search.Orderless` compares filters that list their values in another
-- order. White space is that of Unicode, in
-- UTF-8 (`Common.Blanks`).
--
-- Event broker (pkg/sse/broker.go). `Broker` fans the batches of a project out to its subscribers, on
-- the store of channels of `Live.Channel`; `Broker.Steps` has its histories, `Broker.Invariant` what
-- holds between the steps, and `Broker.Mailboxes` the specification: independent mailboxes, one for
-- each subscriber.
--
-- Logs (internal/services/log_service.go, internal/services/retention_service.go, with log_repo.go,
-- session_repo.go and usage_repo.go of internal/adapters/db, and internal/domain/usage.go). `Storage`
-- has the rows of logs, sessions and daily counters and a list of faults that says which of the coming
-- statements fail. `Ingest` has the statements of an upload and `Ingest.Batch` DumpLogs: the daily cap,
-- the sessions, and the transaction that inserts logs and counts them. `Retention` has the statements
-- of the nightly job and `Retention.Cleanup` the job. Every reading of the clock is an argument.
-- One call of DumpLogs runs as one step, and a sequence of them one after the other (`Ingest.Series`):
-- uploads whose statements interleave, which may exceed the daily cap together, are not modelled.
--
-- Numbers are natural numbers: sequence numbers are int64 in the code and would need 2^63 events to
-- wrap. Times are nanoseconds since a fixed moment. Random draws, new ids and the clock are
-- arguments. Two loops run on fuel: `draw_code`, whose fuel is the nine rounds that the loop of `Mint`
-- has, and `read_tokens`, whose fuel is the length of the query, of which each round takes a byte.
--
-- Not modelled: projects and instance settings; HTTP handlers, middleware,
-- templates and the MCP tools (server, view), which work on requests and keep no state of these
-- parts; the queries of logs, which are SQL text for the database; configuration, logging and
-- start-up (conf, app, jobs, pkg/cslog).
pub mod Common
pub mod Domain
pub mod Accounts
pub mod Live
pub mod Broker
pub mod Storage
pub mod Ingest
pub mod Retention
pub mod Search
pub mod Tests
