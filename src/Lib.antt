-- ===== src/Lib.antt =====
-- The LLM API gateway: a proxy in front of several providers of language models that authenticates a
-- user, limits how many requests run at once, picks a provider by the time of day, charges calls and
-- Tokens to quotas, and forwards the request, streamed or not. This library models its core in Go,
-- package by package, and proves what makes it correct. Paths are from the repository's root.
--
-- The parts and the code:
--   * TimeUtil: internal/timeutil/timeutil.go. Clock windows and weekday masks in Shanghai.
--   * Router, Router/Models: internal/router/selector.go (ResolveProvider, defaultProvider,
--     sortRoutingRules, windowMinutes, parseHHMM, GetProviderBySlug, RewriteModel), on one snapshot
--     of internal/provider/store.go, whose types are records with the fields of the source.
--   * Multiplier: internal/quota/multiplier.go. The table of time multipliers and the one in effect.
--   * Quota: internal/models/quota.go. A row is the record `Quota`, the table a list of rows, and each
--     function of the source one function on the table; Quota/Usage, Quota/Resets and Quota/WeekStart
--     continue it. Quota/Checker is internal/quota/checker.go and manager.go; Quota/Scheduler is
--     internal/quota/scheduler.go.
--   * Proxy/Concurrency: the counter of requests in flight in internal/proxy/handler.go, as a step
--     function of single atomic operations under an arbitrary schedule. LoadOrStore and the addition
--     that follows are one step, which is not seen while the key is not removed.
--   * Proxy/Body: the functions of handler.go on request and response bodies.
--   * Proxy/Exchange: handleSync, and handleStream of internal/proxy/stream.go, with InsertCallLog.
--   * Proxy/Handler: ServeHTTP, stage by stage.
--   * Proxy/Passthrough: internal/proxy/passthrough.go and passthrough_request.go. Headers and bodies in
--     Proxy/Passthrough.antt, the stages of its ServeHTTP in Proxy/Passthrough/Stages and Serve.
--   * Proxy/Upstream: internal/proxy/upstream.go, the request for a chat that is sent.
--   * Auth: SubKeyAuth of internal/auth/middleware.go and internal/models/expiry.go. Auth/Sessions:
--     internal/models/session.go, and AdminSessionAuth and AdminSessionAuthAPI of the middleware.
--   * Users: internal/models/user.go, and DeleteUser of internal/admin/users.go. The tables users and
--     quotas; CreateUser in Users.antt, lookups and changes in Users/Changes, ListUsers in Users/Query.
--   * Provider: internal/provider/store.go. The tables of providers, model mappings, routing rules and
--     audit logs; Create, Update, Delete and Rules hold the operations, Snapshot what is read with
--     the keys decrypted, and Reload of internal/router/selector.go, Seed SeedFromConfig, Audit the
--     pages of the audit log.
--   * Security: internal/security/encrypt.go.
--   * GoTime, Float64, Proxy/Json: what the program uses of time, float64 and encoding/json.
--   * Prelude: what the modules share. Examples: a concrete run of each theorem with hypotheses.
--
-- How they meet: Auth decides whose request it is. Proxy/Handler takes the counter of
-- Proxy/Concurrency, asks Router for a provider and a model name, Multiplier for the price, Quota
-- for the deduction, and hands over to Proxy/Exchange, which refunds and bills through
-- Quota/Usage. Quota/Scheduler changes the same table on its own. Proxy/Passthrough takes the same
-- way with a request that it does not read. Provider seals keys by Security and gives Router its
-- snapshot; Users gives Auth the rows that it looks keys up in.
--
-- Choices:
--   * Counters and limits of quotas are natural numbers; the code writes no negative ones.
--     Subtraction stops at 0 where the SQL has MAX(0, …). The Token numbers that an upstream sends,
--     priorities and in-flight counters are integers of either sign. Overflow of 64-bit counters is
--     not modelled, that of a time.Duration is.
--   * A float64 multiplier is a dyadic fraction with 53 bits, and the product with a Token count is
--     rounded to 53 bits, to even. The halving runs on fuel 64, and at most 53 bits are dropped.
--   * Every function that reads the clock takes the instant as an argument; within one call all
--     readings are one instant. Shanghai is eight hours east of UTC, without the local mean time
--     before 1901 and the summer times up to 1991.
--   * The database executes each statement or fails, as a flag says; a statement is atomic. A result
--     is `ok`, an error, or a panic.
--   * RFC 3339 and JSON are records of functions that the definitions take as arguments. What a
--     theorem needs of RFC 3339 is the law `IsLayout`, for the years 1 to 9999 and, where a text is
--     read back, zones of whole minutes, as the layout has four digits for the year and no seconds
--     for the zone; a theorem has the years among its hypotheses. Of JSON it is `ReadsBack` in
--     Proxy/Upstream, that a map which was marshalled decodes to itself. SHA-256 and the parsing of
--     bare dates are arguments without a law. AES-256-GCM is a record of two functions with the law
--     `IsAead`: what was sealed opens under the same key and nonce.
--   * A table with AUTOINCREMENT is its rows by ascending id and the next id. UNIQUE, FOREIGN KEY and
--     ON DELETE CASCADE are part of the operations that meet them. A transaction gives the tables
--     after it or, where a step fails, those before.
--   * The maps of changes that the panel hands to an UPDATE are records of options; their fields have
--     the types that the panel gives them. A http.Header is the list of its lines, and names are
--     compared by their letters in lower case.
--   * The order in which Go ranges over a map is an argument; so is what the upstream does.
--   * Loops are structural recursions on lists.
--
-- Not modelled: the HTTP side of the administration and user panels, the rest of the configuration,
-- migrations, statistics, the generation of keys, and the transport of HTTP with its timeouts. A
-- request in Proxy/Handler or Proxy/Passthrough runs alone; interleavings are in Proxy/Concurrency.
pub mod Prelude
pub mod TimeUtil
pub mod Router
pub mod Float64
pub mod GoTime
pub mod Multiplier
pub mod Quota
pub mod Proxy
pub mod Auth
pub mod Security
pub mod Provider
pub mod Users
pub mod Examples
