-- ===== src/Lib.antt =====
-- promolog keeps the log records of a request in a buffer and promotes them to a store if the request
-- turns out to be worth keeping. A request passes through these parts: `CorrelationMiddleware`
-- (correlation.go) gives it an ID, a start time and a buffer in its context; the log handler
-- (handler.go) copies each record into the buffer of its context; `AutoPromoteMiddleware`
-- (autopromote.go) runs the handler behind it with a writer that remembers the status, asks the
-- policies (policy.go), and calls `Promote` of the store with a trace of the request and its buffer.
-- Work that outlives a request runs as a detached operation (operation.go) with a buffer of its own.
-- The store (sqlite/store.go) writes traces to a SQLite table; rules (rule.go) say which traces to
-- promote or suppress and how long to keep them; the cleanup of the store deletes the traces that the
-- retention rules have expired. Exporters (export/) send promoted traces elsewhere.
--
-- Which file models what, each with its operations under the names of the Go functions:
--   Prelude       shared names: signed integers, texts as lists of bytes, dictionaries, Boolean tests
--   Trace         promolog.go: Entry, Trace, TraceSummary, time and durations
--   Decimal       the numbers that promolog.go prints with fmt
--   Buffer        promolog.go: Buffer and its methods
--   StatusCode    rule.go: StatusCodeStr
--   Rule          rule.go: RuleEngine, RetentionEngine, matchOperator, TraceFields
--   Identifier    correlation.go: generateID
--   Context       the context values of promolog.go, correlation.go and operation.go, and the getters
--   Http          the requests and response writer calls of net/http that the package reads and makes
--   Operation     operation.go: StartOperation, PromoteOperation, trace
--   Handler       handler.go: Handler with Handle, WithAttrs, WithGroup and the options
--   Response      autopromote.go: responseWriter and its variants
--   Policy        policy.go: the four policies, and the loop of autopromote.go that asks them
--   AutoPromote   autopromote.go: AutoPromoteMiddleware, promoteFromRequest
--   Correlation   correlation.go: correlationMiddleware, CorrelationTransport, NewCorrelatedClient,
--                 GetRequestDuration
--   BodyCapture   bodycapture.go: the options, the capture of the request body, the response wrapper; in
--                 Middleware: BodyCaptureMiddleware around a handler
--   Sqlite        sqlite/store.go: Promote, PromoteAt, Get, DeleteTrace, SetOnPromote; WireExporter of
--                 promolog.go; in Cleanup: RunCleanup and a tick of StartCleanup; in Query and Listing:
--                 ListTraces; in Filters: AvailableFilters; in Aggregate: Aggregate; in Schema:
--                 EnsureSchema; in Rules: the functions on the tables of filter rules and retention
--                 rules
--   Export        export/json/json.go in Json, export/webhook/webhook.go in Webhook
-- The theorems about a part are in its child modules, named for what they are about; its tests are in
-- the modules whose names end in Examples.
--
-- State. A `*Buffer` is shared through contexts, so it is an index into a heap of buffers
-- (Context.Heap), and two contexts that hold the same index share the buffer. Every method of Buffer
-- holds its mutex from its first line to its last, so concurrent calls are an order of whole calls
-- (Buffer.Concurrent). Goroutines and callbacks are functions on the state of their caller.
--
-- Parameters. Code outside the repository is an argument with no definition here: path.Match, the texts
-- of package fmt, floats and the random source (Policy), the bytes of rand.Read (Identifier), the
-- clock (a time argument for each reading), the wrapped slog.Handler (Handler), the HTTP handler and the
-- response writer (AutoPromote, Response), encoding/json (Sqlite.Row, Export.Json, Export.Webhook), the
-- formats of times, http.NewRequest, the Do of a client and the order in which Go visits a map
-- (Export.Webhook), strings.Fields and
-- fmt.Sscanf (Sqlite.Query), the transport of a client (Correlation), and the SQL
-- statements (Sqlite.Table, Sqlite.RuleTable, Sqlite.Schema).
-- Sqlite.Table.IsSqlTable and Sqlite.RuleTable.IsRuleTable state what SQLite documents of the
-- statements, Sqlite.Select of the answer to a counting statement, and
-- Sqlite.Migrated.IsSchemaDatabase of those that make tables and columns; Sqlite.Memory,
-- Sqlite.RuleMemory and Sqlite.SchemaExamples have tables in memory that meet them.
--
-- Bounds. An `int` or a duration is an integer ℤ; where the code can leave the 64 bits the wrap is
-- written out (Rule.wrap_int, StatusCode.negate_int), and Time.Sub stops at the ends of an int64. A time
-- is its nanoseconds since Go's zero time, without its monotonic reading. The driver binds a time as the
-- text of the clock in its zone: a cutoff of the cleanup has the zone of the host (Sqlite.Table.Stamp),
-- and `created_at` is in UTC, as `Promote` gives it; `PromoteAt` is taken to get a time in UTC. Years
-- have four digits. Recursion is on lists; `StatusCode.fill` recurses on the index into the
-- buffer of ten bytes, and runs out where Go panics; `Decimal.digits` recurses on fuel, the number
-- itself, which each round divides by ten.
--
-- Not modelled: the goroutine and the ticker of StartCleanup; changes of the table while Aggregate
-- runs; the indexes of the tables; what a client of net/http does with its transport. The optional
-- interfaces Flusher and Hijacker of response writers are modelled as abilities, without what Hijack
-- gives; other optional interfaces of a writer, such as io.ReaderFrom, which both wrappers hide, are not.
pub mod AutoPromote
pub mod BodyCapture
pub mod Buffer
pub mod Context
pub mod Correlation
pub mod Decimal
pub mod Export
pub mod Handler
pub mod Http
pub mod Identifier
pub mod Operation
pub mod Policy
pub mod Prelude
pub mod Response
pub mod Rule
pub mod Sqlite
pub mod StatusCode
pub mod Trace
