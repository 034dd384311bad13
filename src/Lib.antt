-- ===== src/Lib.antt =====
-- The extraction stage of the fact-checker.
--
-- A run takes the units that an adapter builds from the ingested documents, skips those that the
-- ledger has done with the same input, asks a model for an extraction of each other unit, parses
-- the reply, validates the records against the unit's citation policy and the graph, and writes
-- what is kept. The parts, with the code that they model:
--
-- - Extract: the record types of extract/extract.go. `Unit` is `WorkUnit`, and its field `Text` is
--   `body`. `Extract.Hash` is `InputHash`.
-- - Wire: the JSON contract of a reply, extract/wire.go. `Wire.Types` has the records,
--   `Wire.Required` the `requiredProblem` methods, `Wire.Block` is `JSONBlock`, and `Wire.Parse`
--   is `salvageList` and `ParseExtraction`.
-- - Validate: extract/validate.go. `Validate.Citations`, `Entities`, `Events`, `Claims` and
--   `Relationships` are `filterCitations` with `citationReason`, and the four `map...` functions;
--   `Validate.Whole` is `Validate`, which runs them in that order. The loop body of a function is a
--   `..._round`, its state a record `...Loop`.
-- - Llm: the chat client, internal/llm/llm.go. `Llm.Backoff` has `nextDelay` and the pause of
--   `sleepBackoff`, `Llm.Gate` the claim of a slot in `throttle`, `Llm.Reply` the judgement of an
--   answer in `post` and `parseChatResponse`, `Llm.Call` is `NewClient` and `Complete`, `Llm.Cost`
--   is `CostTracker`.
-- - Runner: the run, extract/runner.go. `Runner.Plan` is the first part of `execute`,
--   `Runner.Window` its loop, as steps of the goroutine that submits and receives,
--   `Runner.Calls` is `callUnit`, and `Runner.Persist` is `persistOutcome` with the budget test.
--   `Runner.Persist.Keeps` follows the outcomes of a run through the tables, and
--   `Runner.Persist.Ledgered` through the ledger. `Runner.Run` is `Run` with the row of
--   pipeline_runs that `beginRun` and `finishRun` write.
-- - Prompts: extract/prompts.go. `Prompts.System` is `BuildSystemPrompt`, `Prompts.User` is
--   `BuildUserPrompt`.
-- - Graph: the tables. A graph is the list of the rows of all tables; `Graph.Rows` is `INSERT` with
--   the conflict clauses, `Graph.Load` is `LoadRecords` of extract/loader.go, `Graph.Checks` has
--   what the queries of internal/integrity/integrity.go find, `Graph.Report` is the list of the
--   checks with the status of a run of them, and `Graph.Sound` has what loading keeps.
-- - Ledger: the table extraction_units, with `UpsertLedgerRow`, `FinishLedgerRow` and `LedgerState`
--   of extract/loader.go. `Ledger.Resume` joins it to the plan of the next run.
-- - Integrity: the running and the counting of the checks, internal/integrity/integrity.go, and
--   `statusFor` of cmd/fact-checker/main.go.
-- - Adapter: adapters/arda/arda.go. `Adapter.Manifest` is `Parse`, `Adapter.Arda` is `selectCandidates` and `BuildUnits`,
--   `Adapter.Slug` is `slugify`, which names the units. `Adapter.Registry` is adapters/adapters.go.
-- - Config: internal/config/config.go. `Config.load` is `Load`.
-- - Cli: cmd/fact-checker/main.go. `Cli.run` chooses the command, and `Cli.prepare` is
--   `extractRunCmd` up to the run.
-- - Base: the names that the modules share. Tests: small inputs, and the theorems at them.
--
-- A string is the list of its bytes, and a title in `Adapter.Slug` the list of its runes. A map is
-- an association list; a `map[string]bool` is the list of its keys. An `error` is its message. An
-- `int` that the code only counts with is a natural number, and an option is an integer.
-- A duration is in nanoseconds. A panic of the plan is `none`.
--
-- Every loop over a list is a recursion on the list. `Complete` and `callUnit` recurse on the
-- number of attempts that remain, which the code bounds, so that no fuel is needed. Doubling a
-- delay wraps at 2 ^ 64 and is negative from 2 ^ 63.
--
-- Parameters: encoding/json, SHA-256, the verbs of fmt, strings.ToLower and SQL's lower(), the
-- parsers of strconv and time, float64, the tests of unicode, the HTTP endpoint with the
-- context, the clock and the timers (`World`, whose requests and waits come back), the files,
-- the environment, and the database (`Database`, and the rows that the adapter reads).
-- `HasTables` says what the operations of a database do to the tables of the graph when they
-- succeed. The plan takes any function for the hash of a unit.
--
-- A table has the columns that the code reads or writes, but for the ids that the database gives: a
-- version is named by its claim and its label. The unique keys are in the model; the foreign keys
-- and the CHECK constraints, which make a run end with an error, are not, and neither is the order
-- of the findings of a check, nor the limit of the column `attempts`.
--
-- Not modelled: the queries of extract/store.go, `WriteModelOutput`, the HTTP server, the migrations,
-- the parsing of flags, and of the command line the printing and the commands serve, migrate and
-- extract status.
pub mod Base
pub mod Extract
pub mod Wire
pub mod Validate
pub mod Llm
pub mod Runner
pub mod Graph
pub mod Prompts
pub mod Ledger
pub mod Config
pub mod Cli
pub mod Integrity
pub mod Adapter
pub mod Tests
