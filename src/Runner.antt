-- ===== src/Runner.antt =====
-- The extraction run of extract/runner.go.
-- `Types` has the options, the statistics and the outcomes, `Plan` the choice of the pending units,
-- `Calls` the model calls of one unit, `Persist` the accounts of an outcome, `Window` the
-- loop that submits and receives, `Run` the run as a whole with its row of pipeline_runs.
pub mod Types
pub mod Plan
pub mod Calls
pub mod Persist
pub mod Run
pub mod Window
