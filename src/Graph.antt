-- ===== src/Graph.antt =====
-- The graph's tables, as the SQL of extract/loader.go and internal/integrity/integrity.go sees them.
-- `Load` is `LoadRecords`, `Checks` has the queries of the checks, `Sound` what loading keeps, and
-- `Report` the list of the checks.
pub mod Rows
pub mod Load
pub mod Checks
pub mod Sound
pub mod Report
