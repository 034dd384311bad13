-- ===== src/Tests.antt =====
-- Small inputs that follow the tests of the repository, what the code does on them, and the
-- theorems at these inputs.
mod Samples
mod Validation
mod Rules
mod Replies
mod Client
mod Runs
mod Adapters
mod Hashes
mod Graphs
mod Settings
mod Ledgers
mod Prompted
