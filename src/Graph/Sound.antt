-- ===== src/Graph/Sound.antt =====
-- What loading keeps: a graph in which the checks of internal/integrity/integrity.go find nothing.
pub mod Findings
pub mod Included
pub mod Tables
pub mod Present
pub mod Records
pub mod Locators
pub mod Kept
