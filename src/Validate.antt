-- ===== src/Validate.antt =====
-- Deterministic validation, extract/validate.go: wire records become loadable graph records, and
-- what breaks a rule is dropped with a reason. One module for each function that maps a kind of
-- record; `Whole` composes them.
pub mod Types
pub mod Drops
pub mod Citations
pub mod Entities
pub mod Events
pub mod Claims
pub mod Relationships
pub mod Whole
