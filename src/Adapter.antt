-- ===== src/Adapter.antt =====
-- The adapter of adapters/arda/arda.go: `Slug` has the key of a unit, `Arda` the configuration, the
-- candidates of a document and the units. `Registry` is adapters/adapters.go.
pub mod Slug
pub mod Manifest
pub mod Arda
pub mod Registry
