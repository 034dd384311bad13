-- ===== src/Wire.antt =====
-- The JSON contract of a model response: the record types of extract/wire.go.
-- `Required` has the checks of required fields, `Block` the search for the JSON object, `Parse`
-- the decoding of the four lists.
pub mod Required
pub mod Block
pub mod Parse
pub mod Types
