-- ===== src/Validate/Whole.antt =====
-- `Validate` of extract/validate.go.
pub mod Stages
pub mod Cited
pub mod Closed
pub mod Register
use fact_checker.Wire.Types.{WireExtraction}
use fact_checker.Validate.Types.{Validated, ValidationContext, empty_validated}
use fact_checker.Validate.Citations.{citeable_sources}
use fact_checker.Validate.Entities.{map_entities}
use fact_checker.Validate.Events.{map_events}
use fact_checker.Validate.Claims.{map_claims}
use fact_checker.Validate.Relationships.{map_relationships}

unfoldable pub validate : WireExtraction → ValidationContext → Validated
validate wire ctx =
    let allowed = citeable_sources ctx.unit in
    let entities = map_entities wire empty_validated in
    let events = map_events wire allowed entities.by_id ctx entities.result in
    let claims = map_claims wire allowed entities.by_id ctx events in
    map_relationships wire entities.by_id claims.by_id ctx claims.result
