-- ===== src/Tests/Validation.antt =====
-- `validate` at the sample response.
use fact_checker.Base.{
  All, List, [], ◌∷◌, map, ◌≡◌, refl, Str, codes, ◌==◌, has, lookup, insert, is_key, select, length,
  str_lt,
}
use fact_checker.Validate.Entities.Laws.{entity_ids}
use fact_checker.Validate.Claims.Laws.{claim_ids}
use fact_checker.Validate.Types.{
  Drop, EventRecord, Validated, is_slug, is_name_kind, needs_versions, resolve_entity,
}
use fact_checker.Validate.Citations.{citeable_sources, filter_citations, citation_reason}
use fact_checker.Validate.Entities.{map_entities, entity_round, keep_entity}
use fact_checker.Validate.Events.{map_events, event_round, link_event}
use fact_checker.Validate.Events.Keys.{sorted_keys}
use fact_checker.Validate.Claims.{map_claims, claim_round}
use fact_checker.Validate.Relationships.{map_relationships, relationship_round}
use fact_checker.Validate.Whole.{validate}
use fact_checker.Validate.Citations.Reason.{IsCited}
use fact_checker.Validate.Claims.{contradiction_entry}
use fact_checker.Validate.Claims.Laws.{contested_claims}
use fact_checker.Validate.Whole.Cited.{IsCitedClaim, validate-claims_cited, validate-events-IsCited}
use fact_checker.Validate.Whole.Closed.{
  IsClosedClaim, IsClosedEvent, IsClosedRelationship, validate-claims_closed,
  validate-events_closed, validate-relationships_closed,
}
use fact_checker.Validate.Whole.Register.{HasIdentity, validate-HasIdentity, validate-register}
use fact_checker.Tests.Samples.{response, context}

abbrev kinds : Validated → List Str
kinds r = map (λ (d : Drop). d.kind) r.drops

-- Of each kind one record is kept; the second event is a cause of the first.
validate-response :
    let after = validate response context in
    (entity_ids after.entities ≡ codes "g" ∷ [])
    × (map (λ (e : EventRecord). e.causes) after.events ≡ (codes "e2" ∷ []) ∷ [] ∷ [])
    × (claim_ids after.claims ≡ codes "c1" ∷ [])
    × (length after.relationships ≡ 1)
    × (length after.contradictions ≡ 1)
    × (kinds after
        ≡ map codes (
            "name_kind" ∷ "entity" ∷ "entity" ∷ "participant" ∷ "location" ∷ "participant"
            ∷ "location" ∷ "event" ∷ "event_link" ∷ "claim_field" ∷ "version" ∷ "claim_field"
            ∷ "version" ∷ "claim" ∷ "claim_field" ∷ "citation" ∷ "claim" ∷ "claim" ∷ "relationship"
            ∷ []))
unfolding validate map_entities map_events map_claims map_relationships entity_round event_round
    claim_round keep_entity link_event relationship_round citeable_sources filter_citations
    citation_reason sorted_keys is_slug is_name_kind needs_versions resolve_entity has lookup insert
    is_key select ◌==◌ str_lt
validate-response = (refl, refl, refl, refl, refl, refl)

validate-claims_cited_example : All (IsCitedClaim context) (validate response context).claims
validate-claims_cited_example = validate-claims_cited response context

validate-events-IsCited_example :
    All (λ (e : EventRecord). IsCited context.unit e.sources) (validate response context).events
validate-events-IsCited_example = validate-events-IsCited response context

validate-claims_closed_example :
    All (IsClosedClaim context (validate response context)) (validate response context).claims
validate-claims_closed_example = validate-claims_closed response context

validate-events_closed_example :
    All (IsClosedEvent context (validate response context)) (validate response context).events
validate-events_closed_example = validate-events_closed response context

validate-relationships_closed_example :
    All
      (IsClosedRelationship context (validate response context))
      (validate response context).relationships
validate-relationships_closed_example = validate-relationships_closed response context

validate-HasIdentity_example : HasIdentity context (validate response context)
validate-HasIdentity_example = validate-HasIdentity response context

validate-register_example :
    (validate response context).contradictions
    ≡ map contradiction_entry (contested_claims (validate response context).claims)
validate-register_example = validate-register response context
