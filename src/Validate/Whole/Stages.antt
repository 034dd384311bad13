-- ===== src/Validate/Whole/Stages.antt =====
-- The four stages of `validate`, and what each leaves in the result.
use fact_checker.Base.{
  List, [], ◌++◌, ◌≡◌, refl, ◌∙◌, ap, true, ◌||◌, ◌⊎◌, Str, ==_sound, has, is_key, All, arith,
}
use fact_checker.Wire.Types.{WireExtraction}
use fact_checker.Validate.Types.{
  EntityRecord, Validated, ValidationContext, empty_validated, resolve_entity,
}
use fact_checker.Validate.Citations.{citeable_sources}
use fact_checker.Validate.Entities.{EntityLoop, map_entities}
use fact_checker.Validate.Entities.Laws.{EntitiesInv, entity_ids, map_entities-Inv}
use fact_checker.Validate.Events.{map_events}
use fact_checker.Validate.Events.Laws.{EventsInv, map_events-Inv}
use fact_checker.Validate.Claims.{ClaimLoop, map_claims}
use fact_checker.Validate.Claims.Laws.{Inv, SameOthers, map_claims-Inv, map_claims_frame}
use fact_checker.Validate.Relationships.Laws.{RelationshipsInv, map_relationships-Inv}
use fact_checker.Validate.Events.Laws.{event_ids}
use fact_checker.Validate.Events.Links.{IsLinked}
use fact_checker.Validate.Events.Round.{IsLoadable as IsLoadableEvent}
use fact_checker.Validate.Claims.Outcome.{IsLoadable as IsLoadableClaim}
use fact_checker.Validate.Claims.Laws.{claim_ids}
use fact_checker.Validate.Whole.{validate}

module _ (wire : WireExtraction) (ctx : ValidationContext) where
  abbrev pub entities_stage : EntityLoop
  entities_stage = map_entities wire empty_validated

  abbrev pub payload : List (Str × EntityRecord)
  payload = entities_stage.by_id

  abbrev pub events_stage : Validated
  events_stage = map_events wire (citeable_sources ctx.unit) payload ctx entities_stage.result

  abbrev pub claims_stage : ClaimLoop
  claims_stage = map_claims wire (citeable_sources ctx.unit) payload ctx events_stage

  pub entities-Inv : EntitiesInv empty_validated entities_stage
  entities-Inv = map_entities-Inv wire empty_validated refl

  pub events-Inv : EventsInv payload ctx entities_stage.result events_stage
  events-Inv =
      map_events-Inv wire payload ctx entities_stage.result
        (ap (λ (r : Validated). r.events) entities-Inv.same)

  pub claims-Inv : Inv payload ctx claims_stage
  claims-Inv =
      map_claims-Inv wire payload ctx events_stage
        (ap (λ (r : Validated). r.claims) events-Inv.same
          ∙ ap (λ (r : Validated). r.claims) entities-Inv.same)
        (ap (λ (r : Validated). r.contradictions) events-Inv.same
          ∙ ap (λ (r : Validated). r.contradictions) entities-Inv.same)

  claims_frame : SameOthers events_stage claims_stage.result
  claims_frame = map_claims_frame wire payload ctx events_stage

  pub relationships-Inv :
      RelationshipsInv payload claims_stage.by_id ctx claims_stage.result (validate wire ctx)
  unfolding validate
  relationships-Inv =
      map_relationships-Inv wire payload claims_stage.by_id ctx claims_stage.result (
        claims_frame.relationships
        ∙ ap (λ (r : Validated). r.relationships) events-Inv.same
        ∙ ap (λ (r : Validated). r.relationships) entities-Inv.same)

  pub validate-claims : (validate wire ctx).claims ≡ claims_stage.result.claims
  validate-claims = ap (λ (r : Validated). r.claims) relationships-Inv.same

  pub validate-contradictions :
      (validate wire ctx).contradictions ≡ claims_stage.result.contradictions
  validate-contradictions = ap (λ (r : Validated). r.contradictions) relationships-Inv.same

  pub validate-events : (validate wire ctx).events ≡ events_stage.events
  validate-events = ap (λ (r : Validated). r.events) relationships-Inv.same ∙ claims_frame.events

  pub validate-entities : (validate wire ctx).entities ≡ entities_stage.result.entities
  validate-entities =
      ap (λ (r : Validated). r.entities) relationships-Inv.same
      ∙ claims_frame.entities
      ∙ ap (λ (r : Validated). r.entities) events-Inv.same

  -- An id that resolves is empty, or is that of an entity that is kept or known.
  pub resolves :
      (id : Str)
      → resolve_entity id payload ctx ≡ true
      → (id ≡ [])
        ⊎ ((has (entity_ids (validate wire ctx).entities) id || has ctx.db_entity_ids id) ≡ true)
  unfolding resolve_entity
  resolves id h = rw validate-entities (ground (arith, entities-Inv.keyed id, ==_sound id []))

  pub claims_loadable : All (IsLoadableClaim payload ctx) (validate wire ctx).claims
  claims_loadable = rw validate-claims (claims-Inv.loadable)

  pub events_loadable : All (IsLoadableEvent payload ctx) (validate wire ctx).events
  events_loadable = rw validate-events (events-Inv.loadable)

  pub events_linked :
      All
        (IsLinked (event_ids (validate wire ctx).events ++ ctx.db_event_ids))
        (validate wire ctx).events
  events_linked = rw validate-events (events-Inv.linked)

  -- A claim id that `map_claims` has mapped is that of a claim of the result.
  pub claims_keyed :
      (k : Str) → is_key k claims_stage.by_id ≡ has (claim_ids (validate wire ctx).claims) k
  claims_keyed k = rw validate-claims (claims-Inv.keyed k)
