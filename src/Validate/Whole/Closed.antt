-- ===== src/Validate/Whole/Closed.antt =====
-- References: what `validate` keeps refers only to what it keeps and to what the graph has.
use fact_checker.Base.{
  ◌∷◌, List, [], ◌≡◌, ◌⊎◌, true, false, ◌||◌, Str, ◌==◌, has, All, All-map, arith, ◌++◌,
}
use fact_checker.Wire.Types.{WireExtraction}
use fact_checker.Validate.Types.{
  EventRecord, Participant, ClaimRecord, RelationshipRecord, Validated, ValidationContext,
  resolve_entity,
}
use fact_checker.Validate.Entities.Laws.{entity_ids}
use fact_checker.Validate.Events.Links.{IsLinked}
use fact_checker.Validate.Events.Laws.{event_ids}
use fact_checker.Validate.Events.Round.{IsLoadable as IsLoadableEvent}
use fact_checker.Validate.Claims.Laws.{claim_ids}
use fact_checker.Validate.Claims.Outcome.{IsLoadable as IsLoadableClaim}
use fact_checker.Validate.Relationships.Round.{IsLoadable as IsLoadableRelationship}
use fact_checker.Validate.Whole.{validate}
use fact_checker.Validate.Whole.Stages.{
  payload, claims_stage, claims_loadable, events_loadable, events_linked, claims_keyed,
  relationships-Inv, resolves,
}

module _ (ctx : ValidationContext) (result : Validated) where
  -- The empty id, an entity of the result, or one of the graph.
  abbrev pub EntityRef : Str → Type 0
  EntityRef id =
      (id ≡ []) ⊎ ((has (entity_ids result.entities) id || has ctx.db_entity_ids id) ≡ true)

  -- An event of the result, or one of the graph.
  abbrev pub EventRef : Str → Type 0
  EventRef id = has (event_ids result.events ++ ctx.db_event_ids) id ≡ true

  -- The empty id, a claim of the result, or one of the graph.
  abbrev pub ClaimRef : Str → Type 0
  ClaimRef id = (id ≡ []) ⊎ ((has (claim_ids result.claims) id || has ctx.db_claim_ids id) ≡ true)

  pub record IsClosedEvent (e : EventRecord) : Type 0 where
    pub participants : All (λ (p : Participant). EntityRef p.entity_id) e.participants
    pub location : EntityRef e.location_entity_id
    pub causes : All EventRef e.causes
    pub consequences : All EventRef e.consequences

  pub record IsClosedClaim (c : ClaimRecord) : Type 0 where
    pub subject : EntityRef c.subject_entity_id
    pub object : EntityRef c.object_entity_id
    pub one_object : (c.object_entity_id ≡ []) ⊎ (c.object_value ≡ [])

  pub record IsClosedRelationship (r : RelationshipRecord) : Type 0 where
    pub source : EntityRef r.from_entity_id
    pub target : EntityRef r.to_entity_id
    pub no_loop : (r.from_entity_id == r.to_entity_id) ≡ false
    pub claim : ClaimRef r.claim_id
    pub allowed : has ctx.unit.rel_types r.rel_type ≡ true

-- Every reference of a claim that `Validate` keeps is empty, or leads to an entity that it keeps
-- or that the graph has; and a claim has no object value beside an object entity.
pub validate-claims_closed :
    (wire : WireExtraction) (ctx : ValidationContext)
    → All (IsClosedClaim ctx (validate wire ctx)) (validate wire ctx).claims
validate-claims_closed wire ctx =
    All-map (IsLoadableClaim (payload wire ctx) ctx) (IsClosedClaim ctx (validate wire ctx))
      (λ c good. record {
        subject = resolves wire ctx c.subject_entity_id good.subject;
        object = resolves wire ctx c.object_entity_id good.object;
        one_object = good.one_object;
      })
      _ (claims_loadable wire ctx)

-- Every participant and location of an event that `Validate` keeps is an entity that it keeps or
-- that the graph has (a location may be empty, and so may a participant's id), and every cause and
-- consequence is an event that it keeps or that the graph has.
pub validate-events_closed :
    (wire : WireExtraction) (ctx : ValidationContext)
    → All (IsClosedEvent ctx (validate wire ctx)) (validate wire ctx).events
validate-events_closed wire ctx =
    close (validate wire ctx).events (events_loadable wire ctx) (events_linked wire ctx)
  where
    close :
        (es : List EventRecord)
        → All (IsLoadableEvent (payload wire ctx) ctx) es
        → All (IsLinked (event_ids (validate wire ctx).events ++ ctx.db_event_ids)) es
        → All (IsClosedEvent ctx (validate wire ctx)) es
    close [] good links = tt
    close (e ∷ es) (good, goods) (link, links) = (
      record {
        participants =
            All-map (λ (p : Participant). resolve_entity p.entity_id (payload wire ctx) ctx ≡ true)
              (λ (p : Participant). EntityRef ctx (validate wire ctx) p.entity_id)
              (λ p. resolves wire ctx p.entity_id) e.participants good.present;
        location = resolves wire ctx e.location_entity_id good.located;
        causes = link.0;
        consequences = link.1;
      },
      close es goods links,
    )

-- Every relationship that `Validate` keeps leads between two ids that resolve, which are not the
-- same, has a type of the unit's vocabulary, and has no justifying claim but one that `Validate`
-- keeps or that the graph has.
pub validate-relationships_closed :
    (wire : WireExtraction) (ctx : ValidationContext)
    → All (IsClosedRelationship ctx (validate wire ctx)) (validate wire ctx).relationships
validate-relationships_closed wire ctx =
    All-map (IsLoadableRelationship (payload wire ctx) (claims_stage wire ctx).by_id ctx)
      (IsClosedRelationship ctx (validate wire ctx))
      (λ r good. record {
        source = resolves wire ctx r.from_entity_id good.source;
        target = resolves wire ctx r.to_entity_id good.target;
        no_loop = good.no_loop;
        claim = ground (arith, good.justified, claims_keyed wire ctx r.claim_id);
        allowed = good.allowed;
      })
      _ (relationships-Inv wire ctx).loadable
