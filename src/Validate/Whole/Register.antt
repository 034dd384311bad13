-- ===== src/Validate/Whole/Register.antt =====
-- Identity: the ids of what `validate` keeps, and the contradiction register.
use fact_checker.Base.{List, ◌≡◌, true, false, Str, has, map, Distinct, All, All-map}
use fact_checker.Wire.Types.{WireExtraction}
use fact_checker.Validate.Types.{EventRecord, ClaimRecord, Validated, ValidationContext, is_slug}
use fact_checker.Validate.Entities.Laws.{IsEntity, entity_ids}
use fact_checker.Validate.Events.Laws.{event_ids}
use fact_checker.Validate.Events.Round.{IsLoadable as IsLoadableEvent}
use fact_checker.Validate.Claims.{contradiction_entry}
use fact_checker.Validate.Claims.Laws.{claim_ids, contested_claims}
use fact_checker.Validate.Claims.Outcome.{IsLoadable as IsLoadableClaim}
use fact_checker.Validate.Relationships.Laws.{edge_keys}
use fact_checker.Validate.Whole.{validate}
use fact_checker.Validate.Whole.Stages.{
  payload, entities-Inv, events-Inv, claims-Inv, relationships-Inv, claims_loadable,
  events_loadable, validate-entities, validate-events, validate-claims, validate-contradictions,
}

-- An id that may be inserted: a slug that the graph does not have.
abbrev pub IsNewSlug : List Str → Str → Type 0
IsNewSlug db id = (is_slug id ≡ true) × (has db id ≡ false)

pub record HasIdentity (ctx : ValidationContext) (r : Validated) : Type 0 where
  pub entities : Distinct (entity_ids r.entities)
  pub events : Distinct (event_ids r.events)
  pub claims : Distinct (claim_ids r.claims)
  pub relationships : Distinct (edge_keys r.relationships)
  pub entity_slugs : All IsEntity r.entities
  pub event_slugs : All (λ (e : EventRecord). IsNewSlug ctx.db_event_ids e.id) r.events
  pub claim_slugs : All (λ (c : ClaimRecord). IsNewSlug ctx.db_claim_ids c.id) r.claims

-- What `Validate` keeps has an identity: no two entities, events or claims share an id, and no two
-- relationships share a key; the ids of events and claims are slugs that the graph does not have;
-- an entity's id is a slug, and its names are distinct, not empty, not its canonical name and each
-- of one of the four kinds.
pub validate-HasIdentity :
    (wire : WireExtraction) (ctx : ValidationContext) → HasIdentity ctx (validate wire ctx)
validate-HasIdentity wire ctx = record {
  entities = rw (validate-entities wire ctx) ((entities-Inv wire ctx).distinct);
  events = rw (validate-events wire ctx) ((events-Inv wire ctx).distinct);
  claims = rw (validate-claims wire ctx) ((claims-Inv wire ctx).distinct);
  relationships = (relationships-Inv wire ctx).distinct;
  entity_slugs = rw (validate-entities wire ctx) ((entities-Inv wire ctx).entities);
  event_slugs =
      All-map (IsLoadableEvent (payload wire ctx) ctx)
        (λ (e : EventRecord). IsNewSlug ctx.db_event_ids e.id) (λ e good. (good.slug, good.fresh)) _
        (events_loadable wire ctx);
  claim_slugs =
      All-map (IsLoadableClaim (payload wire ctx) ctx)
        (λ (c : ClaimRecord). IsNewSlug ctx.db_claim_ids c.id) (λ c good. (good.slug, good.fresh)) _
        (claims_loadable wire ctx);
}

-- The contradiction register is complete and holds nothing else: its entries are those of the
-- contested and abandoned claims that `Validate` keeps, in their order.
pub validate-register :
    (wire : WireExtraction) (ctx : ValidationContext)
    → (validate wire ctx).contradictions
      ≡ map contradiction_entry (contested_claims (validate wire ctx).claims)
validate-register wire ctx =
    rw (validate-contradictions wire ctx, validate-claims wire ctx) ((claims-Inv wire ctx).register)
