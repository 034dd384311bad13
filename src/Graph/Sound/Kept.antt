-- ===== src/Graph/Sound/Kept.antt =====
-- Loading what `Validate` keeps adds no finding to a graph that has none.
use fact_checker.Base.{
  All-both, All-of_map, List, [], ◌∷◌, map, ◌≡◌, ◌≢◌, ◌∙◌, true, ◌||◌, Str, codes, has, All,
  All-append, All-map, some, arith,
}
use fact_checker.Wire.Types.{WireExtraction}
use fact_checker.Validate.Types.{
  Participant, EventRecord, ClaimRecord, RelationshipRecord, Validated, ValidationContext,
  needs_versions,
}
use fact_checker.Validate.Citations.Citeable.{IsCiteable}
use fact_checker.Validate.Citations.Reason.{IsCited}
use fact_checker.Validate.Whole.{validate}
use fact_checker.Validate.Whole.Cited.{IsCitedClaim, validate-claims_cited, validate-events-IsCited}
use fact_checker.Validate.Whole.Closed.{
  EntityRef, EventRef, IsClosedEvent, IsClosedRelationship, validate-events_closed,
  validate-relationships_closed,
}
use fact_checker.Validate.Whole.Register.{validate-register}
use fact_checker.Graph.Rows.{id_set, Row, link_row, Graph, Key, key, exists_at}
use fact_checker.Graph.Load.{
  nullable, concat_map, entity_rows, event_itself, event_citation, event_references, claim_rows,
  relationship_itself, rows_of, load_records,
}
use fact_checker.Graph.Rows.Laws.{exists_at-put_all, All-put_all}
use fact_checker.Graph.Sound.Locators.{covers, IsCiteable-bad_locator, bad_locator-load_records}
use fact_checker.Graph.Rows.{id_set}
use fact_checker.Graph.Rows.Laws.{has-id_set}
use fact_checker.Graph.Sound.Findings.{
  HasNoFinding, HasNoFinding-iff, IsSound, IsSound-later, Extends,
}
use fact_checker.Graph.Sound.Tables.{
  event_row-IsSound, participant_row-IsSound, link_row-IsSound, event_source_row-IsSound,
  relationship_row-IsSound,
}
use fact_checker.Graph.Sound.Included.{Included, All-concat_map}
use fact_checker.Graph.Sound.Present.{
  Holds, event_self, events_cited, entity_ref, event_ref, claim_ref, claims-Included,
  claims_registered,
}
use fact_checker.Graph.Sound.Records.{entities-IsSound, register-IsSound, claim_rows-IsSound}

-- No participant and no end of a relationship is the empty id.
pub record HasNames (v : Validated) : Type 0 where
  pub participants :
      All (λ (e : EventRecord). All (λ (p : Participant). p.entity_id ≢ []) e.participants) v.events
  pub ends :
      All
        (λ (r : RelationshipRecord). (r.from_entity_id ≢ []) × (r.to_entity_id ≢ []))
        v.relationships

module _ (ctx : ValidationContext) (v : Validated) (g : Graph) (holds : Holds ctx v g) where
  links-IsSound :
      (link : Str → Row) (ls : List Str)
      → ((l : Str) → exists_at (codes "events" ∷ l ∷ []) g ≡ true → IsSound g (link l))
      → All (EventRef ctx v) ls
      → All (IsSound g) (map link ls)
  links-IsSound link ls sound h =
      All-of_map (IsSound g) (EventRef ctx v) link (λ l r. sound l (event_ref ctx v g holds l r)) ls
        h

  references-IsSound :
      (e : EventRecord)
      → exists_at (codes "events" ∷ e.id ∷ []) g ≡ true
      → IsCited ctx.unit e.sources
      → IsClosedEvent ctx v e
      → All (λ (p : Participant). p.entity_id ≢ []) e.participants
      → All (IsSound g) (event_references e)
  references-IsSound e self cited closed named =
      All-append (IsSound g) (map _ e.participants) _
        (All-of_map (IsSound g)
          (λ (p : Participant). EntityRef ctx v p.entity_id × (p.entity_id ≢ [])) _
          (λ p h.
            participant_row-IsSound g e.id p.entity_id p.role
              (entity_ref ctx v g holds p.entity_id h.0 h.1))
          e.participants (All-both _ _ e.participants closed.participants named))
        (All-append (IsSound g) (map (λ link. link_row link e.id (codes "cause")) e.causes) _
          (links-IsSound (λ link. link_row link e.id (codes "cause")) e.causes
            (λ l there. link_row-IsSound g l e.id (codes "cause") there self) closed.causes)
          (All-append (IsSound g)
            (map (λ consequence. link_row e.id consequence (codes "cause")) e.consequences) _
            (links-IsSound (λ consequence. link_row e.id consequence (codes "cause")) e.consequences
              (λ l there. link_row-IsSound g e.id l (codes "cause") self there) closed.consequences)
            (All-of_map (IsSound g) (IsCiteable ctx.unit) (event_citation e.id)
              (λ c h.
                event_source_row-IsSound g e.id c.source_id c.locator (nullable c.note)
                  (holds.locators c h))
              e.sources cited.citeable)))

  relationship-IsSound :
      (r : RelationshipRecord)
      → IsClosedRelationship ctx v r
      → (r.from_entity_id ≢ []) × (r.to_entity_id ≢ [])
      → IsSound g (relationship_itself r)
  relationship-IsSound r closed named =
      relationship_row-IsSound g r.from_entity_id r.to_entity_id r.rel_type (nullable r.claim_id)
        (entity_ref ctx v g holds r.from_entity_id closed.source named.0)
        (entity_ref ctx v g holds r.to_entity_id closed.target named.1)
        (claim_ref ctx v g holds r.claim_id closed.claim)

module _ (wire : WireExtraction) (ctx : ValidationContext) (g : Graph) where
  abbrev kept : Validated
  kept = validate wire ctx

  -- The rows of what `Validate` keeps have no finding in a graph that has them all.
  rows_of-IsSound : Holds ctx kept g → HasNames kept → All (IsSound g) (rows_of kept)
  unfolding rows_of key
  rows_of-IsSound holds names =
      All-append (IsSound g) (concat_map entity_rows kept.entities) _
        (entities-IsSound g kept.entities)
        (All-append (IsSound g) (map event_itself kept.events) _
          (All-of_map (IsSound g) _ event_itself
            (λ (e : EventRecord)
                (h : IsCited ctx.unit e.sources
                  × (e.sources ≢ [] → exists_at (codes "event_sources" ∷ e.id ∷ []) g ≡ true)).
              event_row-IsSound g _ (h.1 (h.0).satisfies.cited))
            kept.events
            (All-both _ _ kept.events (validate-events-IsCited wire ctx)
              (events_cited ctx kept g holds)))
          (All-append (IsSound g) (concat_map event_references kept.events) _
            (All-concat_map (IsSound g) _ event_references
              (λ (e : EventRecord)
                  (h : exists_at (codes "events" ∷ e.id ∷ []) g ≡ true
                    × (IsCited ctx.unit e.sources
                        × (IsClosedEvent ctx kept e
                            × All (λ (p : Participant). p.entity_id ≢ []) e.participants))).
                references-IsSound ctx kept g holds e h.0 h.1.0 h.1.1.0 h.1.1.1)
              kept.events
              (All-both _ _ kept.events (event_self ctx kept g holds) (
                All-both _ _ kept.events (validate-events-IsCited wire ctx)
                  (All-both _ _ kept.events (validate-events_closed wire ctx) names.participants))))
            (All-append (IsSound g) (concat_map claim_rows kept.claims) _
              (All-concat_map (IsSound g) _ claim_rows
                (λ (c : ClaimRecord)
                    (h : Included (claim_rows c) g
                      × (IsCitedClaim ctx c
                          × (needs_versions c.confidence ≡ true
                              → exists_at (codes "contradiction_claims" ∷ c.id ∷ []) g ≡ true))).
                  claim_rows-IsSound g ctx holds.locators c h.0 h.1.0 h.1.1)
                kept.claims
                (All-both _ _ kept.claims (claims-Included ctx kept g holds) (
                  All-both _ _ kept.claims (validate-claims_cited wire ctx)
                    (claims_registered ctx kept g holds (validate-register wire ctx)))))
              (All-append (IsSound g) (map relationship_itself kept.relationships) _
                (All-of_map (IsSound g) _ relationship_itself
                  (λ (r : RelationshipRecord)
                      (h : IsClosedRelationship ctx kept r
                        × ((r.from_entity_id ≢ []) × (r.to_entity_id ≢ []))).
                    relationship-IsSound ctx kept g holds r h.0 h.1)
                  kept.relationships
                  (All-both _ _ kept.relationships (validate-relationships_closed wire ctx)
                    names.ends))
                (register-IsSound g kept.contradictions)))))

-- The ids of the context are of rows of the graph.
pub record IsOf (g : Graph) (ctx : ValidationContext) : Type 0 where
  pub entities :
      (id : Str) → has ctx.db_entity_ids id ≡ true → has (id_set (codes "entities") g) id ≡ true
  pub events :
      (id : Str) → has ctx.db_event_ids id ≡ true → has (id_set (codes "events") g) id ≡ true
  pub claims :
      (id : Str) → has ctx.db_claim_ids id ≡ true → has (id_set (codes "claims") g) id ≡ true

exists_at-load_records :
    (first : Key) (v : Validated) (g : Graph)
    → exists_at first (load_records v g) ≡ (exists_at first g || exists_at first (rows_of v))
unfolding load_records
exists_at-load_records first v g = exists_at-put_all first (rows_of v) g

load_records-Extends : (v : Validated) (g : Graph) → Extends g (load_records v g)
load_records-Extends v g = record {
  kept = λ k h. ground (arith, exists_at-load_records k v g);
  judged = λ source locator. bad_locator-load_records v g source locator;
}

pub load_records-Holds :
    (ctx : ValidationContext) (v : Validated) (g : Graph)
    → IsOf g ctx
    → covers ctx.unit g ≡ true
    → Holds ctx v (load_records v g)
load_records-Holds ctx v g known covered = record {
  included = λ k h. ground (arith, exists_at-load_records k v g);
  entities = λ id h. later (codes "entities") id (known.entities id h);
  events = λ id h. later (codes "events") id (known.events id h);
  claims = λ id h. later (codes "claims") id (known.claims id h);
  locators = λ c good.
      bad_locator-load_records v g c.source_id (some c.locator)
      ∙ IsCiteable-bad_locator ctx.unit c good g covered;
}
  where
    later :
        (table id : Str)
        → has (id_set table g) id ≡ true
        → exists_at (table ∷ id ∷ []) (load_records v g) ≡ true
    later table id h =
        ground (arith, exists_at-load_records (table ∷ id ∷ []) v g, has-id_set table id g)

-- Loading what `Validate` keeps of a response adds no finding of the six checks to a graph that
-- has none, where the ids of the context are of rows of the graph, the unit offers the required
-- locator keys of the registered sources that it offers, and no participant and no end of a kept
-- relationship is the empty id.
pub load_records-HasNoFinding :
    (wire : WireExtraction) (ctx : ValidationContext) (g : Graph)
    → IsOf g ctx
    → covers ctx.unit g ≡ true
    → HasNames (validate wire ctx)
    → HasNoFinding g
    → HasNoFinding (load_records (validate wire ctx) g)
load_records-HasNoFinding wire ctx g known covered names clean =
    let v = validate wire ctx in
    let g' = load_records v g in
    (HasNoFinding-iff g').1 (
      unfold load_records in
      All-put_all (IsSound g') (rows_of v) g
        (rows_of-IsSound wire ctx g' (load_records-Holds ctx v g known covered) names)
        (All-map (IsSound g) (IsSound g') (IsSound-later g g' (load_records-Extends v g)) g
          ((HasNoFinding-iff g).0 clean)))
