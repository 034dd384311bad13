-- ===== src/Graph/Sound/Present.antt =====
-- What a graph has that has the rows of validated records: their ids, citations and register.
use fact_checker.Base.{
  List, [], ◌∷◌, ◌++◌, map, ◌≡◌, ◌≢◌, refl, sym, ◌∙◌, true, false, inl, inr, Str, codes, ◌==◌, has,
  has-append, select, Bool-cases, All, All-map, some, ||-true, arith,
}
use fact_checker.Extract.{Citation}
use fact_checker.Validate.Types.{
  EntityRecord, EventRecord, ClaimRecord, Validated, ValidationContext, needs_versions,
}
use fact_checker.Validate.Citations.Citeable.{IsCiteable}
use fact_checker.Validate.Claims.{contradiction_entry}
use fact_checker.Validate.Claims.Laws.{claim_ids, contested_claims}
use fact_checker.Validate.Entities.Laws.{entity_ids}
use fact_checker.Validate.Events.Laws.{event_ids}
use fact_checker.Validate.Whole.Closed.{EntityRef, EventRef, ClaimRef}
use fact_checker.Graph.Rows.Laws.{begins_with-append}
use fact_checker.Graph.Rows.{Row, Graph, Key, key, begins_with, exists_at}
use fact_checker.Graph.Load.{
  nullable, concat_map, entity_rows, event_itself, event_citation, event_references, claim_rows,
  relationship_itself, contradiction_rows, rows_of,
}
use fact_checker.Graph.Checks.{dangles, bad_locator}
use fact_checker.Graph.Sound.Included.{
  Included, Included-front, Included-back, Included-first, Included-rest, Included-map,
  Included-concat_map, has-All,
}

-- The graph has the rows of the records and the ids of the context, and the locators that the
-- unit lets a citation carry.
pub record Holds (ctx : ValidationContext) (v : Validated) (g : Graph) : Type 0 where
  pub included : Included (rows_of v) g
  pub entities :
      (id : Str) → has ctx.db_entity_ids id ≡ true → exists_at (codes "entities" ∷ id ∷ []) g ≡ true
  pub events :
      (id : Str) → has ctx.db_event_ids id ≡ true → exists_at (codes "events" ∷ id ∷ []) g ≡ true
  pub claims :
      (id : Str) → has ctx.db_claim_ids id ≡ true → exists_at (codes "claims" ∷ id ∷ []) g ≡ true
  pub locators :
      (c : Citation) → IsCiteable ctx.unit c → bad_locator c.source_id (some c.locator) g ≡ false

module _ (g : Graph) where
  -- The key of the first citation's row is there.
  pub first_cited :
      (row : Citation → Row) (k : Key) (cs : List Citation)
      → cs ≢ []
      → Included (map row cs) g
      → ((c : Citation) → begins_with k (key (row c)) ≡ true)
      → exists_at k g ≡ true
  first_cited row k [] some_one h at_key = absurd (some_one refl)
  first_cited row k (c ∷ cs) some_one h at_key =
      Included-first g (row c) (map row cs) h k (at_key c)

  register_rows :
      (cs : List ClaimRecord)
      → Included (concat_map contradiction_rows (map contradiction_entry (contested_claims cs))) g
      → All
          (λ (c : ClaimRecord).
            needs_versions c.confidence ≡ true
            → exists_at (codes "contradiction_claims" ∷ c.id ∷ []) g ≡ true)
          cs
  unfolding select key contradiction_entry
  register_rows [] h = tt
  register_rows (c ∷ cs) h = elim (Bool-cases (needs_versions c.confidence)) [
    | inl e ↦
        let rest = Included-rest g _ _ (rw e at h) in
        (
          λ contested. Included-first g _ _ rest (codes "contradiction_claims" ∷ c.id ∷ []) (
              begins_with-append (codes "contradiction_claims" ∷ c.id ∷ [])
                ((c.id ++ codes "-tradition") ∷ [])),
          register_rows cs (Included-rest g _ _ rest),
        )
    | inr e ↦ (λ contested. cc, register_rows cs (rw e at h))
  ]

-- The parts of the rows, each of which the graph has.
module _ (ctx : ValidationContext) (v : Validated) (g : Graph) (holds : Holds ctx v g) where
  abbrev from_register : List Row
  from_register = concat_map contradiction_rows v.contradictions

  abbrev from_relationships : List Row
  from_relationships = map relationship_itself v.relationships ++ from_register

  abbrev from_claims : List Row
  from_claims = concat_map claim_rows v.claims ++ from_relationships

  abbrev from_references : List Row
  from_references = concat_map event_references v.events ++ from_claims

  abbrev from_events : List Row
  from_events = map event_itself v.events ++ from_references

  has_events : Included from_events g
  unfolding rows_of
  has_events = Included-back g (concat_map entity_rows v.entities) from_events holds.included

  has_references : Included from_references g
  has_references = Included-back g (map event_itself v.events) from_references has_events

  has_claims : Included from_claims g
  has_claims = Included-back g (concat_map event_references v.events) from_claims has_references

  has_register : Included from_register g
  has_register =
      Included-back g (map relationship_itself v.relationships) from_register
        (Included-back g (concat_map claim_rows v.claims) from_relationships has_claims)

  pub entity_there :
      (id : Str)
      → has (entity_ids v.entities) id ≡ true
      → exists_at (codes "entities" ∷ id ∷ []) g ≡ true
  unfolding rows_of key
  entity_there id m =
      has-All (λ i. exists_at (codes "entities" ∷ i ∷ []) g ≡ true) (λ (e : EntityRecord). e.id)
        v.entities id
        (All-map (λ (e : EntityRecord). Included (entity_rows e) g) _
          (λ e h.
            Included-first g _ _ h (codes "entities" ∷ e.id ∷ [])
              (begins_with-append (codes "entities" ∷ e.id ∷ []) []))
          v.entities
          (Included-concat_map g entity_rows v.entities
            (Included-front g (concat_map entity_rows v.entities) from_events holds.included)))
        m

  pub event_there :
      (id : Str)
      → has (event_ids v.events) id ≡ true
      → exists_at (codes "events" ∷ id ∷ []) g ≡ true
  unfolding key
  event_there id m =
      has-All (λ i. exists_at (codes "events" ∷ i ∷ []) g ≡ true) (λ (e : EventRecord). e.id)
        v.events id
        (All-map _ _
          (λ (e : EventRecord) h.
            h (codes "events" ∷ e.id ∷ []) (begins_with-append (codes "events" ∷ e.id ∷ []) []))
          v.events
          (Included-map g event_itself v.events
            (Included-front g (map event_itself v.events) from_references has_events)))
        m

  pub claims-Included : All (λ (c : ClaimRecord). Included (claim_rows c) g) v.claims
  claims-Included =
      Included-concat_map g claim_rows v.claims
        (Included-front g (concat_map claim_rows v.claims) from_relationships has_claims)

  pub claim_there :
      (id : Str)
      → has (claim_ids v.claims) id ≡ true
      → exists_at (codes "claims" ∷ id ∷ []) g ≡ true
  unfolding key
  claim_there id m =
      has-All (λ i. exists_at (codes "claims" ∷ i ∷ []) g ≡ true) (λ (c : ClaimRecord). c.id)
        v.claims id
        (All-map (λ (c : ClaimRecord). Included (claim_rows c) g) _
          (λ c h.
            Included-first g _ _ h (codes "claims" ∷ c.id ∷ [])
              (begins_with-append (codes "claims" ∷ c.id ∷ []) []))
          v.claims claims-Included)
        m

  -- A reference that resolves is to a row.
  pub entity_ref :
      (id : Str) → EntityRef ctx v id → id ≢ [] → exists_at (codes "entities" ∷ id ∷ []) g ≡ true
  entity_ref id (inl e) named = absurd (named e)
  entity_ref id (inr h) named =
      elim (||-true (has (entity_ids v.entities) id) (has ctx.db_entity_ids id) h) [
        | inl m ↦ entity_there id m
        | inr m ↦ holds.entities id m
      ]

  pub event_ref : (id : Str) → EventRef ctx v id → exists_at (codes "events" ∷ id ∷ []) g ≡ true
  event_ref id h =
      elim (||-true (has (event_ids v.events) id) (has ctx.db_event_ids id)
        (sym (has-append (event_ids v.events) ctx.db_event_ids id) ∙ h)) [
          | inl m ↦ event_there id m
          | inr m ↦ holds.events id m
        ]

  pub event_self :
      All (λ (e : EventRecord). exists_at (codes "events" ∷ e.id ∷ []) g ≡ true) v.events
  unfolding key
  event_self =
      All-map _ _
        (λ (e : EventRecord) h.
          h (codes "events" ∷ e.id ∷ []) (begins_with-append (codes "events" ∷ e.id ∷ []) []))
        v.events
        (Included-map g event_itself v.events
          (Included-front g (map event_itself v.events) from_references has_events))

  pub claim_ref : (id : Str) → ClaimRef ctx v id → dangles (codes "claims") (nullable id) g ≡ false
  unfolding ◌==◌
  claim_ref [] r = refl
  claim_ref (c ∷ id) (inl e) = cc
  claim_ref (c ∷ id) (inr h) =
      elim (||-true (has (claim_ids v.claims) (c ∷ id)) (has ctx.db_claim_ids (c ∷ id)) h) [
        | inl m ↦ ground (arith, claim_there (c ∷ id) m)
        | inr m ↦ ground (arith, holds.claims (c ∷ id) m)
      ]

  -- Each event has the row of a citation, if it has a citation.
  pub events_cited :
      All
        (λ (e : EventRecord).
          e.sources ≢ [] → exists_at (codes "event_sources" ∷ e.id ∷ []) g ≡ true)
        v.events
  unfolding key
  events_cited =
      All-map (λ (e : EventRecord). Included (event_references e) g) _
        (λ (e : EventRecord) h some_one.
          first_cited g (event_citation e.id) (codes "event_sources" ∷ e.id ∷ []) e.sources some_one
            (Included-back g (map _ e.consequences) _
              (Included-back g (map _ e.causes) _ (Included-back g (map _ e.participants) _ h)))
            (λ c. begins_with-append (codes "event_sources" ∷ e.id ∷ []) (c.source_id ∷ [])))
        v.events
        (Included-concat_map g event_references v.events
          (Included-front g (concat_map event_references v.events) from_claims has_references))

  -- Each contested or abandoned claim has its row of the register.
  pub claims_registered :
      v.contradictions ≡ map contradiction_entry (contested_claims v.claims)
      → All
          (λ (c : ClaimRecord).
            needs_versions c.confidence ≡ true
            → exists_at (codes "contradiction_claims" ∷ c.id ∷ []) g ≡ true)
          v.claims
  claims_registered same = register_rows g v.claims (λ k e. has_register k (rw same e))
