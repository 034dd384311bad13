-- ===== src/Graph/Load.antt =====
-- `LoadRecords` of extract/loader.go: the rows that it inserts, in the order of its statements.
-- An id that is a number in the database is not modelled: a version is named by its label.
pub mod Rewrite
pub mod Again
pub mod First
use fact_checker.Base.{
  List, [], ◌∷◌, ◌++◌, map, Str, codes, ◌==◌, Option, none, some, if◌then◌else◌,
}
use fact_checker.Extract.{Citation}
use fact_checker.Validate.Types.{
  EntityName, EntityRecord, Participant, EventRecord, ClaimVersionRecord, ClaimRecord,
  RelationshipRecord, ContradictionEntry, Validated,
}
use fact_checker.Graph.Rows.{
  Row, entity_row, name_row, event_row, participant_row, link_row, event_source_row, claim_row,
  version_row, claim_source_row, relationship_row, contradiction_row, contradiction_claim_row,
  Graph, put_all,
}

-- The empty string is `NULL`.
abbrev pub nullable : Str → Option Str
nullable s = if s == [] then none else some s

abbrev pub concat_map {ℓ κ} : {A : Type ℓ} {B : Type κ} → (A → List B) → List A → List B
concat_map f [] = []
concat_map f (x ∷ xs) = f x ++ concat_map f xs

abbrev pub entity_rows : EntityRecord → List Row
entity_rows e =
    entity_row e.id e.kind e.canonical_name e.attributes
    ∷ map (λ (n : EntityName). name_row e.id n.name n.name_kind (nullable n.language)) e.names

abbrev pub event_itself : EventRecord → Row
event_itself e = event_row (record {
  id = e.id;
  kind = nullable e.kind;
  summary = e.summary;
  description = nullable e.description;
  location_entity_id = nullable e.location_entity_id;
  dating = e.dating;
})

abbrev pub event_citation : Str → Citation → Row
event_citation event c = event_source_row event c.source_id c.locator (nullable c.note)

-- The second pass over an event: participants, causes, consequences and citations.
abbrev pub event_references : EventRecord → List Row
event_references e =
    map (λ (p : Participant). participant_row e.id p.entity_id p.role) e.participants
    ++ (map (λ link. link_row link e.id (codes "cause")) e.causes
        ++ (map (λ consequence. link_row e.id consequence (codes "cause")) e.consequences
            ++ map (event_citation e.id) e.sources))

abbrev pub claim_citation : Str → Option Str → Citation → Row
claim_citation claim version c =
    claim_source_row claim version c.source_id c.locator (nullable c.note)

abbrev pub claim_itself : ClaimRecord → Row
claim_itself c = claim_row (record {
  id = c.id;
  statement = c.statement;
  subject_entity_id = nullable c.subject_entity_id;
  predicate = nullable c.predicate;
  object_entity_id = nullable c.object_entity_id;
  object_value = nullable c.object_value;
  confidence = c.confidence;
})

abbrev pub version_itself : Str → ClaimVersionRecord → Row
version_itself claim v = version_row claim v.label v.statement

abbrev pub version_citations : Str → ClaimVersionRecord → List Row
version_citations claim v = map (claim_citation claim (some v.label)) v.sources

abbrev pub claim_rows : ClaimRecord → List Row
claim_rows c =
    claim_itself c
    ∷ (map (version_itself c.id) c.versions
        ++ (map (claim_citation c.id none) c.sources
            ++ concat_map (version_citations c.id) c.versions))

abbrev pub relationship_itself : RelationshipRecord → Row
relationship_itself r =
    relationship_row r.from_entity_id r.to_entity_id r.rel_type (nullable r.claim_id)

abbrev pub contradiction_rows : ContradictionEntry → List Row
contradiction_rows entry =
    contradiction_row entry.id entry.title entry.description
    ∷ contradiction_claim_row entry.id entry.claim_id (codes "auto-registered at extraction")
    ∷ []

unfoldable pub rows_of : Validated → List Row
rows_of v =
    concat_map entity_rows v.entities
    ++ (map event_itself v.events
        ++ (concat_map event_references v.events
            ++ (concat_map claim_rows v.claims
                ++ (map relationship_itself v.relationships
                    ++ concat_map contradiction_rows v.contradictions))))

unfoldable pub load_records : Validated → Graph → Graph
unfolding rows_of put_all
load_records v g = put_all (rows_of v) g
