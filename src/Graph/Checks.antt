-- ===== src/Graph/Checks.antt =====
-- The queries of the checks of internal/integrity/integrity.go: the references that each finds.
-- `lower` stands for SQL's lower().
use fact_checker.Base.{
  List, [], ◌∷◌, ◌++◌, any, all, Str, codes, Bool, true, false, not, ◌&&◌, ◌||◌, ◌==◌, is_key,
  Option, none, some, if◌then◌else◌,
}
use fact_checker.Extract.{AnyMap}
use fact_checker.Graph.Rows.{
  Row, entity_row, event_row, participant_row, link_row, event_source_row, claim_row, version_row,
  claim_source_row, relationship_row, source_row, statement_row, provenance_row, Graph, exists_at,
}
use fact_checker.Graph.Load.{concat_map}

-- The reference, where the test finds something.
abbrev pub found : Bool → Str → List Str
found b ref = if b then ref ∷ [] else []

-- An id that is not `NULL` and is not in the table.
abbrev pub dangles : Str → Option Str → Graph → Bool
dangles table none g = false
dangles table (some id) g = not (exists_at (table ∷ id ∷ []) g)

abbrev pub absent : Str → Str → Graph → Bool
absent table id g = not (exists_at (table ∷ id ∷ []) g)

-- The sources row violates the citation's locator: locatorClause.
abbrev pub lacks_keys : List Str → Option AnyMap → Bool
lacks_keys ks none = true
lacks_keys ks (some locator) = not (all (λ k. is_key k locator) ks)

unfoldable pub violates : Str → Option AnyMap → Row → Bool
violates source locator (source_row id (some ks)) = id == source && lacks_keys ks locator
violates source locator r = false

unfoldable pub bad_locator : Str → Option AnyMap → Graph → Bool
unfolding violates
bad_locator source locator g = any (violates source locator) g

unfoldable pub uncited_claim : Graph → Row → List Str
uncited_claim g (claim_row c) = found (absent (codes "claim_sources") c.id g) c.id
uncited_claim g r = []

unfoldable pub uncited_event : Graph → Row → List Str
uncited_event g (event_row e) = found (absent (codes "event_sources") e.id g) e.id
uncited_event g r = []

abbrev arrow : Str → Str → Str
arrow a b = a ++ codes "->" ++ b

abbrev pub bad_source : Graph → Option Str → Option AnyMap → Bool
bad_source g none locator = false
bad_source g (some source) locator = bad_locator source locator g

abbrev or_nothing : Option Str → Str
or_nothing none = []
or_nothing (some s) = s

unfoldable pub invalid_locator : Graph → Row → List Str
unfolding bad_locator
invalid_locator g (claim_source_row claim version source locator remark) =
    found (bad_locator source (some locator) g) (codes "claim:" ++ arrow claim source)
invalid_locator g (event_source_row event source locator remark) =
    found (bad_locator source (some locator) g) (codes "event:" ++ arrow event source)
invalid_locator g (provenance_row id statement claim event source locator) =
    found (bad_source g source locator) (codes "statement:" ++ arrow statement (or_nothing source))
invalid_locator g r = []

abbrev slash : Str → Str → Str
slash a b = a ++ codes "/" ++ b

unfoldable pub dangling_reference : Graph → Row → List Str
dangling_reference g (participant_row event entity role) =
    found (absent (codes "entities") entity g) (codes "event_participants:" ++ slash event entity)
dangling_reference g (link_row from to kind) =
    found (absent (codes "events") from g || absent (codes "events") to g)
      (codes "event_links:" ++ slash from to)
dangling_reference g (relationship_row from to rel_type claim) =
    found
      (absent (codes "entities") from g
        || (absent (codes "entities") to g || dangles (codes "claims") claim g))
      (codes "relationships:" ++ slash from to)
dangling_reference g (provenance_row id statement claim event source locator) =
    found
      (dangles (codes "claims") claim g
        || (dangles (codes "events") event g || dangles (codes "sources") source g))
      (codes "statement_provenance:" ++ id)
dangling_reference g r = []

-- A relationship or a provenance of the claim.
abbrev names_claim : Str → Option Str → Bool
names_claim id none = false
names_claim id (some claim) = claim == id

abbrev uses_claim : Str → Row → Bool
uses_claim id (relationship_row from to rel_type claim) = names_claim id claim
uses_claim id (provenance_row p statement claim event source locator) = names_claim id claim
uses_claim id r = false

abbrev is_null : Option Str → Bool
is_null none = true
is_null (some s) = false

unfoldable pub orphan_claim : Graph → Row → List Str
orphan_claim g (claim_row c) =
    found
      (is_null c.subject_entity_id
        && is_null c.object_entity_id
        && not (any (uses_claim c.id) g)
        && absent (codes "contradiction_claims") c.id g)
      c.id
orphan_claim g r = []

unfoldable pub unregistered_claim : Graph → Row → List Str
unregistered_claim g (claim_row c) =
    found
      ((c.confidence == codes "contested" || c.confidence == codes "abandoned_version")
        && absent (codes "contradiction_claims") c.id g)
      c.id
unregistered_claim g r = []

unfoldable pub uncited_version : Graph → Row → List Str
uncited_version g (version_row claim label statement) =
    found (not (exists_at (codes "claim_sources" ∷ claim ∷ codes "version" ∷ label ∷ []) g))
      (claim ++ codes "#" ++ label)
uncited_version g r = []

abbrev provenance_for : Str → Row → Bool
provenance_for id (provenance_row p statement claim event source locator) = statement == id
provenance_for id r = false

unfoldable pub unproven_statement : Graph → Row → List Str
unproven_statement g (statement_row id additions) =
    found (is_null additions && not (any (provenance_for id) g)) id
unproven_statement g r = []

module _ (lower : Str → Str) where
  abbrev twin : Str → Str → Str → Row → Bool
  twin id kind name (entity_row other other_kind other_name attributes) =
      not (other == id) && other_kind == kind && lower other_name == lower name
  twin id kind name r = false

  unfoldable pub duplicate_name : Graph → Row → List Str
  duplicate_name g (entity_row id kind name attributes) = found (any (twin id kind name) g) id
  duplicate_name g r = []

-- All that a check finds in a graph.
unfoldable pub findings : (Graph → Row → List Str) → Graph → List Str
findings check g = concat_map (check g) g
