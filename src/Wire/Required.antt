-- ===== src/Wire/Required.antt =====
-- `requiredProblem` of each record type, and `citationsProblem`, of extract/wire.go. The empty
-- string is "no problem", as in the source.
pub mod Laws
use fact_checker.Base.{List, [], ◌∷◌, ◌++◌, Str, not, codes, ◌==◌, if◌then◌else◌}
use fact_checker.Wire.Types.{
  WireCitation, WireEntity, WireEvent, WireVersion, WireClaim, WireRelationship, valid_confidence,
}

-- A field's name before " is required".
abbrev pub is_required : Str → Str
is_required name = name ++ codes " is required"

unfoldable pub entity_problem : WireEntity → Str
entity_problem e =
    if e.id == []
    then is_required (codes "id")
    else if e.kind == []
    then is_required (codes "kind")
    else if e.canonical_name == []
    then is_required (codes "canonical_name")
    else []

unfoldable pub citations_problem : Str → List WireCitation → Str
citations_problem field [] = []
citations_problem field (c ∷ citations) =
    if c.source_id == []
    then field ++ is_required (codes "[].source_id")
    else citations_problem field citations

unfoldable pub event_problem : WireEvent → Str
event_problem e =
    if e.id == []
    then is_required (codes "id")
    else if e.summary == []
    then is_required (codes "summary")
    else citations_problem (codes "sources") e.sources

unfoldable pub version_problem : WireVersion → Str
version_problem v =
    if v.label == []
    then is_required (codes "label")
    else if v.statement == []
    then is_required (codes "statement")
    else citations_problem (codes "sources") v.sources

-- The loop over the versions: the first problem, with its prefix.
unfoldable pub versions_problem : List WireVersion → Str
versions_problem [] = []
versions_problem (v ∷ versions) =
    let p = version_problem v in
    if p == [] then versions_problem versions else codes "versions[]: " ++ p

-- `quote` stands for the verb %q of fmt.
module _ (quote : Str → Str) where
  unfoldable pub claim_problem : WireClaim → Str
  claim_problem c =
      let problem = citations_problem (codes "sources") c.sources in
      if c.id == []
      then is_required (codes "id")
      else if c.statement == []
      then is_required (codes "statement")
      else if not (valid_confidence c.confidence)
      then codes "invalid confidence " ++ quote c.confidence
      else if not (problem == [])
      then problem
      else versions_problem c.versions

unfoldable pub relationship_problem : WireRelationship → Str
relationship_problem r =
    if r.from_entity_id == []
    then is_required (codes "from_entity_id")
    else if r.to_entity_id == []
    then is_required (codes "to_entity_id")
    else if r.rel_type == []
    then is_required (codes "rel_type")
    else []
