-- ===== src/Tests/Samples.antt =====
-- A unit with the both-tier policy, a model response, and the graph that it meets.
use fact_checker.Base.{List, [], ◌∷◌, false, Str, codes}
use fact_checker.Extract.{AnyMap, text, WorkUnit, both_tier}
use fact_checker.Wire.Types.{
  WireCitation, WireEntity, WireEvent, WireVersion, WireClaim, WireRelationship, WireExtraction,
}
use fact_checker.Validate.Types.{ValidationContext}

abbrev url_locator : AnyMap
url_locator = (codes "url", text (codes "u")) ∷ []

abbrev chapter_locator : AnyMap
chapter_locator = (codes "ch", text (codes "1")) ∷ []

abbrev pub galadriel : WorkUnit
galadriel = record {
  unit_key = codes "tg:galadriel";
  document_id = 1;
  title = codes "Galadriel";
  body = codes "text";
  truncated = false;
  reference = record { source_id = codes "tg"; locator = url_locator; note = [] };
  candidates =
      (record {
        source_id = codes "silm";
        tier = 1;
        citation_form = [];
        locator = chapter_locator;
        title = codes "Chapter 1";
        period = [];
        summary = [];
        default_pick = false;
      })
      ∷ [];
  policy = both_tier;
  scope_notes = [];
  known_entity_ids = [];
  rel_types = codes "spouse" ∷ [];
  rel_aliases = (codes "wed", codes "spouse") ∷ [];
}

abbrev pub cite_reference : WireCitation
cite_reference = record { source_id = codes "tg"; locator = url_locator; note = [] }

abbrev pub cite_primary : WireCitation
cite_primary = record { source_id = codes "silm"; locator = chapter_locator; note = [] }

abbrev pub cite_bare : WireCitation
cite_bare = record { source_id = codes "silm"; locator = []; note = [] }

abbrev pub both : List WireCitation
both = cite_reference ∷ cite_primary ∷ []

abbrev entity : Str → WireEntity
entity id = record {
  id = id;
  kind = codes "elf";
  canonical_name = codes "N";
  names = (record { name = codes "Nerwen"; name_kind = codes "nick"; language = [] }) ∷ [];
  attributes = [];
}

abbrev event : Str → List Str → List WireCitation → WireEvent
event id causes sources = record {
  id = id;
  kind = [];
  summary = codes "s";
  description = [];
  dating = [];
  location_entity_id = codes "x";
  participants = (codes "g", codes "r") ∷ (codes "a", codes "r") ∷ [];
  causes = causes;
  consequences = [];
  sources = sources;
}

abbrev claim : Str → Str → List WireVersion → List WireCitation → WireClaim
claim id confidence versions sources = record {
  id = id;
  statement = codes "s";
  confidence = confidence;
  subject_entity_id = codes "g";
  predicate = [];
  object_entity_id = codes "c";
  object_value = codes "v";
  versions = versions;
  sources = sources;
}

abbrev version : List WireCitation → WireVersion
version sources = record { label = codes "l"; statement = codes "s"; sources = sources }

abbrev relationship : Str → WireRelationship
relationship claim_id = record {
  from_entity_id = codes "g";
  to_entity_id = codes "c";
  rel_type = codes "wed";
  claim_id = claim_id;
}

abbrev pub response : WireExtraction
response = record {
  entities = entity (codes "g") ∷ entity (codes "g") ∷ entity (codes "Bad Id") ∷ [];
  events =
      event (codes "e1") (codes "e2" ∷ codes "e9" ∷ []) both
      ∷ event (codes "e2") [] both
      ∷ event (codes "e3") [] []
      ∷ [];
  claims =
      claim (codes "c1") (codes "contested") (version both ∷ version [] ∷ []) both
      ∷ claim (codes "c2") (codes "contested") (version [] ∷ []) both
      ∷ claim (codes "c3") (codes "established") [] (cite_reference ∷ cite_bare ∷ [])
      ∷ claim (codes "old") (codes "established") [] both
      ∷ [];
  relationships = relationship (codes "c1") ∷ relationship (codes "c1") ∷ [];
}

-- The graph has the entity "c" and the claim "old".
abbrev pub context : ValidationContext
context = record {
  unit = galadriel;
  db_entity_ids = codes "c" ∷ [];
  db_event_ids = [];
  db_claim_ids = codes "old" ∷ [];
}
