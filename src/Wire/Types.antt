-- ===== src/Wire/Types.antt =====
-- The record types of extract/wire.go, in the order of their fields.
use fact_checker.Base.{List, Str, Bool, codes, ◌==◌, ◌||◌}
use fact_checker.Extract.{AnyMap}

abbrev pub established : Str
established = codes "established"

abbrev pub derived_probable : Str
derived_probable = codes "derived_probable"

abbrev pub contested : Str
contested = codes "contested"

abbrev pub abandoned_version : Str
abandoned_version = codes "abandoned_version"

-- ValidConfidence: one of the four fixed levels.
unfoldable pub valid_confidence : Str → Bool
valid_confidence s =
    s == established || s == derived_probable || s == contested || s == abandoned_version

pub record WireCitation : Type 0 where
  pub source_id : Str
  pub locator : AnyMap
  pub note : Str

pub record WireName : Type 0 where
  pub name : Str
  pub name_kind : Str
  pub language : Str

pub record WireEntity : Type 0 where
  pub id : Str
  pub kind : Str
  pub canonical_name : Str
  pub names : List WireName
  pub attributes : AnyMap

pub record WireEvent : Type 0 where
  pub id : Str
  pub kind : Str
  pub summary : Str
  pub description : Str
  pub dating : AnyMap
  pub location_entity_id : Str
  pub participants : List (Str × Str)
  pub causes : List Str
  pub consequences : List Str
  pub sources : List WireCitation

pub record WireVersion : Type 0 where
  pub label : Str
  pub statement : Str
  pub sources : List WireCitation

pub record WireClaim : Type 0 where
  pub id : Str
  pub statement : Str
  pub confidence : Str
  pub subject_entity_id : Str
  pub predicate : Str
  pub object_entity_id : Str
  pub object_value : Str
  pub versions : List WireVersion
  pub sources : List WireCitation

pub record WireRelationship : Type 0 where
  pub from_entity_id : Str
  pub to_entity_id : Str
  pub rel_type : Str
  pub claim_id : Str

pub record WireExtraction : Type 0 where
  pub entities : List WireEntity
  pub events : List WireEvent
  pub claims : List WireClaim
  pub relationships : List WireRelationship
