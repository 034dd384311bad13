-- ===== src/Validate/Types.antt =====
-- The records of extract/validate.go, `ValidationContext`, and `resolveEntity`.
use fact_checker.Base.{
  ℕ, leb, eqb, List, [], ◌∷◌, ◌++◌, Str, codes, Bool, true, false, ◌&&◌, ◌||◌, ◌==◌, has, is_key,
  length, if◌then◌else◌,
}
use fact_checker.Extract.{AnyMap, Citation, WorkUnit}

-- `^[a-z0-9][a-z0-9_-]*$`, on bytes
abbrev pub slug_head : ℕ → Bool
slug_head c = (leb b'a' c && leb c b'z') || (leb b'0' c && leb c b'9')

abbrev pub slug_tail : Str → Bool
slug_tail [] = true
slug_tail (c ∷ s) = (slug_head c || eqb c b'_' || eqb c b'-') && slug_tail s

unfoldable pub is_slug : Str → Bool
is_slug [] = false
is_slug (c ∷ s) = slug_head c && slug_tail s

-- contradictionConfidences
unfoldable pub needs_versions : Str → Bool
needs_versions confidence =
    confidence == codes "contested" || confidence == codes "abandoned_version"

-- nameKinds
unfoldable pub is_name_kind : Str → Bool
is_name_kind kind =
    kind == codes "variant"
    || kind == codes "alias"
    || kind == codes "translation"
    || kind == codes "other"

pub record Drop : Type 0 where
  pub kind : Str
  pub ref : Str
  pub reason : Str

pub record ContradictionEntry : Type 0 where
  pub id : Str
  pub title : Str
  pub description : Str
  pub claim_id : Str

pub record EntityName : Type 0 where
  pub name : Str
  pub name_kind : Str
  pub language : Str

pub record EntityRecord : Type 0 where
  pub id : Str
  pub kind : Str
  pub canonical_name : Str
  pub names : List EntityName
  pub attributes : AnyMap

pub record Participant : Type 0 where
  pub entity_id : Str
  pub role : Str

pub record EventRecord : Type 0 where
  pub id : Str
  pub kind : Str
  pub summary : Str
  pub description : Str
  pub dating : AnyMap
  pub location_entity_id : Str
  pub participants : List Participant
  pub causes : List Str
  pub consequences : List Str
  pub sources : List Citation

pub record ClaimVersionRecord : Type 0 where
  pub label : Str
  pub statement : Str
  pub sources : List Citation

pub record ClaimRecord : Type 0 where
  pub id : Str
  pub statement : Str
  pub confidence : Str
  pub subject_entity_id : Str
  pub predicate : Str
  pub object_entity_id : Str
  pub object_value : Str
  pub versions : List ClaimVersionRecord
  pub sources : List Citation

pub record RelationshipRecord : Type 0 where
  pub from_entity_id : Str
  pub to_entity_id : Str
  pub rel_type : Str
  pub claim_id : Str

pub record Validated : Type 0 where
  pub entities : List EntityRecord
  pub events : List EventRecord
  pub claims : List ClaimRecord
  pub relationships : List RelationshipRecord
  pub contradictions : List ContradictionEntry
  pub drops : List Drop

abbrev pub empty_validated : Validated
empty_validated = record {
  entities = [];
  events = [];
  claims = [];
  relationships = [];
  contradictions = [];
  drops = [];
}

unfoldable pub record_counts : Validated → List (Str × ℕ)
record_counts v =
    (codes "entities", length v.entities)
    ∷ (codes "events", length v.events)
    ∷ (codes "claims", length v.claims)
    ∷ (codes "relationships", length v.relationships)
    ∷ (codes "contradictions", length v.contradictions)
    ∷ []

pub record ValidationContext : Type 0 where
  pub unit : WorkUnit
  pub db_entity_ids : List Str
  pub db_event_ids : List Str
  pub db_claim_ids : List Str

-- `append(drops, Drop{kind, ref, reason})`
abbrev pub add_drop : List Drop → Str → Str → Str → List Drop
add_drop drops kind ref reason = drops ++ (record { kind = kind; ref = ref; reason = reason }) ∷ []

abbrev pub log_drop : Validated → Str → Str → Str → Validated
log_drop result kind ref reason = record result { drops = add_drop result.drops kind ref reason }

-- resolveEntity: the empty id resolves.
unfoldable pub resolve_entity : Str → List (Str × EntityRecord) → ValidationContext → Bool
resolve_entity id payload ctx =
    if id == [] then true else if is_key id payload then true else has ctx.db_entity_ids id
