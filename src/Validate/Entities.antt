-- ===== src/Validate/Entities.antt =====
-- `mapEntities` of extract/validate.go.
pub mod Names
pub mod Laws
use fact_checker.Base.{
  List, [], ◌∷◌, ◌++◌, Str, codes, not, ◌||◌, ◌==◌, has, insert, is_key, if◌then◌else◌,
}
use fact_checker.Wire.Types.{WireName, WireEntity, WireExtraction}
use fact_checker.Validate.Types.{
  EntityName, EntityRecord, Validated, is_slug, is_name_kind, log_drop,
}

-- The variables of the loop over the names of one entity.
pub record NameLoop : Type 0 where
  pub names : List EntityName
  pub seen : List Str
  pub result : Validated

name_round : WireEntity → NameLoop → WireName → NameLoop
name_round entity st name =
    if name.name == [] || has st.seen name.name || name.name == entity.canonical_name
    then st
    else let known = is_name_kind name.name_kind in
      let kind = if known then name.name_kind else codes "other" in
      record {
        names =
            st.names
            ++ (record { name = name.name; name_kind = kind; language = name.language }) ∷ [];
        seen = st.seen ++ name.name ∷ [];
        result =
            if known
            then st.result
            else log_drop st.result (codes "name_kind") (entity.id ++ codes "/" ++ name.name)
                (codes "'" ++ name.name_kind ++ codes "' -> other");
      }

pub name_loop : WireEntity → NameLoop → List WireName → NameLoop
unfolding name_round
name_loop entity st [] = st
name_loop entity st (name ∷ names) = name_loop entity (name_round entity st name) names

-- The variables of the loop over the entities.
pub record EntityLoop : Type 0 where
  pub by_id : List (Str × EntityRecord)
  pub result : Validated

-- `byID[record.ID] = record`, and the record is appended to the result.
unfoldable pub keep_entity : EntityLoop → WireEntity → EntityLoop
unfolding name_loop
keep_entity st entity =
    let named =
      name_loop entity (record { names = []; seen = []; result = st.result }) entity.names in
    let kept : EntityRecord = record {
      id = entity.id;
      kind = entity.kind;
      canonical_name = entity.canonical_name;
      names = named.names;
      attributes = entity.attributes;
    } in
    record {
      by_id = insert kept.id kept st.by_id;
      result = record (named.result) { entities = named.result.entities ++ kept ∷ [] };
    }

unfoldable pub entity_round : EntityLoop → WireEntity → EntityLoop
entity_round st entity =
    if not (is_slug entity.id)
    then record st {
      result =
          log_drop st.result (codes "entity") entity.id (codes "invalid id (use lowercase slugs)");
    }
    else if is_key entity.id st.by_id
    then record st {
      result = log_drop st.result (codes "entity") entity.id (codes "duplicate entity id");
    }
    else keep_entity st entity

entity_loop : EntityLoop → List WireEntity → EntityLoop
entity_loop st [] = st
entity_loop st (entity ∷ entities) = entity_loop (entity_round st entity) entities

unfoldable pub map_entities : WireExtraction → Validated → EntityLoop
unfolding entity_loop
map_entities wire result = entity_loop (record { by_id = []; result = result }) wire.entities
