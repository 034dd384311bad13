-- ===== src/Validate/Relationships.antt =====
-- `mapRelationships` and `containsString` of extract/validate.go.
pub mod Round
pub mod Laws
use fact_checker.Base.{
  List, [], ◌∷◌, ◌++◌, Bool, Str, codes, not, ◌&&◌, ◌||◌, ◌==◌, Option, none, some, has, lookup,
  is_key, if◌then◌else◌,
}
use fact_checker.Wire.Types.{WireRelationship, WireExtraction}
use fact_checker.Validate.Types.{
  Drop, add_drop, EntityRecord, ClaimRecord, Validated, ValidationContext, log_drop, resolve_entity,
}

-- The variables of the loop.
pub record RelationshipLoop : Type 0 where
  pub seen : List Str
  pub result : Validated

-- containsString
abbrev pub contains_string : List Str → Str → Bool
contains_string = has

abbrev canonical : Option Str → Str → Str
canonical none rel_type = rel_type
canonical (some rel_type') rel_type = rel_type'

-- The key under which an edge counts as seen: its parts with a NUL byte between.
pub edge_key : Str → Str → Str → Str
edge_key source target rel_type = source ++ (0 ∷ (target ++ (0 ∷ rel_type)))

module _ (payload : List (Str × EntityRecord)) (claims : List (Str × ClaimRecord))
    (ctx : ValidationContext) where
  abbrev dangling_claim : WireRelationship → Bool
  dangling_claim rel =
      not (rel.claim_id == [])
      && not (is_key rel.claim_id claims)
      && not (has ctx.db_claim_ids rel.claim_id)

  -- A dangling justifying claim is logged and left out.
  justify : Str → List Drop → WireRelationship → Str × List Drop
  justify ref drops rel =
      if dangling_claim rel
      then (
        [],
        add_drop drops (codes "relationship") ref
            (codes "dangling claim_id '" ++ rel.claim_id ++ codes "'; kept without justification"),
      )
      else (rel.claim_id, drops)

  -- From the justifying claim on, for a reference, a canonical type and a relationship that passed
  -- the checks before.
  keep_relationship : Str → Str → RelationshipLoop → WireRelationship → RelationshipLoop
  unfolding justify edge_key
  keep_relationship ref rel_type st rel =
      let (claim_id, drops) = justify ref st.result.drops rel in
      let key = edge_key rel.from_entity_id rel.to_entity_id rel_type in
      if has st.seen key
      then record st {
        result = record (st.result) {
          drops = add_drop drops (codes "relationship") ref (codes "duplicate relationship");
        };
      }
      else record {
        seen = st.seen ++ key ∷ [];
        result = record (st.result) {
          relationships =
              st.result.relationships
              ++ (record {
                from_entity_id = rel.from_entity_id;
                to_entity_id = rel.to_entity_id;
                rel_type = rel_type;
                claim_id = claim_id;
              })
                ∷ [];
          drops = drops;
        };
      }

  unfoldable pub relationship_round : RelationshipLoop → WireRelationship → RelationshipLoop
  unfolding keep_relationship
  relationship_round st rel =
      let ref = rel.from_entity_id ++ codes "-" ++ rel.rel_type ++ codes "-" ++ rel.to_entity_id in
      let rel_type = canonical (lookup rel.rel_type ctx.unit.rel_aliases) rel.rel_type in
      if not (contains_string ctx.unit.rel_types rel_type)
      then record st {
        result =
            log_drop st.result (codes "relationship") ref
              (codes "unknown rel_type '" ++ rel.rel_type ++ codes "'");
      }
      else if not (resolve_entity rel.from_entity_id payload ctx)
          || not (resolve_entity rel.to_entity_id payload ctx)
      then record st {
        result = log_drop st.result (codes "relationship") ref (codes "dangling endpoint");
      }
      else if rel.from_entity_id == rel.to_entity_id
      then record st {
        result = log_drop st.result (codes "relationship") ref (codes "self-relationship");
      }
      else keep_relationship ref rel_type st rel

  relationship_loop : RelationshipLoop → List WireRelationship → RelationshipLoop
  relationship_loop st [] = st
  relationship_loop st (rel ∷ rels) = relationship_loop (relationship_round st rel) rels

unfoldable pub map_relationships :
    WireExtraction
    → List (Str × EntityRecord)
    → List (Str × ClaimRecord)
    → ValidationContext
    → Validated
    → Validated
unfolding relationship_loop
map_relationships wire payload claims ctx result =
    (relationship_loop payload claims ctx (record { seen = []; result = result })
      wire.relationships).result
