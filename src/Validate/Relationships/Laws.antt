-- ===== src/Validate/Relationships/Laws.antt =====
-- What holds of the relationships and the log after `map_relationships`.
use fact_checker.Base.{
  suc, ◌+◌, ◌≤◌, List, [], ◌∷◌, ◌++◌, map, ◌≡◌, refl, ap, Str, Distinct, Distinct-snoc, map-snoc,
  length, length-snoc, All, All-snoc, arith,
}
use fact_checker.Wire.Types.{WireRelationship, WireExtraction}
use fact_checker.Validate.Types.{
  EntityRecord, ClaimRecord, RelationshipRecord, Validated, ValidationContext,
}
use fact_checker.Validate.Relationships.{
  RelationshipLoop, relationship_round, relationship_loop, map_relationships,
}
use fact_checker.Validate.Relationships.Round.{
  IsLoadable, rejected, accepted, key_of, relationship_drops, relationship_round-Outcome,
}

abbrev pub edge_keys : List RelationshipRecord → List Str
edge_keys rs = map key_of rs

-- The loop's invariant, over the result with which it began, which had no relationship.
pub record RelationshipsInv (payload : List (Str × EntityRecord))
    (claims : List (Str × ClaimRecord)) (ctx : ValidationContext) (before after : Validated)
    : Type 0 where
  pub loadable : All (IsLoadable payload claims ctx) after.relationships
  pub distinct : Distinct (edge_keys after.relationships)
  pub same : after ≡ record before { relationships = after.relationships; drops = after.drops }

module _ (payload : List (Str × EntityRecord)) (claims : List (Str × ClaimRecord))
    (ctx : ValidationContext) where
  abbrev round : RelationshipLoop → WireRelationship → RelationshipLoop
  round st rel = relationship_round payload claims ctx st rel

  abbrev loop : RelationshipLoop → List WireRelationship → RelationshipLoop
  loop st rels = relationship_loop payload claims ctx st rels

  record LoopInv (before : Validated) (st : RelationshipLoop) : Type 0 where
    inv : RelationshipsInv payload claims ctx before st.result
    seen : st.seen ≡ edge_keys st.result.relationships

  round-Inv :
      (before : Validated) (st : RelationshipLoop) (rel : WireRelationship)
      → LoopInv before st
      → LoopInv before (round st rel)
  round-Inv before st rel h = elim (relationship_round-Outcome payload claims ctx st rel) [
    | rejected ds e n ↦ rw e (record {
      inv = record {
        loadable = h.inv.loadable;
        distinct = h.inv.distinct;
        same = ap (λ (r : Validated). record r { drops = ds }) h.inv.same;
      };
      seen = h.seen;
    })
    | accepted ds r e n new good ↦ rw e (record {
      inv = record {
        loadable =
            All-snoc (IsLoadable payload claims ctx) st.result.relationships r h.inv.loadable good;
        distinct = rw (map-snoc key_of st.result.relationships r) (
            Distinct-snoc (edge_keys st.result.relationships) (key_of r) h.inv.distinct
              (rw h.seen at new));
        same =
            ap
              (λ (v : Validated). record v {
                relationships = st.result.relationships ++ r ∷ [];
                drops = ds;
              })
              h.inv.same;
      };
      seen = rw (map-snoc key_of st.result.relationships r) (ap (λ l. l ++ key_of r ∷ []) h.seen);
    })
  ]

  loop-Inv :
      (before : Validated) (st : RelationshipLoop) (rels : List WireRelationship)
      → LoopInv before st
      → LoopInv before (loop st rels)
  unfolding relationship_loop
  loop-Inv before st [] h = h
  loop-Inv before st (r ∷ rs) h = loop-Inv before (round st r) rs (round-Inv before st r h)

  round_count :
      (st : RelationshipLoop) (rel : WireRelationship)
      → suc (length st.result.relationships + relationship_drops st.result.drops)
        ≤ length (round st rel).result.relationships
          + relationship_drops (round st rel).result.drops
  round_count st rel = elim (relationship_round-Outcome payload claims ctx st rel) [
    | rejected ds e n ↦ rw e (omega (arith, n))
    | accepted ds r e n new good ↦ rw e (omega (arith, n, length-snoc st.result.relationships r))
  ]

  loop_count :
      (st : RelationshipLoop) (rels : List WireRelationship)
      → length rels + (length st.result.relationships + relationship_drops st.result.drops)
        ≤ length (loop st rels).result.relationships
          + relationship_drops (loop st rels).result.drops
  unfolding relationship_loop
  loop_count st [] = omega arith
  loop_count st (r ∷ rs) = omega (arith, loop_count (round st r) rs, round_count st r)

module _ (wire : WireExtraction) (payload : List (Str × EntityRecord))
    (claims : List (Str × ClaimRecord)) (ctx : ValidationContext) (result : Validated) where
  -- From a result with no relationship, the invariant holds after `mapRelationships`.
  pub map_relationships-Inv :
      result.relationships ≡ []
      → RelationshipsInv payload claims ctx result
          (map_relationships wire payload claims ctx result)
  unfolding map_relationships
  map_relationships-Inv none_yet =
      (loop-Inv payload claims ctx result (record { seen = []; result = result }) wire.relationships
        (record {
          inv = record { loadable = rw none_yet tt; distinct = rw none_yet tt; same = refl };
          seen = rw none_yet;
        })).inv

  -- No relationship is lost: each one of the payload is kept, or has an entry of the kind
  -- "relationship" in the log.
  pub map_relationships-no_loss :
      let after = map_relationships wire payload claims ctx result in
      length wire.relationships + (length result.relationships + relationship_drops result.drops)
      ≤ length after.relationships + relationship_drops after.drops
  unfolding map_relationships
  map_relationships-no_loss =
      loop_count payload claims ctx (record { seen = []; result = result }) wire.relationships
