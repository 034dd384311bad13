-- ===== src/Validate/Relationships/Round.antt =====
-- What one round of the loop of `map_relationships` does.
use fact_checker.Base.{
  ℕ, suc, ◌+◌, ◌≤◌, List, [], ◌∷◌, ◌++◌, ◌≡◌, refl, ◌∙◌, true, false, not, ◌||◌, Str, codes, ◌==◌,
  ==_sound, has, lookup, is_key, arith, Bool-cases, ||-false, not-false, inl, inr, if◌then◌else◌,
  ◌⊎◌,
}
use fact_checker.Wire.Types.{WireRelationship}
use fact_checker.Validate.Types.{
  Drop, EntityRecord, ClaimRecord, RelationshipRecord, ValidationContext, add_drop, resolve_entity,
}
use fact_checker.Validate.Drops.{count_kind, count_kind-add_drop}
use fact_checker.Validate.Relationships.{
  RelationshipLoop, canonical, edge_key, dangling_claim, justify, keep_relationship,
  relationship_round,
}

abbrev pub relationship_kind : Str
relationship_kind = codes "relationship"

abbrev pub relationship_drops : List Drop → ℕ
relationship_drops ds = count_kind relationship_kind ds

abbrev pub key_of : RelationshipRecord → Str
key_of r = edge_key r.from_entity_id r.to_entity_id r.rel_type

-- What holds of every relationship that is kept.
pub record IsLoadable (payload : List (Str × EntityRecord)) (claims : List (Str × ClaimRecord))
    (ctx : ValidationContext) (r : RelationshipRecord) : Type 0 where
  pub allowed : has ctx.unit.rel_types r.rel_type ≡ true
  pub source : resolve_entity r.from_entity_id payload ctx ≡ true
  pub target : resolve_entity r.to_entity_id payload ctx ≡ true
  pub no_loop : (r.from_entity_id == r.to_entity_id) ≡ false
  pub justified :
      (r.claim_id ≡ []) ⊎ ((is_key r.claim_id claims || has ctx.db_claim_ids r.claim_id) ≡ true)

abbrev pub with_drops : RelationshipLoop → List Drop → RelationshipLoop
with_drops st ds = record st { result = record (st.result) { drops = ds } }

pub data Outcome (payload : List (Str × EntityRecord)) (claims : List (Str × ClaimRecord))
    (ctx : ValidationContext) (st : RelationshipLoop) (after : RelationshipLoop) : Type 0 where
  rejected :
      (ds : List Drop)
      → after ≡ with_drops st ds
      → suc (relationship_drops st.result.drops) ≤ relationship_drops ds
      → Outcome payload claims ctx st after
  accepted :
      (ds : List Drop) (r : RelationshipRecord)
      → after ≡ record {
        seen = st.seen ++ key_of r ∷ [];
        result = record (st.result) {
          relationships = st.result.relationships ++ r ∷ [];
          drops = ds;
        };
      }
      → relationship_drops st.result.drops ≤ relationship_drops ds
      → has st.seen (key_of r) ≡ false
      → IsLoadable payload claims ctx r
      → Outcome payload claims ctx st after

module _ (payload : List (Str × EntityRecord)) (claims : List (Str × ClaimRecord))
    (ctx : ValidationContext) where
  -- A justifying claim that is kept is known; the log may have one more entry.
  justify_lem :
      (ref : Str) (ds : List Drop) (rel : WireRelationship)
      → let (claim_id, ds') = justify payload claims ctx ref ds rel in
        ((claim_id ≡ []) ⊎ ((is_key claim_id claims || has ctx.db_claim_ids claim_id) ≡ true))
        × (relationship_drops ds'
            ≡ relationship_drops ds + (if dangling_claim payload claims ctx rel then 1 else 0))
  unfolding justify
  justify_lem ref ds rel = elim (Bool-cases (dangling_claim payload claims ctx rel)) [
    | inl e ↦ rw e (
      inl refl,
      count_kind-add_drop relationship_kind ds relationship_kind ref
            (codes "dangling claim_id '" ++ rel.claim_id ++ codes "'; kept without justification")
          ∙ unfold ◌==◌ in omega arith,
    )
    | inr e ↦ rw e (kept e, omega arith)
  ]
    where
      kept :
          dangling_claim payload claims ctx rel ≡ false
          → (rel.claim_id ≡ [])
            ⊎ ((is_key rel.claim_id claims || has ctx.db_claim_ids rel.claim_id) ≡ true)
      kept e = ground (arith, ==_sound rel.claim_id [])

  logged :
      (ds : List Drop) (ref reason : Str)
      → relationship_drops (add_drop ds relationship_kind ref reason) ≡ suc (relationship_drops ds)
  logged ds ref reason =
      count_kind-add_drop relationship_kind ds relationship_kind ref reason ∙ unfold ◌==◌ in refl

  keep_relationship-Outcome :
      (ref rel_type : Str) (st : RelationshipLoop) (rel : WireRelationship)
      → has ctx.unit.rel_types rel_type ≡ true
      → resolve_entity rel.from_entity_id payload ctx ≡ true
      → resolve_entity rel.to_entity_id payload ctx ≡ true
      → (rel.from_entity_id == rel.to_entity_id) ≡ false
      → Outcome payload claims ctx st (keep_relationship payload claims ctx ref rel_type st rel)
  unfolding keep_relationship
  keep_relationship-Outcome ref rel_type st rel allowed source target no_loop =
      let (claim_id, ds) = justify payload claims ctx ref st.result.drops rel in
      let (justified, count) = justify_lem ref st.result.drops rel in
      elim (Bool-cases (has st.seen (edge_key rel.from_entity_id rel.to_entity_id rel_type))) [
        | inl dup ↦
            rw dup (
              rejected _ refl
                (omega (arith, count, logged ds ref (codes "duplicate relationship"))))
        | inr new ↦ rw new (
            accepted ds _ refl (omega (arith, count)) new (record {
              allowed = allowed;
              source = source;
              target = target;
              no_loop = no_loop;
              justified = justified;
            }))
      ]

  -- Each round rejects its relationship with an entry of the log, or keeps it.
  pub relationship_round-Outcome :
      (st : RelationshipLoop) (rel : WireRelationship)
      → Outcome payload claims ctx st (relationship_round payload claims ctx st rel)
  unfolding relationship_round
  relationship_round-Outcome st rel =
      let rel_type = canonical (lookup rel.rel_type ctx.unit.rel_aliases) rel.rel_type in
      elim (Bool-cases (has ctx.unit.rel_types rel_type)) [
        | inr bad ↦ rw bad (rejected_as _)
        | inl allowed ↦
            elim (Bool-cases (
              not (resolve_entity rel.from_entity_id payload ctx)
              || not (resolve_entity rel.to_entity_id payload ctx))) [
                | inl dangling ↦ rw (allowed, dangling) (rejected_as _)
                | inr found ↦
                    let (source, target) = ||-false _ _ found in
                    elim (Bool-cases (rel.from_entity_id == rel.to_entity_id)) [
                      | inl loop ↦ rw (allowed, found, loop) (rejected_as _)
                      | inr no_loop ↦
                          rw (allowed, found, no_loop)
                            (keep_relationship-Outcome _ rel_type st rel allowed
                              (not-false _ source) (not-false _ target) no_loop)
                    ]
              ]
      ]
    where
      rejected_as :
          (reason : Str)
          → Outcome payload claims ctx st (
              with_drops st (
                add_drop st.result.drops relationship_kind
                  (rel.from_entity_id ++ codes "-" ++ rel.rel_type ++ codes "-" ++ rel.to_entity_id)
                  reason))
      rejected_as reason = rejected _ refl (
          omega (
            arith,
            logged st.result.drops
                (rel.from_entity_id ++ codes "-" ++ rel.rel_type ++ codes "-" ++ rel.to_entity_id)
                reason,
          ))
