-- ===== src/Validate/Entities/Laws.antt =====
-- What holds of the entities and the log after `map_entities`.
use fact_checker.Base.{
  suc, ◌+◌, List, [], ◌∷◌, ◌++◌, map, ◌≡◌, refl, sym, ◌∙◌, ap, true, false, Str, ◌==◌, has, insert,
  is_key, is_key-snoc, Distinct, Distinct-snoc, map-snoc, length, length-snoc, All, All-snoc, arith,
  Bool-cases, inl, inr,
}
use fact_checker.Wire.Types.{WireEntity, WireExtraction}
use fact_checker.Validate.Types.{Drop, EntityRecord, Validated, is_slug, add_drop}
use fact_checker.Validate.Drops.{count_kind-add_drop}
use fact_checker.Validate.Entities.{
  EntityLoop, keep_entity, entity_round, entity_loop, map_entities, name_loop,
}
use fact_checker.Validate.Entities.Names.{
  IsName, entity_kind, entity_drops, name_texts, name_loop-Inv,
}

-- The id is a slug; the names are distinct, and each obeys the rules.
pub record IsEntity (e : EntityRecord) : Type 0 where
  pub slug : is_slug e.id ≡ true
  pub named : All (IsName e.canonical_name) e.names
  pub distinct : Distinct (name_texts e.names)

abbrev pub entity_ids : List EntityRecord → List Str
entity_ids es = map (λ (e : EntityRecord). e.id) es

-- The loop's invariant, over the result with which it began, which had no entity.
pub record EntitiesInv (before : Validated) (st : EntityLoop) : Type 0 where
  pub entities : All IsEntity st.result.entities
  pub distinct : Distinct (entity_ids st.result.entities)
  pub keyed : (k : Str) → is_key k st.by_id ≡ has (entity_ids st.result.entities) k
  pub same : st.result ≡ record before { entities = st.result.entities; drops = st.result.drops }

data Outcome (st : EntityLoop) (entity : WireEntity) (after : EntityLoop) : Type 0 where
  rejected :
      (ds : List Drop)
      → after ≡ record st { result = record (st.result) { drops = ds } }
      → entity_drops ds ≡ suc (entity_drops st.result.drops)
      → Outcome st entity after
  accepted :
      (ds : List Drop) (e : EntityRecord)
      → after ≡ record {
        by_id = insert e.id e st.by_id;
        result = record (st.result) { entities = st.result.entities ++ e ∷ []; drops = ds };
      }
      → entity_drops ds ≡ entity_drops st.result.drops
      → is_key e.id st.by_id ≡ false
      → IsEntity e
      → Outcome st entity after

keep_entity-Outcome :
    (st : EntityLoop) (entity : WireEntity)
    → is_slug entity.id ≡ true
    → is_key entity.id st.by_id ≡ false
    → Outcome st entity (keep_entity st entity)
unfolding keep_entity
keep_entity-Outcome st entity slug new =
    let named =
      name_loop-Inv entity st.result (record { names = []; seen = []; result = st.result })
        entity.names
        (record {
          names = tt;
          distinct = tt;
          seen = refl;
          drops = st.result.drops;
          same = refl;
          counted = refl;
        }) in
    rw (named.same) (
      accepted named.drops
        (record {
          id = entity.id;
          kind = entity.kind;
          canonical_name = entity.canonical_name;
          names =
              (name_loop entity (record { names = []; seen = []; result = st.result })
                entity.names).names;
          attributes = entity.attributes;
        })
        refl named.counted new
        (record { slug = slug; named = named.names; distinct = named.distinct }))

entity_round-Outcome :
    (st : EntityLoop) (entity : WireEntity) → Outcome st entity (entity_round st entity)
unfolding entity_round
entity_round-Outcome st entity = elim (Bool-cases (is_slug entity.id)) [
  | inr bad ↦ rw bad (rejected_as _)
  | inl slug ↦ elim (Bool-cases (is_key entity.id st.by_id)) [
    | inl dup ↦ rw (slug, dup) (rejected_as _)
    | inr new ↦ rw (slug, new) (keep_entity-Outcome st entity slug new)
  ]
]
  where
    rejected_as :
        (reason : Str)
        → Outcome st entity (record st {
          result = record (st.result) {
            drops = add_drop st.result.drops entity_kind entity.id reason;
          };
        })
    rejected_as reason = rejected (add_drop st.result.drops entity_kind entity.id reason) refl (
        count_kind-add_drop entity_kind st.result.drops entity_kind entity.id reason
        ∙ unfold ◌==◌ in refl)

module _ (before : Validated) where
  round-Inv :
      (st : EntityLoop) (entity : WireEntity)
      → EntitiesInv before st
      → EntitiesInv before (entity_round st entity)
  round-Inv st entity h = elim (entity_round-Outcome st entity) [
    | rejected ds e n ↦ rw e (record {
      entities = h.entities;
      distinct = h.distinct;
      keyed = h.keyed;
      same = ap (λ (r : Validated). record r { drops = ds }) h.same;
    })
    | accepted ds c e n new good ↦ rw e (record {
      entities = All-snoc IsEntity st.result.entities c h.entities good;
      distinct = rw (map-snoc (λ (d : EntityRecord). d.id) st.result.entities c) (
          Distinct-snoc (entity_ids st.result.entities) c.id h.distinct (sym (h.keyed c.id) ∙ new));
      keyed =
          rw (map-snoc (λ (d : EntityRecord). d.id) st.result.entities c)
            (is_key-snoc c.id c st.by_id (entity_ids st.result.entities) h.keyed);
      same =
          ap (λ (r : Validated). record r { entities = st.result.entities ++ c ∷ []; drops = ds })
            h.same;
    })
  ]

  loop-Inv :
      (st : EntityLoop) (es : List WireEntity)
      → EntitiesInv before st
      → EntitiesInv before (entity_loop st es)
  unfolding entity_loop
  loop-Inv st [] h = h
  loop-Inv st (e ∷ es) h = loop-Inv (entity_round st e) es (round-Inv st e h)

round_count :
    (st : EntityLoop) (entity : WireEntity)
    → let after = entity_round st entity in
      length after.result.entities + entity_drops after.result.drops
      ≡ suc (length st.result.entities + entity_drops st.result.drops)
round_count st entity = elim (entity_round-Outcome st entity) [
  | rejected ds e n ↦ rw e (omega (arith, n))
  | accepted ds c e n new good ↦ rw e (omega (arith, n, length-snoc st.result.entities c))
]

loop_count :
    (st : EntityLoop) (es : List WireEntity)
    → let after = entity_loop st es in
      length after.result.entities + entity_drops after.result.drops
      ≡ length es + (length st.result.entities + entity_drops st.result.drops)
unfolding entity_loop
loop_count st [] = omega arith
loop_count st (e ∷ es) = omega (arith, loop_count (entity_round st e) es, round_count st e)

module _ (wire : WireExtraction) (result : Validated) where
  -- From a result with no entity, the invariant holds after `mapEntities`.
  pub map_entities-Inv : result.entities ≡ [] → EntitiesInv result (map_entities wire result)
  unfolding map_entities
  map_entities-Inv none_yet =
      loop-Inv result (record { by_id = []; result = result }) wire.entities
        (record {
          entities = rw none_yet tt;
          distinct = rw none_yet tt;
          keyed = λ k. rw none_yet (unfold is_key has in refl);
          same = refl;
        })

  -- Every entity of the payload is kept, or logged by exactly one entry of the kind "entity".
  pub map_entities-conservation :
      let after = map_entities wire result in
      length after.result.entities + entity_drops after.result.drops
      ≡ length wire.entities + (length result.entities + entity_drops result.drops)
  unfolding map_entities
  map_entities-conservation = loop_count (record { by_id = []; result = result }) wire.entities
