-- ===== src/Validate/Entities/Names.antt =====
-- What holds of the names that `map_entities` keeps for an entity.
use fact_checker.Base.{
  ap, ℕ, List, [], ◌∷◌, ◌++◌, map, ◌≡◌, refl, ◌∙◌, true, false, ◌||◌, Str, codes, ◌==◌, has, All,
  All-snoc, Distinct, Distinct-snoc, map-snoc, ||-false, Bool-cases, inl, inr,
}
use fact_checker.Wire.Types.{WireName, WireEntity}
use fact_checker.Validate.Types.{Drop, EntityName, Validated, is_name_kind}
use fact_checker.Validate.Drops.{count_kind, count_kind-add_drop}
use fact_checker.Validate.Entities.{NameLoop, name_round, name_loop}

abbrev pub entity_kind : Str
entity_kind = codes "entity"

abbrev pub entity_drops : List Drop → ℕ
entity_drops ds = count_kind entity_kind ds

abbrev pub name_texts : List EntityName → List Str
name_texts ns = map (λ (n : EntityName). n.name) ns

-- A kept name is not empty, is not the canonical name, and has one of the four kinds.
pub record IsName (canonical : Str) (n : EntityName) : Type 0 where
  pub some_text : (n.name == []) ≡ false
  pub other_text : (n.name == canonical) ≡ false
  pub kind : is_name_kind n.name_kind ≡ true

-- The loop's invariant, over the result with which it began.
pub record NamesInv (canonical : Str) (result : Validated) (st : NameLoop) : Type 0 where
  pub names : All (IsName canonical) st.names
  pub distinct : Distinct (name_texts st.names)
  pub seen : st.seen ≡ name_texts st.names
  pub drops : List Drop
  pub same : st.result ≡ record result { drops = drops }
  pub counted : entity_drops drops ≡ entity_drops result.drops

module _ (entity : WireEntity) (result : Validated) where
  keep_name :
      (st : NameLoop) (n : EntityName) (ds : List Drop)
      → (n.name == []) ≡ false
      → has st.seen n.name ≡ false
      → (n.name == entity.canonical_name) ≡ false
      → is_name_kind n.name_kind ≡ true
      → entity_drops ds ≡ entity_drops st.result.drops
      → NamesInv entity.canonical_name result st
      → NamesInv entity.canonical_name result (record {
        names = st.names ++ n ∷ [];
        seen = st.seen ++ n.name ∷ [];
        result = record (st.result) { drops = ds };
      })
  keep_name st n ds filled new other kind same h = record {
    names =
        All-snoc (IsName entity.canonical_name) st.names n h.names
          (record { some_text = filled; other_text = other; kind = kind });
    distinct =
        rw (map-snoc (λ (m : EntityName). m.name) st.names n)
          (Distinct-snoc (name_texts st.names) n.name h.distinct (rw h.seen at new));
    seen =
        rw (map-snoc (λ (m : EntityName). m.name) st.names n) (ap (λ l. l ++ n.name ∷ []) h.seen);
    drops = ds;
    same = ap (λ (r : Validated). record r { drops = ds }) h.same;
    counted = same ∙ ap (λ (r : Validated). entity_drops r.drops) h.same ∙ h.counted;
  }

  name_round-Inv :
      (st : NameLoop) (n : WireName)
      → NamesInv entity.canonical_name result st
      → NamesInv entity.canonical_name result (name_round entity st n)
  unfolding name_round
  name_round-Inv st n h =
      elim (Bool-cases (n.name == [] || has st.seen n.name || n.name == entity.canonical_name)) [
        | inl skip ↦ rw skip h
        | inr keep ↦
            let (first, other) = ||-false _ _ keep in
            let (filled, new) = ||-false _ _ first in
            rw keep (elim (Bool-cases (is_name_kind n.name_kind)) [
              | inl known ↦ rw known (keep_name st _ st.result.drops filled new other known refl h)
              | inr odd ↦ rw odd (
                  keep_name st _ _ filled new other other_kind
                    (count_kind-add_drop entity_kind st.result.drops (codes "name_kind") _ _
                      ∙ unfold ◌==◌ in refl)
                    h)
            ])
      ]
    where
      other_kind : is_name_kind (codes "other") ≡ true
      other_kind = unfold is_name_kind ◌==◌ in refl

  pub name_loop-Inv :
      (st : NameLoop) (ns : List WireName)
      → NamesInv entity.canonical_name result st
      → NamesInv entity.canonical_name result (name_loop entity st ns)
  unfolding name_loop
  name_loop-Inv st [] h = h
  name_loop-Inv st (n ∷ ns) h = name_loop-Inv (name_round entity st n) ns (name_round-Inv st n h)
