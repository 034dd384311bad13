-- ===== src/Validate/Events/Links.antt =====
-- The second loop of `map_events`: the links of each event to the events that are there.
use fact_checker.Base.{
  List, [], ◌∷◌, ◌++◌, append-nil, append_assoc, map, ◌≡◌, refl, sym, ◌∙◌, ap₂, true, false, Str,
  codes, ◌==◌, has, lookup, select, All, Bool-cases, inl, inr,
}
use fact_checker.Validate.Types.{Drop, EntityRecord, EventRecord, ValidationContext, add_drop}
use fact_checker.Validate.Drops.{count_kind-add_drop}
use fact_checker.Validate.Events.{Links, or_none, link_loop, link_event, link_events}
use fact_checker.Validate.Events.Round.{IsLoadable, event_kind, event_drops}

link_kind : (codes "event_link" == event_kind) ≡ false
unfolding ◌==◌
link_kind = refl

module _ (kept : List Str) where
  -- The links to kept events are appended in order.
  link_loop_lem :
      (label id : Str) (links : List Str) (ds : List Drop) (rest : List Str)
      → let after = link_loop label id kept (links, ds) rest in
        (after.0 ≡ links ++ select (has kept) rest) × (event_drops after.1 ≡ event_drops ds)
  unfolding link_loop select
  link_loop_lem label id links ds [] = (sym (append-nil links), refl)
  link_loop_lem label id links ds (l ∷ rest) = elim (Bool-cases (has kept l)) [
    | inl found ↦
        let (all_links, same) = link_loop_lem label id (links ++ l ∷ []) ds rest in
        rw found (all_links ∙ append_assoc links (l ∷ []) (select (has kept) rest), same)
    | inr lost ↦
        let name = id ++ codes "->" ++ l in
        let reason = codes "dangling " ++ label ++ codes " ref; dropped" in
        let (all_links, same) =
          link_loop_lem label id links (add_drop ds (codes "event_link") name reason) rest in
        rw lost (
          all_links,
          same ∙ count_kind-add_drop event_kind ds (codes "event_link") name reason ∙ rw link_kind,
        )
  ]

  -- The event with the links that `mapEvents` gives it.
  abbrev pub linked : Links → EventRecord → EventRecord
  linked raw_links e =
      let (causes, consequences) = or_none (lookup e.id raw_links) in
      record e {
        causes = e.causes ++ select (has kept) causes;
        consequences = e.consequences ++ select (has kept) consequences;
      }

  link_event_lem :
      (raw_links : Links) (e : EventRecord) (ds : List Drop)
      → let after = link_event raw_links kept e ds in
        (after.0 ≡ linked raw_links e) × (event_drops after.1 ≡ event_drops ds)
  unfolding link_event
  link_event_lem raw_links e ds =
      let (causes, consequences) = or_none (lookup e.id raw_links) in
      let first = link_loop (codes "cause") e.id kept (e.causes, ds) causes in
      let (causes_eq, same₁) = link_loop_lem (codes "cause") e.id e.causes ds causes in
      let (consequences_eq, same₂) =
        link_loop_lem (codes "consequence") e.id e.consequences first.1 consequences in
      (
        ap₂ (λ (a b : List Str). record e { causes = a; consequences = b }) causes_eq
            consequences_eq,
        same₂ ∙ same₁,
      )

  -- Every event is kept in place; its links are the given ones to kept events, in order.
  pub link_events_lem :
      (raw_links : Links) (es : List EventRecord) (ds : List Drop)
      → let after = link_events raw_links kept es ds in
        (after.0 ≡ map (linked raw_links) es) × (event_drops after.1 ≡ event_drops ds)
  unfolding link_events
  link_events_lem raw_links [] ds = (refl, refl)
  link_events_lem raw_links (e ∷ es) ds =
      let (here, same₁) = link_event_lem raw_links e ds in
      let (there, same₂) = link_events_lem raw_links es (link_event raw_links kept e ds).1 in
      (ap₂ (λ (x : EventRecord) xs. x ∷ xs) here there, same₂ ∙ same₁)

  abbrev pub IsLinked : EventRecord → Type 0
  IsLinked e =
      All (λ (l : Str). has kept l ≡ true) e.causes
      × All (λ (l : Str). has kept l ≡ true) e.consequences

  select-kept : (ls : List Str) → All (λ (l : Str). has kept l ≡ true) (select (has kept) ls)
  unfolding select
  select-kept [] = tt
  select-kept (l ∷ ls) = elim (Bool-cases (has kept l)) [
    | inl found ↦ rw found (found, select-kept ls)
    | inr lost ↦ rw lost (select-kept ls)
  ]

  pub linked-IsLinked :
      (raw_links : Links) (es : List EventRecord)
      → All (λ (e : EventRecord). (e.causes ≡ []) × (e.consequences ≡ [])) es
      → All IsLinked (map (linked raw_links) es)
  linked-IsLinked raw_links [] h = tt
  linked-IsLinked raw_links (e ∷ es) ((c, q), h) =
      (rw (c, q) (select-kept _, select-kept _), linked-IsLinked raw_links es h)

  pub linked-IsLoadable :
      (payload : List (Str × EntityRecord)) (ctx : ValidationContext) (raw_links : Links)
      (es : List EventRecord)
      → All (IsLoadable payload ctx) es
      → All (IsLoadable payload ctx) (map (linked raw_links) es)
  linked-IsLoadable payload ctx raw_links [] h = tt
  linked-IsLoadable payload ctx raw_links (e ∷ es) (g, h) = (
    record {
      slug = g.slug;
      fresh = g.fresh;
      cited = g.cited;
      present = g.present;
      located = g.located;
    },
    linked-IsLoadable payload ctx raw_links es h,
  )
