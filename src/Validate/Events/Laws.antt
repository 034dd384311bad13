-- ===== src/Validate/Events/Laws.antt =====
-- What holds of the events and the log after `map_events`.
use fact_checker.Base.{
  All-map, suc, ◌+◌, List, [], ◌∷◌, ◌++◌, map, ◌≡◌, refl, sym, ◌∙◌, ap, ◌||◌, Str, has, has-append,
  keys, is_key, is_key-snoc, Distinct, Distinct-snoc, map-snoc, length, length-snoc, All, All-snoc,
  arith,
}
use fact_checker.Wire.Types.{WireEvent, WireExtraction}
use fact_checker.Validate.Types.{EntityRecord, EventRecord, Validated, ValidationContext}
use fact_checker.Validate.Citations.{citeable_sources}
use fact_checker.Validate.Events.{
  Links, EventLoop, event_round, event_loop, link_events, map_events,
}
use fact_checker.Validate.Events.Links.{
  linked, IsLinked, link_events_lem, linked-IsLinked, linked-IsLoadable,
}
use fact_checker.Validate.Events.Round.{
  IsLoadable, rejected, accepted, event_drops, event_round-Outcome,
}

abbrev pub event_ids : List EventRecord → List Str
event_ids es = map (λ (e : EventRecord). e.id) es

abbrev IsUnlinked : EventRecord → Type 0
IsUnlinked e = (e.causes ≡ []) × (e.consequences ≡ [])

-- The invariant of the first loop, over the result with which it began.
record LoopInv (payload : List (Str × EntityRecord)) (ctx : ValidationContext) (before : Validated)
    (st : EventLoop) : Type 0 where
  loadable : All (IsLoadable payload ctx) st.result.events
  unlinked : All IsUnlinked st.result.events
  distinct : Distinct (event_ids st.result.events)
  keyed : (k : Str) → is_key k st.raw_links ≡ has (event_ids st.result.events) k
  same : st.result ≡ record before { events = st.result.events; drops = st.result.drops }

module _ (payload : List (Str × EntityRecord)) (ctx : ValidationContext) where
  abbrev round : EventLoop → WireEvent → EventLoop
  round st event = event_round payload ctx (citeable_sources ctx.unit) st event

  abbrev loop : EventLoop → List WireEvent → EventLoop
  loop st events = event_loop payload ctx (citeable_sources ctx.unit) st events

  round-Inv :
      (before : Validated) (st : EventLoop) (event : WireEvent)
      → LoopInv payload ctx before st
      → LoopInv payload ctx before (round st event)
  round-Inv before st event h = elim (event_round-Outcome payload ctx st event) [
    | rejected ds e n ↦ rw e (record {
      loadable = h.loadable;
      unlinked = h.unlinked;
      distinct = h.distinct;
      keyed = h.keyed;
      same = ap (λ (r : Validated). record r { drops = ds }) h.same;
    })
    | accepted ds c e n new bare good ↦ rw e (record {
      loadable = All-snoc (IsLoadable payload ctx) st.result.events c h.loadable good;
      unlinked = All-snoc IsUnlinked st.result.events c h.unlinked bare;
      distinct =
          rw (map-snoc (λ (d : EventRecord). d.id) st.result.events c)
            (Distinct-snoc (event_ids st.result.events) c.id h.distinct (sym (h.keyed c.id) ∙ new));
      keyed = rw (map-snoc (λ (d : EventRecord). d.id) st.result.events c) (
          is_key-snoc c.id (event.causes, event.consequences) st.raw_links
            (event_ids st.result.events) h.keyed);
      same =
          ap (λ (r : Validated). record r { events = st.result.events ++ c ∷ []; drops = ds })
            h.same;
    })
  ]

  loop-Inv :
      (before : Validated) (st : EventLoop) (events : List WireEvent)
      → LoopInv payload ctx before st
      → LoopInv payload ctx before (loop st events)
  unfolding event_loop
  loop-Inv before st [] h = h
  loop-Inv before st (e ∷ es) h = loop-Inv before (round st e) es (round-Inv before st e h)

  round_count :
      (st : EventLoop) (event : WireEvent)
      → length (round st event).result.events + event_drops (round st event).result.drops
        ≡ suc (length st.result.events + event_drops st.result.drops)
  round_count st event = elim (event_round-Outcome payload ctx st event) [
    | rejected ds e n ↦ rw e (omega (arith, n))
    | accepted ds c e n new bare good ↦ rw e (omega (arith, n, length-snoc st.result.events c))
  ]

  loop_count :
      (st : EventLoop) (events : List WireEvent)
      → length (loop st events).result.events + event_drops (loop st events).result.drops
        ≡ length events + (length st.result.events + event_drops st.result.drops)
  unfolding event_loop
  loop_count st [] = omega arith
  loop_count st (e ∷ es) = omega (arith, loop_count (round st e) es, round_count st e)

-- What holds after `map_events`, over the result with which it began.
pub record EventsInv (payload : List (Str × EntityRecord)) (ctx : ValidationContext)
    (before after : Validated) : Type 0 where
  pub loadable : All (IsLoadable payload ctx) after.events
  pub linked : All (IsLinked (event_ids after.events ++ ctx.db_event_ids)) after.events
  pub distinct : Distinct (event_ids after.events)
  pub same : after ≡ record before { events = after.events; drops = after.drops }

event_ids-linked :
    (kept : List Str) (raw_links : Links) (es : List EventRecord)
    → event_ids (map (linked kept raw_links) es) ≡ event_ids es
event_ids-linked kept raw_links [] = refl
event_ids-linked kept raw_links (e ∷ es) = ap (λ ks. e.id ∷ ks) (event_ids-linked kept raw_links es)

length-linked :
    (kept : List Str) (raw_links : Links) (es : List EventRecord)
    → length (map (linked kept raw_links) es) ≡ length es
length-linked kept raw_links [] = refl
length-linked kept raw_links (e ∷ es) = ap suc (length-linked kept raw_links es)

IsLinked_of_has :
    (kept kept' : List Str)
    → ((k : Str) → has kept k ≡ has kept' k)
    → (es : List EventRecord) → All (IsLinked kept) es
    → All (IsLinked kept') es
IsLinked_of_has kept kept' same es h =
    All-map (IsLinked kept) (IsLinked kept')
      (λ e l. (
        All-map _ _ (λ k m. sym (same k) ∙ m) e.causes l.0,
        All-map _ _ (λ k m. sym (same k) ∙ m) e.consequences l.1,
      ))
      es h

module _ (wire : WireExtraction) (payload : List (Str × EntityRecord)) (ctx : ValidationContext)
    (result : Validated) where
  abbrev mapped : Validated
  mapped = map_events wire (citeable_sources ctx.unit) payload ctx result

  abbrev first_loop : EventLoop
  first_loop = loop payload ctx (record { raw_links = []; result = result }) wire.events

  abbrev kept_ids : List Str
  kept_ids = keys first_loop.raw_links ++ ctx.db_event_ids

  first_loop-Inv : result.events ≡ [] → LoopInv payload ctx result first_loop
  first_loop-Inv none_yet =
      loop-Inv payload ctx result (record { raw_links = []; result = result }) wire.events
        (record {
          loadable = rw none_yet tt;
          unlinked = rw none_yet tt;
          distinct = rw none_yet tt;
          keyed = λ k. rw none_yet (unfold is_key has in refl);
          same = refl;
        })

  kept_ids-has :
      LoopInv payload ctx result first_loop
      → (k : Str) → has kept_ids k ≡ has (event_ids first_loop.result.events ++ ctx.db_event_ids) k
  kept_ids-has h k =
      rw
        (
          has-append (keys first_loop.raw_links) ctx.db_event_ids k,
          has-append (event_ids first_loop.result.events) ctx.db_event_ids k,
        )
        (ap (λ b. b || has ctx.db_event_ids k) (unfold is_key in h.keyed k))

  -- From a result with no event, the invariant holds after `mapEvents`.
  pub map_events-Inv : result.events ≡ [] → EventsInv payload ctx result mapped
  unfolding map_events
  map_events-Inv none_yet =
      let h = first_loop-Inv none_yet in
      let st = first_loop in
      let all_linked = (link_events_lem kept_ids st.raw_links st.result.events st.result.drops).0 in
      rw all_linked (record {
        loadable = linked-IsLoadable kept_ids payload ctx st.raw_links st.result.events h.loadable;
        linked = rw (event_ids-linked kept_ids st.raw_links st.result.events) (
            IsLinked_of_has kept_ids _ (kept_ids-has h) _
              (linked-IsLinked kept_ids st.raw_links st.result.events h.unlinked));
        distinct = rw (event_ids-linked kept_ids st.raw_links st.result.events) (h.distinct);
        same =
            ap
              (λ (r : Validated). record r {
                events = map (linked kept_ids st.raw_links) st.result.events;
                drops = (link_events st.raw_links kept_ids st.result.events st.result.drops).1;
              })
              h.same;
      })

  -- Every event of the payload is kept, or logged by exactly one entry of the kind "event".
  pub map_events-conservation :
      length mapped.events + event_drops mapped.drops
      ≡ length wire.events + (length result.events + event_drops result.drops)
  unfolding map_events
  map_events-conservation =
      let st = first_loop in
      let (all_linked, same) =
        link_events_lem kept_ids st.raw_links st.result.events st.result.drops in
      rw (all_linked, same, length-linked kept_ids st.raw_links st.result.events)
        (loop_count payload ctx (record { raw_links = []; result = result }) wire.events)
