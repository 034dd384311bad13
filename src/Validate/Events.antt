-- ===== src/Validate/Events.antt =====
-- `mapEvents` and `sortedKeys` of extract/validate.go.
pub mod Keys
pub mod Round
pub mod Links
pub mod Laws
use fact_checker.Base.{
  List, [], ◌∷◌, ◌++◌, Str, codes, not, ◌&&◌, ◌||◌, ◌==◌, Option, none, some, has, keys, lookup,
  insert, is_key, if◌then◌else◌,
}
use fact_checker.Extract.{Citation}
use fact_checker.Wire.Types.{WireEvent, WireExtraction}
use fact_checker.Validate.Types.{
  Drop, EntityRecord, Participant, EventRecord, Validated, ValidationContext, is_slug, add_drop,
  log_drop, resolve_entity,
}
use fact_checker.Validate.Citations.{Allowed, filter_citations, citation_reason}
use fact_checker.Validate.Events.Keys.{sorted_keys}

-- `map[string][2][]string`: the causes and the consequences of each kept event, as given.
abbrev pub Links : Type 0
Links = List (Str × (List Str × List Str))

-- The variables of the first loop over the events.
pub record EventLoop : Type 0 where
  pub raw_links : Links
  pub result : Validated

-- A missing key reads as the zero value.
abbrev or_zero : Option Str → Str
or_zero none = []
or_zero (some role) = role

module _ (payload : List (Str × EntityRecord)) (ctx : ValidationContext) where
  -- The loop over the participants in the order of their keys.
  participant_loop :
      WireEvent → List Participant × List Drop → List Str → List Participant × List Drop
  participant_loop event st [] = st
  participant_loop event (participants, drops) (id ∷ ids) =
      participant_loop event
        (if resolve_entity id payload ctx
          then (
            participants
                ++ (record { entity_id = id; role = or_zero (lookup id event.participants) }) ∷ [],
            drops,
          )
          else (
            participants,
            add_drop drops (codes "participant") (event.id ++ codes "/" ++ id)
                (codes "dangling entity ref"),
          ))
        ids

  -- From the participants on, for the citations that satisfy the contract.
  pub keep_event : EventLoop → WireEvent → List Citation → List Drop → EventLoop
  unfolding participant_loop
  keep_event st event citations drops =
      let (participants, drops') =
        participant_loop event ([], drops) (sorted_keys (keys event.participants)) in
      let lost =
        not (event.location_entity_id == [])
        && not (resolve_entity event.location_entity_id payload ctx) in
      record {
        raw_links = insert event.id (event.causes, event.consequences) st.raw_links;
        result = record (st.result) {
          events =
              st.result.events
              ++ (record {
                id = event.id;
                kind = event.kind;
                summary = event.summary;
                description = event.description;
                dating = event.dating;
                location_entity_id = if lost then [] else event.location_entity_id;
                participants = participants;
                causes = [];
                consequences = [];
                sources = citations;
              })
                ∷ [];
          drops =
              if lost
              then add_drop drops' (codes "location") event.id (
                  codes "dangling location ref '" ++ event.location_entity_id ++ codes "'; dropped")
              else drops';
        };
      }

  cite_event : Allowed → EventLoop → WireEvent → EventLoop
  unfolding keep_event
  cite_event allowed st event =
      let (citations, drops) =
        filter_citations event.sources allowed st.result.drops (codes "event:" ++ event.id) in
      let reason = citation_reason citations ctx.unit.policy ctx.unit.reference.source_id in
      if not (reason == [])
      then record st {
        result = log_drop (record (st.result) { drops = drops }) (codes "event") event.id reason;
      }
      else keep_event st event citations drops

  unfoldable pub event_round : Allowed → EventLoop → WireEvent → EventLoop
  unfolding cite_event
  event_round allowed st event =
      if not (is_slug event.id)
      then record st {
        result =
            log_drop st.result (codes "event") event.id (codes "invalid id (use lowercase slugs)");
      }
      else if is_key event.id st.raw_links || has ctx.db_event_ids event.id
      then record st {
        result =
            log_drop st.result (codes "event") event.id
              (codes "duplicate or already-known event id (merged)");
      }
      else cite_event allowed st event

  event_loop : Allowed → EventLoop → List WireEvent → EventLoop
  event_loop allowed st [] = st
  event_loop allowed st (event ∷ events) = event_loop allowed (event_round allowed st event) events

abbrev or_none : Option (List Str × List Str) → List Str × List Str
or_none none = ([], [])
or_none (some links) = links

-- The loop over the causes, and over the consequences, of one event: `label` names the link.
link_loop : Str → Str → List Str → List Str × List Drop → List Str → List Str × List Drop
link_loop label id kept st [] = st
link_loop label id kept (links, drops) (link ∷ rest) =
    link_loop label id kept
      (if has kept link then (links ++ link ∷ [], drops) else (
        links,
        add_drop drops (codes "event_link") (id ++ codes "->" ++ link)
            (codes "dangling " ++ label ++ codes " ref; dropped"),
      ))
      rest

-- The body of the second loop: the links of one event that lead to an event that is there.
unfoldable pub link_event : Links → List Str → EventRecord → List Drop → EventRecord × List Drop
unfolding link_loop
link_event raw_links kept event drops =
    let (causes, consequences) = or_none (lookup event.id raw_links) in
    let (causes', drops') = link_loop (codes "cause") event.id kept (event.causes, drops) causes in
    let (consequences', drops'') =
      link_loop (codes "consequence") event.id kept (event.consequences, drops') consequences in
    (record event { causes = causes'; consequences = consequences' }, drops'')

pub link_events : Links → List Str → List EventRecord → List Drop → List EventRecord × List Drop
link_events raw_links kept [] drops = ([], drops)
link_events raw_links kept (event ∷ events) drops =
    let (event', drops') = link_event raw_links kept event drops in
    let (events', drops'') = link_events raw_links kept events drops' in (event' ∷ events', drops'')

unfoldable pub map_events :
    WireExtraction → Allowed → List (Str × EntityRecord) → ValidationContext → Validated → Validated
unfolding event_loop link_events
map_events wire allowed payload ctx result =
    let st =
      event_loop payload ctx allowed (record { raw_links = []; result = result }) wire.events in
    let kept = keys st.raw_links ++ ctx.db_event_ids in
    let (events, drops) = link_events st.raw_links kept st.result.events st.result.drops in
    record (st.result) { events = events; drops = drops }
