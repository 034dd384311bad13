-- ===== src/Validate/Events/Round.antt =====
-- What one round of the first loop of `map_events` does: it logs one entry of the kind "event", or
-- it keeps an event that may be loaded, with its links set aside.
use fact_checker.Base.{
  ℕ, suc, List, [], ◌∷◌, ◌++◌, ◌≡◌, refl, ◌∙◌, ap, true, false, not, ◌&&◌, ◌||◌, Str, codes, ◌==◌,
  ==_sound, has, keys, lookup, insert, is_key, All, All-snoc, arith, Bool-cases, ||-false, inl, inr,
  if◌then◌else◌,
}
use fact_checker.Extract.{Citation}
use fact_checker.Wire.Types.{WireEvent}
use fact_checker.Validate.Types.{
  Drop, EntityRecord, Participant, EventRecord, ValidationContext, is_slug, add_drop,
  resolve_entity,
}
use fact_checker.Validate.Citations.{citeable_sources, filter_citations, citation_reason}
use fact_checker.Validate.Citations.Reason.{IsCited, filter_citations-IsCited}
use fact_checker.Validate.Drops.{count_kind, count_kind-add_drop, count_kind-filter_citations}
use fact_checker.Validate.Events.Keys.{sorted_keys}
use fact_checker.Validate.Events.{
  EventLoop, or_zero, participant_loop, keep_event, cite_event, event_round,
}

abbrev pub event_kind : Str
event_kind = codes "event"

abbrev pub event_drops : List Drop → ℕ
event_drops ds = count_kind event_kind ds

-- What holds of every event that is kept, its links aside.
pub record IsLoadable (payload : List (Str × EntityRecord)) (ctx : ValidationContext)
    (e : EventRecord) : Type 0 where
  pub slug : is_slug e.id ≡ true
  pub fresh : has ctx.db_event_ids e.id ≡ false
  pub cited : IsCited ctx.unit e.sources
  pub present :
      All (λ (p : Participant). resolve_entity p.entity_id payload ctx ≡ true) e.participants
  pub located : resolve_entity e.location_entity_id payload ctx ≡ true

abbrev pub with_drops : EventLoop → List Drop → EventLoop
with_drops st ds = record st { result = record (st.result) { drops = ds } }

pub data Outcome (payload : List (Str × EntityRecord)) (ctx : ValidationContext) (st : EventLoop)
    (event : WireEvent) (after : EventLoop) : Type 0 where
  rejected :
      (ds : List Drop)
      → after ≡ with_drops st ds
      → event_drops ds ≡ suc (event_drops st.result.drops)
      → Outcome payload ctx st event after
  accepted :
      (ds : List Drop) (e : EventRecord)
      → after ≡ record {
        raw_links = insert e.id (event.causes, event.consequences) st.raw_links;
        result = record (st.result) { events = st.result.events ++ e ∷ []; drops = ds };
      }
      → event_drops ds ≡ event_drops st.result.drops
      → is_key e.id st.raw_links ≡ false
      → (e.causes ≡ []) × (e.consequences ≡ [])
      → IsLoadable payload ctx e
      → Outcome payload ctx st event after

module _ (payload : List (Str × EntityRecord)) (ctx : ValidationContext) where
  abbrev Present : List Participant → Type 0
  Present ps = All (λ (p : Participant). resolve_entity p.entity_id payload ctx ≡ true) ps

  participant_kind : (codes "participant" == event_kind) ≡ false
  unfolding ◌==◌
  participant_kind = refl

  participant_loop_lem :
      (event : WireEvent) (ps : List Participant) (ds : List Drop) (ids : List Str)
      → Present ps
      → let after = participant_loop payload ctx event (ps, ds) ids in
        Present after.0 × (event_drops after.1 ≡ event_drops ds)
  unfolding participant_loop
  participant_loop_lem event ps ds [] h = (h, refl)
  participant_loop_lem event ps ds (id ∷ ids) h =
      elim (Bool-cases (resolve_entity id payload ctx)) [
        | inl found ↦ rw found (
            participant_loop_lem event
              (ps
                ++ (record { entity_id = id; role = or_zero (lookup id event.participants) }) ∷ [])
              ds ids (All-snoc _ ps _ h found))
        | inr lost ↦
            let name = event.id ++ codes "/" ++ id in
            let reason = codes "dangling entity ref" in
            let (present, same) =
              participant_loop_lem event ps (add_drop ds (codes "participant") name reason) ids h in
            rw lost (
              present,
              same
                  ∙ count_kind-add_drop event_kind ds (codes "participant") name reason
                  ∙ rw participant_kind,
            )
      ]

  resolve_nil : resolve_entity [] payload ctx ≡ true
  unfolding resolve_entity ◌==◌
  resolve_nil = refl

  location_lem :
      (id : Str) (ds : List Drop) (name reason : Str)
      → let lost = not (id == []) && not (resolve_entity id payload ctx) in
        (resolve_entity (if lost then [] else id) payload ctx ≡ true)
        × (event_drops (if lost then add_drop ds (codes "location") name reason else ds)
            ≡ event_drops ds)
  location_lem id ds name reason = ground (
    arith,
    resolve_nil,
    ==_sound id [],
    count_kind-add_drop event_kind ds (codes "location") name reason,
    location_kind,
  )
    where
      location_kind : (codes "location" == event_kind) ≡ false
      location_kind = unfold ◌==◌ in refl

  keep_event-Outcome :
      (st : EventLoop) (event : WireEvent) (cs : List Citation) (ds : List Drop)
      → is_slug event.id ≡ true
      → is_key event.id st.raw_links ≡ false
      → has ctx.db_event_ids event.id ≡ false
      → IsCited ctx.unit cs
      → event_drops ds ≡ event_drops st.result.drops
      → Outcome payload ctx st event (keep_event payload ctx st event cs ds)
  unfolding keep_event
  keep_event-Outcome st event cs ds slug new fresh cited same =
      let after =
        participant_loop payload ctx event ([], ds) (sorted_keys (keys event.participants)) in
      let (present, same₁) =
        participant_loop_lem event [] ds (sorted_keys (keys event.participants)) tt in
      let (located, same₂) =
        location_lem event.location_entity_id after.1 event.id
          (codes "dangling location ref '" ++ event.location_entity_id ++ codes "'; dropped") in
      accepted _ _ refl (same₂ ∙ same₁ ∙ same) new (refl, refl)
        (record { slug = slug; fresh = fresh; cited = cited; present = present; located = located })

  cite_event-Outcome :
      (st : EventLoop) (event : WireEvent)
      → is_slug event.id ≡ true
      → is_key event.id st.raw_links ≡ false
      → has ctx.db_event_ids event.id ≡ false
      → Outcome payload ctx st event (cite_event payload ctx (citeable_sources ctx.unit) st event)
  unfolding cite_event
  cite_event-Outcome st event slug new fresh =
      let allowed = citeable_sources ctx.unit in
      let owner = codes "event:" ++ event.id in
      let (cs, ds) = filter_citations event.sources allowed st.result.drops owner in
      let reason = citation_reason cs ctx.unit.policy ctx.unit.reference.source_id in
      let same =
        count_kind-filter_citations event_kind event.sources allowed st.result.drops owner
          citation_kind in
      elim (Bool-cases (reason == [])) [
        | inl e ↦ rw e (
            keep_event-Outcome st event cs ds slug new fresh
              (filter_citations-IsCited ctx.unit event.sources st.result.drops owner
                (==_sound reason [] e))
              same)
        | inr e ↦ rw e (
            rejected (add_drop ds event_kind event.id reason) refl (
              count_kind-add_drop event_kind ds event_kind event.id reason
              ∙ unfold ◌==◌ in ap suc same))
      ]
    where
      citation_kind : (codes "citation" == event_kind) ≡ false
      citation_kind = unfold ◌==◌ in refl

  -- Each round rejects its event with one entry of the log, or keeps it.
  pub event_round-Outcome :
      (st : EventLoop) (event : WireEvent)
      → Outcome payload ctx st event (event_round payload ctx (citeable_sources ctx.unit) st event)
  unfolding event_round
  event_round-Outcome st event = elim (Bool-cases (is_slug event.id)) [
    | inr bad ↦ rw bad (rejected_as _)
    | inl slug ↦ elim (Bool-cases (is_key event.id st.raw_links || has ctx.db_event_ids event.id)) [
      | inl dup ↦ rw (slug, dup) (rejected_as _)
      | inr new ↦
          let (unseen, fresh) = ||-false _ _ new in
          rw (slug, new) (cite_event-Outcome st event slug unseen fresh)
    ]
  ]
    where
      rejected_as :
          (reason : Str)
          → Outcome payload ctx st event
              (with_drops st (add_drop st.result.drops event_kind event.id reason))
      rejected_as reason = rejected (add_drop st.result.drops event_kind event.id reason) refl (
          count_kind-add_drop event_kind st.result.drops event_kind event.id reason
          ∙ unfold ◌==◌ in refl)
