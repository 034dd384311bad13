-- ===== src/Tests/Graphs.antt =====
-- A small graph that the sample response is loaded into.
use fact_checker.Base.{
  ok, ◌++◌, true, all, ℕ, [], ◌∷◌, ◌≡◌, refl, codes, none, some, has, lookup, insert, is_key,
  select, ◌==◌, str_lt, any, length,
}
use fact_checker.Extract.{text}
use fact_checker.Validate.Types.{is_slug, is_name_kind, needs_versions, resolve_entity}
use fact_checker.Validate.Citations.{citeable_sources, filter_citations, citation_reason}
use fact_checker.Validate.Entities.{map_entities, entity_round, keep_entity}
use fact_checker.Validate.Events.{map_events, event_round, link_event}
use fact_checker.Validate.Events.Keys.{sorted_keys}
use fact_checker.Validate.Claims.{map_claims, claim_round}
use fact_checker.Validate.Claims.{contradiction_entry}
use fact_checker.Validate.Relationships.{map_relationships, relationship_round}
use fact_checker.Validate.Citations.Surface.{offered, demanded}
use fact_checker.Validate.Whole.{validate}
use fact_checker.Llm.Cost.{CostTracker}
use fact_checker.Runner.Types.{new_stats, UnitOutcome}
use fact_checker.Runner.Persist.{Database, KnownIds, Persisted, persist_outcome}
use fact_checker.Runner.Persist.Keeps.{
  HasTables, IsKept, Persists, nothing_more, outcome_then, IsFit, Persists-IsKept,
}
use fact_checker.Graph.Rows.{
  Graph, entity_row, claim_row, claim_source_row, source_row, key, begins_with, exists_at, id_set,
  put_all, same_key,
}
use fact_checker.Graph.Load.{load_records, rows_of}
use fact_checker.Graph.Checks.{
  violates, bad_locator, uncited_claim, uncited_event, invalid_locator, dangling_reference,
  unregistered_claim, uncited_version, findings,
}
use fact_checker.Graph.Sound.Findings.{HasNoFinding}
use fact_checker.Graph.Sound.Locators.{covers, covers_row}
use fact_checker.Graph.Sound.Kept.{HasNames, IsOf}
use fact_checker.Graph.Report.{integrity_status, load_records-integrity_status}
use fact_checker.Graph.Load.Again.{load_records-again}
use fact_checker.Graph.Load.First.{is_fixed, load_records-first_wins}
use fact_checker.Tests.Samples.{galadriel, response, context}

-- The entity "c", the claim "old" with a citation, and two sources with their required keys.
abbrev graph : Graph
graph =
    source_row (codes "tg") (some (codes "url" ∷ []))
    ∷ source_row (codes "silm") (some (codes "ch" ∷ []))
    ∷ entity_row (codes "c") (codes "elf") (codes "C") []
    ∷ claim_row (record {
      id = codes "old";
      statement = codes "s";
      subject_entity_id = some (codes "c");
      predicate = none;
      object_entity_id = none;
      object_value = none;
      confidence = codes "established";
    })
    ∷ claim_source_row (codes "old") none (codes "tg") ((codes "url", text (codes "u")) ∷ []) none
    ∷ []

graph-HasNoFinding : HasNoFinding graph
unfolding findings uncited_claim uncited_event invalid_locator dangling_reference unregistered_claim
    uncited_version bad_locator violates exists_at any begins_with key ◌==◌ is_key has all
graph-HasNoFinding = record {
  claims_without_sources = refl;
  events_without_sources = refl;
  invalid_locators = refl;
  dangling_references = refl;
  contested_claims_unregistered = refl;
  claim_versions_without_citations = refl;
}

graph-covers : covers galadriel graph ≡ true
unfolding covers covers_row all offered demanded is_key has ◌==◌
graph-covers = refl

context-IsOf : IsOf graph context
unfolding id_set key has ◌==◌
context-IsOf = record { entities = λ id h. h; events = λ id h. cc; claims = λ id h. h }

response-HasNames : HasNames (validate response context)
unfolding validate map_entities map_events map_claims map_relationships entity_round event_round
    claim_round keep_entity link_event relationship_round citeable_sources filter_citations
    citation_reason sorted_keys is_slug is_name_kind needs_versions resolve_entity has lookup insert
    is_key select ◌==◌ str_lt
response-HasNames = record {
  participants = ((λ e. cc, tt), ((λ e. cc, tt), tt));
  ends = ((λ e. cc, λ e. cc), tt);
}

-- The rows of the response, with two citations for each of two events, the claim and its version.
loaded : length (load_records (validate response context) graph) ≡ 25
unfolding validate map_entities map_events map_claims map_relationships entity_round event_round
    claim_round keep_entity link_event relationship_round citeable_sources filter_citations
    citation_reason sorted_keys is_slug is_name_kind needs_versions resolve_entity has lookup insert
    is_key select ◌==◌ str_lt load_records rows_of put_all any key same_key contradiction_entry
loaded = refl

-- A database that is its tables.
abbrev tables_only : Database Graph
tables_only = record {
  begin = λ g. (none, g);
  write_model_output = λ unit r g. (none, g);
  load_records = λ v g. (none, load_records v g);
  finish_ledger_row = λ unit status counts drops error g. (none, g);
  commit = λ g. (none, g);
}

tables_only-HasTables : HasTables Graph tables_only
tables_only-HasTables = record {
  tables = λ g. g;
  begin = λ g. refl;
  write_model_output = λ u r g. refl;
  finish_ledger_row = λ u status counts drops e g. refl;
  commit = λ g. refl;
  load_records = λ v g h. refl;
}

abbrev known : KnownIds
known = record { entities = codes "c" ∷ []; events = []; claims = codes "old" ∷ [] }

abbrev tracker : CostTracker ℕ
tracker = record {
  price_in = 0;
  price_out = 0;
  calls = 0;
  input_tokens = 0;
  output_tokens = 0;
  latencies = [];
}

abbrev outcome : UnitOutcome
outcome = record {
  job = record { unit = galadriel; system = []; user = [] };
  responses = [];
  wire = some response;
  problems = [];
  error = [];
  attempts = 1;
  repairs = 0;
}

abbrev failed_outcome : UnitOutcome
failed_outcome = record outcome { wire = none; error = codes "busy" }

start-IsKept : IsKept graph known
start-IsKept = record {
  clean = graph-HasNoFinding;
  entities = context-IsOf.entities;
  events = context-IsOf.events;
  claims = context-IsOf.claims;
}

abbrev first : Persisted ℕ Graph
first = persist_outcome tables_only new_stats tracker known outcome graph

-- One outcome is loaded, and a failed one comes after it.
outcomes :
    Persists tables_only tables_only-HasTables new_stats tracker known graph first.known first.world
unfolding persist_outcome
outcomes = outcome_then outcome refl nothing_more

outcomes-IsFit : IsFit tables_only tables_only-HasTables outcomes
unfolding outcomes tables_only-HasTables
outcomes-IsFit = (graph-covers, response-HasNames, tt)

Persists-IsKept_example : IsKept first.world first.known
unfolding tables_only-HasTables
Persists-IsKept_example =
    Persists-IsKept tables_only tables_only-HasTables outcomes outcomes-IsFit start-IsKept

load_records-integrity_status_example :
    integrity_status (λ s. s) (load_records (validate response context) graph) ≡ ok (codes "ok")
load_records-integrity_status_example =
    load_records-integrity_status (λ s. s) response context graph context-IsOf graph-covers
      response-HasNames graph-HasNoFinding

load_records-again_example :
    load_records (validate response context) (load_records (validate response context) graph)
    ≡ load_records (validate response context) graph
load_records-again_example = load_records-again (validate response context) graph

load_records-first_wins_example :
    (new : Graph) × (select is_fixed (load_records (validate response context) graph)
      ≡ select is_fixed graph ++ new)
load_records-first_wins_example = load_records-first_wins (validate response context) graph
