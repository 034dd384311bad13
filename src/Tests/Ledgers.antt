-- ===== src/Tests/Ledgers.antt =====
-- The ledger while a run goes on, and after it.
use fact_checker.Base.{
  select, true, false, pos, Option, some, ℕ, List, [], ◌∷◌, ◌≡◌, refl, foldl, Str, codes, ◌==◌,
  false, none, some, lookup, pos,
}
use fact_checker.Extract.{WorkUnit}
use fact_checker.Runner.Plan.Laws.{undone}
use fact_checker.Ledger.{finish_ledger_row, upsert_ledger_row, Table, ledger_state}
use fact_checker.Ledger.Resume.{
  Write, submit, finish, write, move, write-refines, Resolves, at_end, submitted, finished,
  undone-settled,
}
use fact_checker.Llm.Cost.{CostTracker}
use fact_checker.Runner.Types.{new_stats, UnitOutcome}
use fact_checker.Runner.Persist.{Database, KnownIds, persist_outcome}
use fact_checker.Runner.Persist.Ledgered.{HasLedger, with_status, persist_outcome-status}
use fact_checker.Runner.Run.{Faults, running, run_extraction}
use fact_checker.Runner.Run.Row.{IsRecorded, run_extraction-IsRecorded}
use fact_checker.Runner.Types.{Stats, Options}
use fact_checker.Tests.Samples.{galadriel}

abbrev hash : WorkUnit → Str
hash unit = unit.body

abbrev second_unit : WorkUnit
second_unit = record galadriel { unit_key = codes "tg:celeborn" }

-- The outcome of the first unit comes after the second unit is submitted, which is still pending.
abbrev writes : List Write
writes =
    submit galadriel (codes "m") 1
    ∷ submit second_unit (codes "m") 1
    ∷ finish galadriel (codes "failed") [] [] (codes "busy") 7
    ∷ []

write-refines_example :
    lookup (codes "tg:galadriel") (ledger_state (foldl (write hash) [] writes))
    ≡ foldl
        (move hash (codes "tg:galadriel"))
        (lookup (codes "tg:galadriel") (ledger_state []))
        writes
write-refines_example = write-refines hash writes [] (codes "tg:galadriel")

after_writes :
    foldl (move hash (codes "tg:galadriel")) none writes
    ≡ some (record { status = codes "failed"; input_hash = codes "text" })
unfolding ◌==◌
after_writes = refl

abbrev units : List WorkUnit
units = galadriel ∷ second_unit ∷ []

-- Both units are in flight, and the second one is finished first.
abbrev interleaved : List Write
interleaved =
    submit galadriel (codes "m") 1
    ∷ submit second_unit (codes "m") 1
    ∷ finish second_unit (codes "done") [] [] [] 7
    ∷ finish galadriel (codes "done") [] [] [] 8
    ∷ []

interleaved-Resolves : Resolves hash units [] interleaved
interleaved-Resolves = submitted (codes "m") 1 (
    submitted (codes "m") 1
      (finished [] (galadriel ∷ []) [] [] [] 7 (finished [] [] [] [] [] 8 at_end)))

undone-settled_example : undone hash (ledger_state (foldl (write hash) [] interleaved)) units ≡ []
unfolding select fact_checker.Runner.Plan.is_done lookup ledger_state
undone-settled_example =
    undone-settled hash (λ key. codes "text") units [] interleaved (refl, (refl, tt))
      interleaved-Resolves

-- A database that is its ledger, at the time 7.
abbrev ledger_only : Database Table
ledger_only = record {
  begin = λ w. (none, w);
  write_model_output = λ unit r w. (none, w);
  load_records = λ v w. (none, w);
  finish_ledger_row = λ unit status counts drops error w.
      (none, finish_ledger_row unit status counts drops error 7 w);
  commit = λ w. (none, w);
}

ledger_only-HasLedger : HasLedger Table ledger_only
ledger_only-HasLedger = record {
  ledger = λ w. w;
  now = λ w. 7;
  begin = λ w. refl;
  write_model_output = λ u r w. refl;
  load_records = λ v w. refl;
  commit = λ w. refl;
  finish = λ u status counts drops e w h. refl;
}

abbrev tracker : CostTracker ℕ
tracker = record {
  price_in = 0;
  price_out = 0;
  calls = 0;
  input_tokens = 0;
  output_tokens = 0;
  latencies = [];
}

abbrev nothing_known : KnownIds
nothing_known = record { entities = []; events = []; claims = [] }

abbrev outcome : UnitOutcome
outcome = record {
  job = record { unit = galadriel; system = []; user = [] };
  responses = [];
  wire = none;
  problems = [];
  error = codes "busy";
  attempts = 3;
  repairs = 0;
}

abbrev with_galadriel : Table
with_galadriel = upsert_ledger_row galadriel (codes "m") (codes "text") 1 []

persist_outcome-status_example :
    let r = persist_outcome ledger_only new_stats tracker nothing_known outcome with_galadriel in
    lookup (codes "tg:galadriel") (ledger_state (ledger_only-HasLedger.ledger r.world))
    ≡ with_status galadriel
        (codes "failed")
        (codes "tg:galadriel")
        (lookup (codes "tg:galadriel") (ledger_state (ledger_only-HasLedger.ledger with_galadriel)))
unfolding persist_outcome
persist_outcome-status_example =
    persist_outcome-status ledger_only ledger_only-HasLedger (codes "tg:galadriel") new_stats
      tracker nothing_known outcome with_galadriel refl

abbrev run_options : Options ℕ
run_options = record {
  dry_run = true;
  limit = pos 0;
  budget_usd = 25;
  max_units = pos 500;
  max_attempts = pos 3;
  concurrency = pos 1;
  price_in = 0;
  price_out = 0;
}

-- A run in which the ledger cannot be read.
abbrev broken : Options ℕ → ℕ → Stats → Stats × Option Str
broken opts id stats = (stats, some (codes "query ledger: gone"))

abbrev no_faults : Faults
no_faults = record { begin = none; finish = none }

run_extraction-IsRecorded_example :
    IsRecorded 2
      (running 1 ∷ [])
      (run_extraction broken no_faults run_options false 2 (running 1 ∷ []))
run_extraction-IsRecorded_example =
    run_extraction-IsRecorded broken no_faults 2 (running 1 ∷ []) (refl, tt) run_options false
