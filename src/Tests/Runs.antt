-- ===== src/Tests/Runs.antt =====
-- Extraction runs of a few units, a report of the checks, and the keys of two titles.
use fact_checker.Base.{
  pos, ℕ, suc, ◌+◌, List, [], ◌∷◌, All, map, ◌≡◌, ◌↔◌, refl, Str, codes, none, some, arith, ok, err,
  false, true,
}
use fact_checker.Extract.{WorkUnit}
use fact_checker.Validate.Types.{is_slug}
use fact_checker.Llm.Types.{bad_status}
use fact_checker.Llm.Cost.{CostTracker}
use fact_checker.Llm.Call.{Called, gave_up}
use fact_checker.Wire.Parse.{Json}
use fact_checker.Runner.Types.{Options, new_stats, UnitJob, UnitOutcome}
use fact_checker.Runner.Plan.{LedgerRow, plan}
use fact_checker.Runner.Plan.Laws.{IsPlan, within, undone, plan-exact}
use fact_checker.Runner.Calls.{call_unit}
use fact_checker.Runner.Calls.Laws.{Finished, call_unit-Finished}
use fact_checker.Runner.Window.{
  Window, opened, Run, rest, ◌then◌, submit, receive_done, receive_failed, HasEnded,
  deferred_at_end,
}
use fact_checker.Runner.Window.Laws.{Inv, Run-window, Run-accounts, Run-complete}
use fact_checker.Runner.Persist.{Database, KnownIds, persist_outcome}
use fact_checker.Runner.Persist.Laws.{Accounts, persist_outcome-Accounts}
use fact_checker.Integrity.{
  QueryEnd, rows, Check, CheckResult, severity_warning, severity_error, run_checks, status_for,
  error_count,
}
use fact_checker.Integrity.Laws.{IsReport, IsClean, run_checks-status}
use fact_checker.Adapter.Slug.{slugify}
use fact_checker.Adapter.Slug.Laws.{slugify-is_slug}
use fact_checker.Tests.Samples.{galadriel}

abbrev hash : WorkUnit → Str
hash unit = unit.body

abbrev options : Options ℕ
options = record {
  dry_run = false;
  limit = pos 2;
  budget_usd = 25;
  max_units = pos 1;
  max_attempts = pos 3;
  concurrency = pos 2;
  price_in = 0;
  price_out = 0;
}

abbrev ledger : List (Str × LedgerRow)
ledger = (codes "tg:galadriel", record { status = codes "done"; input_hash = codes "old" }) ∷ []

abbrev units : List WorkUnit
units = galadriel ∷ galadriel ∷ galadriel ∷ []

plan-exact_example :
    IsPlan hash
      (pos 1)
      (within hash (pos 2) (undone hash ledger units))
      (plan hash options ledger units new_stats)
plan-exact_example = plan-exact hash options ledger units

-- An endpoint that is always busy.
abbrev busy : Str → Str → ℕ → Called × ℕ
busy system user w = (gave_up (bad_status 503 []), suc w)

abbrev no_json : Json
no_json = record {
  decode_list = λ raw. none;
  decode_fields = λ block. err (codes "no object");
  decode_entity = λ t. err (codes "no entity");
  decode_event = λ t. err (codes "no event");
  decode_claim = λ t. err (codes "no claim");
  decode_relationship = λ t. err (codes "no relationship");
}

abbrev print : ℕ → Str
print n = n ∷ []

abbrev quote : Str → Str
quote s = s

abbrev job : UnitJob
job = record { unit = galadriel; system = codes "system"; user = codes "user" }

call_unit-Finished_example :
    Finished busy no_json print quote 3 (call_unit busy no_json print quote job 3 0).0
call_unit-Finished_example = call_unit-Finished busy no_json print quote job 3 0 (omega arith)

-- Two units, one worker: both are submitted in turn, one fails.
abbrev ended : Window
ended = record {
  next = 2;
  in_flight = 0;
  submitted = 2;
  stop_submitting = false;
  persist_error = false;
  done = 1;
  failed = 1;
}

one_by_one : Run 1 2 opened ended
one_by_one =
    submit (refl, refl, omega arith, omega arith)
    then receive_done refl (omega arith)
    then submit (refl, refl, omega arith, omega arith)
    then receive_failed refl (omega arith)
    then rest

Run-window_example : Inv 1 2 ended
Run-window_example = Run-window 1 2 one_by_one

Run-accounts_example : 2 ≡ 1 + 1 + deferred_at_end 2 0 ended
Run-accounts_example = Run-accounts 1 2 one_by_one refl refl

ended-HasEnded : HasEnded 1 2 ended
ended-HasEnded = (refl, λ (o, s, f, n). omega arith)

Run-complete_example : 2 ≡ 1 + 1
Run-complete_example = Run-complete 1 2 (omega arith) one_by_one refl refl ended-HasEnded

-- A database whose commits fail.
abbrev read_only : Database ℕ
read_only = record {
  begin = λ w. (none, w);
  write_model_output = λ unit r w. (none, w);
  load_records = λ v w. (none, w);
  finish_ledger_row = λ unit status counts drops error w. (none, w);
  commit = λ w. (some (codes "read-only"), w);
}

abbrev tracker : CostTracker ℕ
tracker = record {
  price_in = 0;
  price_out = 0;
  calls = 0;
  input_tokens = 0;
  output_tokens = 0;
  latencies = [];
}

abbrev known : KnownIds
known = record { entities = codes "g" ∷ []; events = []; claims = [] }

abbrev outcome : UnitOutcome
outcome = record {
  job = job;
  responses = [];
  wire = none;
  problems = [];
  error = codes "busy";
  attempts = 3;
  repairs = 0;
}

persist_outcome-Accounts_example :
    let r = persist_outcome read_only new_stats tracker known outcome 0 in
    Accounts new_stats r.stats known r.known r.error
persist_outcome-Accounts_example =
    persist_outcome-Accounts read_only new_stats tracker known outcome 0

abbrev query : Str → QueryEnd
query sql = rows (sql ∷ [])

abbrev check : Check
check = record {
  code = codes "orphan_claims";
  severity = severity_warning;
  description = [];
  query = codes "c1";
}

abbrev results : List CheckResult
results = (record { check = check; count = 1; samples = codes "c1" ∷ [] }) ∷ []

run_checks_one : run_checks query (check ∷ []) [] ≡ ok results
unfolding run_checks
run_checks_one = refl

run_checks-status_example :
    (map (λ (r : CheckResult). r.check) results ≡ check ∷ [])
    × All (IsReport query) results
    × ((status_for (error_count results) ≡ codes "ok") ↔ IsClean severity_error results)
run_checks-status_example = run_checks-status query (check ∷ []) results run_checks_one

-- The runes of a title of two Chinese characters.
abbrev runes : Str → List ℕ
runes title = 0x5317 ∷ 0x4eac ∷ []

slugify-is_slug_example : is_slug (slugify runes (codes "title")) ≡ true
slugify-is_slug_example = slugify-is_slug runes (codes "title")
