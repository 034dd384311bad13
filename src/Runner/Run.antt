-- ===== src/Runner/Run.antt =====
-- `Run`, `beginRun` and `finishRun` of extract/runner.go, over the table pipeline_runs. `execute` is
-- given: it gets the options as `Run` corrects them and the id of the row. A JSON column is not kept.
pub mod Row
use fact_checker.Base.{
  ℤ, pos, negsuc, suc, zero, ℕ, leb, List, [], ◌∷◌, ◌++◌, map, length, take, Str, codes, Bool, not,
  ◌&&◌, eqb, Option, none, some, if◌then◌else◌,
}
use fact_checker.Runner.Types.{Options, Stats, new_stats}

abbrev pub at_least_one : ℤ → ℤ
at_least_one (pos zero) = pos 1
at_least_one (pos (suc n)) = pos (suc n)
at_least_one (negsuc n) = pos 1

-- The first lines of `Run` of extract/runner.go.
unfoldable pub normalize : {F : Type 0} → Options F → Options F
normalize opts = record opts {
  max_attempts = at_least_one opts.max_attempts;
  concurrency = at_least_one opts.concurrency;
}

-- A row of pipeline_runs.
pub record RunRow : Type 0 where
  pub id : ℕ
  pub run_kind : Str
  pub status : Str
  pub notes : Option Str

abbrev pub Runs : Type 0
Runs = List RunRow

abbrev pub running : ℕ → RunRow
running id = record { id = id; run_kind = codes "extract"; status = codes "running"; notes = none }

-- The id is what the database gives.
unfoldable pub begin_run : ℕ → Runs → Runs
begin_run id runs = runs ++ running id ∷ []

abbrev pub status_of : Option Str → Str
status_of none = codes "ok"
status_of (some message) = codes "failed"

abbrev pub cut_message : Str → Str
cut_message message = if leb (length message) 2000 then message else take 2000 message

abbrev pub notes_of : Option Str → Option Str
notes_of none = none
notes_of (some message) = some (cut_message message)

abbrev pub end_row : ℕ → Option Str → RunRow → RunRow
end_row id run_error row =
    if eqb row.id id
    then record row { status = status_of run_error; notes = notes_of run_error }
    else row

unfoldable pub finish_run : ℕ → Option Str → Runs → Runs
finish_run id run_error runs = map (end_row id run_error) runs

-- What `Run` returns: the statistics, if there are any, and the error; and the rows.
pub record Ended : Type 0 where
  pub stats : Option Stats
  pub error : Option Str
  pub runs : Runs

-- The errors of the two statements on pipeline_runs.
pub record Faults : Type 0 where
  pub begin : Option Str
  pub finish : Option Str

module _ {F : Type 0} (execute : Options F → ℕ → Stats → Stats × Option Str) (faults : Faults) where
  abbrev record_outcome : ℕ → Stats × Option Str → Option Str → Runs → Ended
  record_outcome id (stats, run_error) (some e) runs = record {
    stats = some stats;
    error = some (codes "extract: record run outcome: " ++ e);
    runs = runs;
  }
  record_outcome id (stats, run_error) none runs = record {
    stats = some stats;
    error = run_error;
    runs = finish_run id run_error runs;
  }

  abbrev begun : Options F → ℕ → Option Str → Runs → Ended
  begun opts id (some e) runs = record {
    stats = none;
    error = some (codes "extract: insert pipeline run: " ++ e);
    runs = runs;
  }
  begun opts id none runs =
      record_outcome id (execute (normalize opts) id new_stats) faults.finish (begin_run id runs)

  -- `has_client` says whether there is a client.
  unfoldable pub run_extraction : Options F → Bool → ℕ → Runs → Ended
  unfolding begin_run finish_run
  run_extraction opts has_client id runs =
      if not opts.dry_run && not has_client
      then record {
        stats = none;
        error = some (codes "extract: client is required unless dry-run");
        runs = runs;
      }
      else begun opts id faults.begin runs
