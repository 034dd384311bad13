-- ===== src/Ledger.antt =====
-- The extraction ledger, the table extraction_units: `UpsertLedgerRow`, `FinishLedgerRow` and
-- `LedgerState` of extract/loader.go. A row keeps what a unit was given and what came of it.
pub mod Laws
pub mod Resume
use fact_checker.Base.{
  ℕ, suc, List, [], ◌∷◌, ◌++◌, map, any, Str, codes, Bool, ◌&&◌, ◌==◌, Option, none, some, insert,
  if◌then◌else◌,
}
use fact_checker.Extract.{WorkUnit}
use fact_checker.Validate.Types.{Drop}
use fact_checker.Runner.Plan.{LedgerRow}

-- PromptVersion
abbrev pub prompt_version : Str
prompt_version = codes "extract-001"

-- A row of the table. The time of completion is a number.
pub record UnitRow : Type 0 where
  pub raw_document_id : ℕ
  pub unit_key : Str
  pub version : Str
  pub model : Str
  pub status : Str
  pub attempts : ℕ
  pub last_error : Option Str
  pub input_hash : Str
  pub records : List (Str × ℕ)
  pub dropped : List Drop
  pub run_id : ℕ
  pub completed_at : Option ℕ

abbrev pub Table : Type 0
Table = List UnitRow

-- The row's key is that of the unit under the prompt version.
abbrev pub is_of : WorkUnit → UnitRow → Bool
is_of unit row = row.unit_key == unit.unit_key && row.version == prompt_version

abbrev pub mark_pending : WorkUnit → Str → Str → ℕ → UnitRow → UnitRow
mark_pending unit model input_hash run_id row =
    if is_of unit row
    then record row {
      model = model;
      status = codes "pending";
      input_hash = input_hash;
      run_id = run_id;
      last_error = none;
    }
    else row

-- A new row has the defaults of the table.
abbrev pub new_row : WorkUnit → Str → Str → ℕ → UnitRow
new_row unit model input_hash run_id = record {
  raw_document_id = unit.document_id;
  unit_key = unit.unit_key;
  version = prompt_version;
  model = model;
  status = codes "pending";
  attempts = 0;
  last_error = none;
  input_hash = input_hash;
  records = [];
  dropped = [];
  run_id = run_id;
  completed_at = none;
}

unfoldable pub upsert_ledger_row : WorkUnit → Str → Str → ℕ → Table → Table
upsert_ledger_row unit model input_hash run_id table =
    if any (is_of unit) table
    then map (mark_pending unit model input_hash run_id) table
    else table ++ new_row unit model input_hash run_id ∷ []

abbrev or_null : Str → Option Str
or_null last_error = if last_error == [] then none else some last_error

abbrev pub mark_finished : WorkUnit → Str → List (Str × ℕ) → List Drop → Str → ℕ → UnitRow → UnitRow
mark_finished unit status counts dropped last_error now row =
    if is_of unit row
    then record row {
      status = status;
      attempts = suc row.attempts;
      last_error = or_null last_error;
      records = counts;
      dropped = dropped;
      completed_at = some now;
    }
    else row

unfoldable pub finish_ledger_row :
    WorkUnit → Str → List (Str × ℕ) → List Drop → Str → ℕ → Table → Table
finish_ledger_row unit status counts dropped last_error now table =
    map (mark_finished unit status counts dropped last_error now) table

-- The rows of the prompt version, by their unit keys.
state_loop : List (Str × LedgerRow) → Table → List (Str × LedgerRow)
state_loop state [] = state
state_loop state (row ∷ table) =
    let state' =
      insert row.unit_key (record { status = row.status; input_hash = row.input_hash }) state in
    state_loop (if row.version == prompt_version then state' else state) table

unfoldable pub ledger_state : Table → List (Str × LedgerRow)
unfolding state_loop
ledger_state table = state_loop [] table
