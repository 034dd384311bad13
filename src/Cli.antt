-- ===== src/Cli.antt =====
-- cmd/fact-checker/main.go: the choice of a command, and what `extract run` does before the run. The
-- parsing of the flags, the manifests and the adapters are parameters. A duration is a number of
-- nanoseconds; one that is negative is not modelled.
pub mod Laws
use fact_checker.Base.{
  ℕ, ltb, List, [], ◌∷◌, ◌++◌, Str, codes, Bool, not, ◌||◌, ◌==◌, Option, none, some, lookup,
  Result, ok, err, ◌>>=◌, ℤ, is_positive, if◌then◌else◌,
}
use fact_checker.Runner.Types.{Options}
use fact_checker.Config.{
  stage_extract, Price, Config, Parsers, Environment, load, validate_database,
}
use fact_checker.Llm.Types.{Client}
use fact_checker.Llm.Call.{new_client}

-- What `run` and `extractCmd` call, or the error that they return.
pub data Command : Type 0 where
  serve : Command
  migrate_only : Command
  integrity_cmd : Command
  extract_run_cmd : List Str → Command
  extract_status_cmd : Command
  print_version : Command
  print_usage : Command
  refuse : Str → Command

abbrev extract_cmd : List Str → Command
extract_cmd [] = refuse (codes "missing or unknown extract subcommand")
extract_cmd (sub ∷ args) =
    if sub == codes "run"
    then extract_run_cmd args
    else if sub == codes "status"
    then extract_status_cmd
    else refuse (codes "missing or unknown extract subcommand")

unfoldable pub run : List Str → Command
run [] = refuse (codes "missing or unknown command")
run (cmd ∷ args) =
    if cmd == codes "serve"
    then serve
    else if cmd == codes "migrate"
    then migrate_only
    else if cmd == codes "integrity"
    then integrity_cmd
    else if cmd == codes "extract"
    then extract_cmd args
    else if cmd == codes "version"
    then print_version
    else if cmd == codes "help" || cmd == codes "-h" || cmd == codes "--help"
    then print_usage
    else refuse (codes "missing or unknown command")

-- The flags of `extract run`.
pub record Flags (F : Type 0) : Type 0 where
  pub adapter_path : Str
  pub limit : ℤ
  pub dry_run : Bool
  pub budget : F
  pub max_units : ℤ
  pub concurrency : ℤ
  pub max_attempts : ℤ

abbrev input_of : {F : Type 0} → F → Option (Price F) → F
input_of zero_price none = zero_price
input_of zero_price (some price) = price.input

abbrev output_of : {F : Type 0} → F → Option (Price F) → F
output_of zero_price none = zero_price
output_of zero_price (some price) = price.output

-- A missing key of a map of strings gives the empty string.
abbrev pub text_of : Option Str → Str
text_of none = []
text_of (some s) = s

-- The interval of the stage, if there is one above zero, or else the global one.
abbrev pub choose_interval : ℕ → Option ℕ → ℕ
choose_interval interval none = interval
choose_interval interval (some override) = if ltb 0 override then override else interval

module _ {F : Type 0} (float_zero default_budget : F) (above_zero : F → Bool) where
  -- `DefaultOptions` with what the flags and the configuration say.
  unfoldable pub extract_options : Flags F → Config F ℕ → Options F
  extract_options flags cfg = record {
    dry_run = flags.dry_run;
    limit = flags.limit;
    budget_usd =
        if above_zero flags.budget
        then flags.budget
        else if above_zero cfg.budget_per_run_usd
        then cfg.budget_per_run_usd
        else default_budget;
    max_units = if is_positive flags.max_units then flags.max_units else cfg.extract_max_units;
    max_attempts = flags.max_attempts;
    concurrency =
        if is_positive flags.concurrency then flags.concurrency else cfg.extract_concurrency;
    price_in = input_of float_zero (lookup stage_extract cfg.prices);
    price_out = output_of float_zero (lookup stage_extract cfg.prices);
  }

-- What `extractRunCmd` hands to `Run`; without a client when the run is dry.
pub record Prepared (F A : Type 0) : Type 0 where
  pub config : Config F ℕ
  pub adapter : A
  pub client : Option Client
  pub options : Options F

abbrev pub require_database : {F : Type 0} → Config F ℕ → Option Str → Result (Config F ℕ)
require_database cfg none = ok cfg
require_database cfg (some message) = err message

abbrev pub require_adapter : {A : Type 0} → Str → Option A → Result A
require_adapter path none =
    err (codes "adapter " ++ path ++ codes " does not implement the extraction contract")
require_adapter path (some adapter) = ok adapter

abbrev pub some_client : Result Client → Result (Option Client)
some_client (ok client) = ok (some client)
some_client (err message) = err message

-- The client of a run that is not dry.
unfoldable pub make_client : {F : Type 0} → Bool → Config F ℕ → Result (Option Client)
make_client dry_run cfg =
    let model = text_of (lookup stage_extract cfg.models) in
    if dry_run
    then ok none
    else if cfg.ai_key == [] || model == []
    then err
        (codes "extraction needs FACTCHECK_AI_API_KEY and FACTCHECK_MODEL_EXTRACT (or --dry-run)")
    else some_client (
        new_client cfg.ai_key model cfg.ai_base_url (record {
          request_interval =
              choose_interval cfg.request_min_interval (lookup stage_extract cfg.stage_intervals);
          timeout = cfg.ai_timeout;
          max_tokens = 0;
        }))

module _ {F L A : Type 0} (env : Environment) (std : Parsers F ℕ) (default_budget : F)
    (above_zero : F → Bool) (load_manifest : Str → Result L) (as_adapter : L → Option A) where
  unfoldable pub prepare : Flags F → Result (Prepared F A)
  unfolding make_client extract_options
  prepare flags =
      if flags.adapter_path == []
      then err (codes "--adapter is required")
      else load env std >>= λ cfg. require_database cfg (validate_database cfg) >>= λ cfg'.
          load_manifest flags.adapter_path >>= λ loaded.
          require_adapter flags.adapter_path (as_adapter loaded) >>= λ adapter.
          make_client flags.dry_run cfg' >>= λ client. ok (record {
            config = cfg';
            adapter = adapter;
            client = client;
            options = extract_options std.float_zero default_budget above_zero flags cfg';
          })
