-- ===== src/Tests/Settings.antt =====
-- An environment with a few variables, and a prepared run.
use fact_checker.Base.{
  ltb, Bool, ℕ, ◌*◌, [], ◌∷◌, ◌≡◌, refl, length, Str, codes, ◌==◌, false, none, some, lookup,
  insert, ok, err, pos, negsuc, if◌then◌else◌,
}
use fact_checker.Config.{
  Price, Config, Parsers, Environment, getenv, getenv_duration, getenv_float, getenv_int,
  stage_interval, load_stage, load, validate_database,
}
use fact_checker.Config.Laws.{Reads, Parses, load-Reads}
use fact_checker.Llm.Types.{default_max_tokens, or_default}
use fact_checker.Llm.Call.{new_client, trim_trailing_slash}
use fact_checker.Cli.{
  Flags, Prepared, extract_options, make_client, prepare, run, extract_run_cmd, refuse,
}
use fact_checker.Cli.Laws.{IsReady, prepare-IsReady}

abbrev env : Environment
env key =
    if key == codes "FACTCHECK_DATABASE_URL"
    then some (codes "db")
    else if key == codes "FACTCHECK_AI_API_KEY"
    then some (codes "k")
    else if key == codes "FACTCHECK_MODEL_EXTRACT"
    then some (codes "m")
    else if key == codes "FACTCHECK_REQUEST_INTERVAL_EXTRACT"
    then some (codes "2s")
    else if key == codes "FACTCHECK_AI_TIMEOUT"
    then some []
    else none

-- A text parses to its length.
abbrev std : Parsers ℕ ℕ
std = record {
  parse_duration = λ s. ok (length s);
  parse_float = λ s. ok (length s);
  atoi = λ s. ok (pos (length s));
  float_zero = 0;
  milliseconds = λ n. n * 1000000;
}

abbrev strict : Parsers ℕ ℕ
strict = record std { parse_duration = λ s. err (codes "no unit") }

-- A malformed interval is an error that names its variable.
load-malformed : load env strict ≡ err (codes "FACTCHECK_REQUEST_INTERVAL_EXTRACT: no unit")
unfolding load getenv_duration getenv_float getenv_int load_stage stage_interval getenv ◌==◌
load-malformed = refl

env-Parses : Parses env std
unfolding getenv_duration getenv_float getenv_int stage_interval ◌==◌
env-Parses = record {
  ai_timeout = (_, refl);
  budget_total_usd = (_, refl);
  budget_per_run_usd = (_, refl);
  request_min_interval = (_, refl);
  extract_max_units = (_, refl);
  extract_concurrency = (_, refl);
  of_stages = (
    ((_, refl), (_, refl), (_, refl)),
    (
      ((_, refl), (_, refl), (_, refl)),
      (((_, refl), (_, refl), (_, refl)), (((_, refl), (_, refl), (_, refl)), tt)),
    ),
  );
}

abbrev free : Price ℕ
free = record { input = 0; output = 0 }

abbrev config : Config ℕ ℕ
config = record {
  database_url = codes "db";
  listen_addr = codes ":8080";
  log_level = codes "info";
  ai_base_url = codes "https://api.openai.com/v1";
  ai_key = codes "k";
  ai_timeout = 120000000000;
  models =
      (codes "extract", codes "m")
      ∷ (codes "validate", [])
      ∷ (codes "factcheck", [])
      ∷ (codes "review", [])
      ∷ [];
  prices =
      (codes "extract", free)
      ∷ (codes "validate", free)
      ∷ (codes "factcheck", free)
      ∷ (codes "review", free)
      ∷ [];
  budget_total_usd = 0;
  budget_per_run_usd = 0;
  request_min_interval = 500000000;
  stage_intervals = (codes "extract", 2) ∷ [];
  extract_max_units = pos 500;
  extract_concurrency = pos 1;
}

load-env : load env std ≡ ok config
unfolding load getenv_duration getenv_float getenv_int load_stage stage_interval getenv ◌==◌ insert
load-env = refl

load-Reads_example : Reads env std config
load-Reads_example = load-Reads env std config load-env

abbrev flags : Flags ℕ
flags = record {
  adapter_path = codes "arda.json";
  limit = pos 0;
  dry_run = false;
  budget = 0;
  max_units = negsuc 0;
  concurrency = pos 4;
  max_attempts = pos 0;
}

abbrev above_zero : ℕ → Bool
above_zero n = ltb 0 n

-- A manifest is its path, and every manifest is an adapter.
abbrev prepared : Prepared ℕ Str
prepared = record {
  config = config;
  adapter = codes "arda.json";
  client = some (record {
    api_key = codes "k";
    model = codes "m";
    base_url = codes "https://api.openai.com/v1";
    interval = 2;
    timeout = 120000000000;
    max_token = default_max_tokens;
  });
  options = extract_options 0 25 above_zero flags config;
}

prepare-flags : prepare env std 25 above_zero (λ path. ok path) (λ a. some a) flags ≡ ok prepared
unfolding prepare load getenv_duration getenv_float getenv_int load_stage stage_interval getenv ◌==◌
    insert validate_database make_client extract_options new_client trim_trailing_slash or_default
    lookup
prepare-flags = refl

prepare-IsReady_example : IsReady 25 above_zero env std flags prepared
prepare-IsReady_example =
    prepare-IsReady 25 above_zero env std (λ path. ok path) (λ a. some a) flags prepared
      prepare-flags

-- The command line.
commands :
    (run (codes "extract" ∷ codes "run" ∷ codes "--dry-run" ∷ [])
      ≡ extract_run_cmd (codes "--dry-run" ∷ []))
    × (run (codes "extract" ∷ []) ≡ refuse (codes "missing or unknown extract subcommand"))
    × (run (codes "validate" ∷ []) ≡ refuse (codes "missing or unknown command"))
unfolding run ◌==◌
commands = (refl, refl, refl)
