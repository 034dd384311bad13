-- ===== src/Config.antt =====
-- internal/config/config.go: `Load`, `ValidateDatabase` and what reads the environment. The
-- environment is a function, as `os.LookupEnv`; the parsers of package time and of package strconv
-- and the values of float64 and time.Duration are parameters.
pub mod Stages
pub mod Spec
pub mod Laws
use fact_checker.Base.{
  ℕ, ◌-◌, leb, List, [], ◌∷◌, ◌++◌, map, Str, codes, ◌&&◌, ◌==◌, Option, none, some, insert, Result,
  ok, err, ◌>>=◌, ℤ, pos, if◌then◌else◌,
}

-- `Stage` is a string.
abbrev pub Stage : Type 0
Stage = Str

abbrev pub stage_extract : Stage
stage_extract = codes "extract"

abbrev pub stages : List Stage
stages = stage_extract ∷ codes "validate" ∷ codes "factcheck" ∷ codes "review" ∷ []

pub record Price (F : Type 0) : Type 0 where
  pub input : F
  pub output : F

pub record Config (F D : Type 0) : Type 0 where
  pub database_url : Str
  pub listen_addr : Str
  pub log_level : Str
  pub ai_base_url : Str
  pub ai_key : Str
  pub ai_timeout : D
  pub models : List (Stage × Str)
  pub prices : List (Stage × Price F)
  pub budget_total_usd : F
  pub budget_per_run_usd : F
  pub request_min_interval : D
  pub stage_intervals : List (Stage × D)
  pub extract_max_units : ℤ
  pub extract_concurrency : ℤ

-- The functions of the standard library, and values of its types.
pub record Parsers (F D : Type 0) : Type 0 where
  pub parse_duration : Str → Result D
  pub parse_float : Str → Result F
  pub atoi : Str → Result ℤ
  pub float_zero : F
  pub milliseconds : ℕ → D

abbrev upper_byte : ℕ → ℕ
upper_byte c = if leb b'a' c && leb c b'z' then c - 32 else c

abbrev pub upper : Str → Str
upper s = map upper_byte s

-- `os.LookupEnv`
abbrev pub Environment : Type 0
Environment = Str → Option Str

module _ (env : Environment) where
  abbrev pub or_empty : Option Str → Str
  or_empty none = []
  or_empty (some v) = v

  -- `os.Getenv`
  abbrev pub os_getenv : Str → Str
  os_getenv key = or_empty (env key)

  abbrev pub default_to : Str → Option Str → Str
  default_to default none = default
  default_to default (some v) = if v == [] then default else v

  unfoldable pub getenv : Str → Str → Str
  getenv key default = default_to default (env key)

  -- An error of a parser, under the name of the variable.
  abbrev pub under {ℓ} : {T : Type ℓ} → Str → Result T → Result T
  under key (ok v) = ok v
  under key (err message) = err (key ++ codes ": " ++ message)

  -- The body that getenvDuration, getenvFloat and getenvInt share.
  abbrev pub parse_or {ℓ} : {T : Type ℓ} → (Str → Result T) → Str → T → Option Str → Result T
  parse_or parse key default none = ok default
  parse_or parse key default (some raw) = if raw == [] then ok default else under key (parse raw)

  module _ {F D : Type 0} (std : Parsers F D) where
    unfoldable pub getenv_duration : Str → D → Result D
    getenv_duration key default = parse_or std.parse_duration key default (env key)

    unfoldable pub getenv_float : Str → F → Result F
    getenv_float key default = parse_or std.parse_float key default (env key)

    unfoldable pub getenv_int : Str → ℤ → Result ℤ
    getenv_int key default = parse_or std.atoi key default (env key)

    -- The optional interval of a stage.
    abbrev pub interval_of : Stage → Str → Result (Option D)
    interval_of stage raw =
        if raw == []
        then ok none
        else under (codes "FACTCHECK_REQUEST_INTERVAL_" ++ upper stage) (std.parse_duration raw)
          >>= λ d. ok (some d)

    unfoldable pub stage_interval : Stage → Result (Option D)
    stage_interval stage =
        interval_of stage (os_getenv (codes "FACTCHECK_REQUEST_INTERVAL_" ++ upper stage))

    abbrev pub set_interval : Stage → Option D → List (Stage × D) → List (Stage × D)
    set_interval stage none intervals = intervals
    set_interval stage (some d) intervals = insert stage d intervals

    abbrev pub price_key : Stage → Str → Str
    price_key stage end = codes "FACTCHECK_PRICE_MTOK_" ++ upper stage ++ end

    abbrev pub model_key : Stage → Str
    model_key stage = codes "FACTCHECK_MODEL_" ++ upper stage

    abbrev pub with_stage : Stage → Price F → Option D → Config F D → Config F D
    with_stage stage price interval cfg = record cfg {
      models = insert stage (os_getenv (model_key stage)) cfg.models;
      prices = insert stage price cfg.prices;
      stage_intervals = set_interval stage interval cfg.stage_intervals;
    }

    -- The body of the loop over the stages.
    unfoldable pub load_stage : Stage → Config F D → Result (Config F D)
    unfolding getenv_float stage_interval
    load_stage stage cfg =
        getenv_float (price_key stage (codes "_INPUT")) std.float_zero >>= λ input.
        getenv_float (price_key stage (codes "_OUTPUT")) std.float_zero >>= λ output.
        stage_interval stage >>= λ interval.
        ok (with_stage stage (record { input = input; output = output }) interval cfg)

    pub load_stages : List Stage → Config F D → Result (Config F D)
    unfolding load_stage
    load_stages [] cfg = ok cfg
    load_stages (stage ∷ rest) cfg = load_stage stage cfg >>= λ next. load_stages rest next

    abbrev pub base_config : D → F → F → D → ℤ → ℤ → Config F D
    base_config timeout total per_run min_interval max_units concurrency = record {
      database_url = os_getenv (codes "FACTCHECK_DATABASE_URL");
      listen_addr = getenv (codes "FACTCHECK_LISTEN_ADDR") (codes ":8080");
      log_level = getenv (codes "FACTCHECK_LOG_LEVEL") (codes "info");
      ai_base_url = getenv (codes "FACTCHECK_AI_BASE_URL") (codes "https://api.openai.com/v1");
      ai_key = os_getenv (codes "FACTCHECK_AI_API_KEY");
      ai_timeout = timeout;
      models = [];
      prices = [];
      budget_total_usd = total;
      budget_per_run_usd = per_run;
      request_min_interval = min_interval;
      stage_intervals = [];
      extract_max_units = max_units;
      extract_concurrency = concurrency;
    }

    abbrev pub two_minutes : D
    two_minutes = std.milliseconds 120000

    unfoldable pub load : Result (Config F D)
    unfolding getenv getenv_duration getenv_float getenv_int load_stages
    load = getenv_duration (codes "FACTCHECK_AI_TIMEOUT") two_minutes >>= λ timeout.
        getenv_float (codes "FACTCHECK_BUDGET_TOTAL_USD") std.float_zero >>= λ total.
        getenv_float (codes "FACTCHECK_BUDGET_PER_RUN_USD") std.float_zero >>= λ per_run.
        getenv_duration (codes "FACTCHECK_REQUEST_MIN_INTERVAL") (std.milliseconds 500)
        >>= λ min_interval.
            getenv_int (codes "FACTCHECK_EXTRACT_MAX_UNITS") (pos 500) >>= λ max_units.
            getenv_int (codes "FACTCHECK_EXTRACT_CONCURRENCY") (pos 1) >>= λ concurrency.
            load_stages stages
              (base_config timeout total per_run min_interval max_units concurrency)

-- The error of `ValidateDatabase`, if there is one.
unfoldable pub validate_database : {F D : Type 0} → Config F D → Option Str
validate_database cfg =
    if cfg.database_url == []
    then some (codes "FACTCHECK_DATABASE_URL is required (see .env.example)")
    else none
