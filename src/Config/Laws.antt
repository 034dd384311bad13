-- ===== src/Config/Laws.antt =====
-- What a loaded configuration holds, and when it is loaded.
use fact_checker.Base.{
  Str, has, Distinct, List, [], ◌∷◌, ◌≡◌, refl, ◌∙◌, sym, ap, codes, ◌==◌, none, lookup, Result, ok,
  >>=-eq-ok, All, ℤ, pos,
}
use fact_checker.Config.Spec.{
  Follows, IsStage, ReadsStage-IsStage, os_getenv-Follows, getenv-Follows, getenv_duration-Follows,
  getenv_float-Follows, getenv_int-Follows,
}
use fact_checker.Config.Stages.{ReadsStage, load_stages_same, load_stages-reads}
use fact_checker.Config.{
  Stage, stages, Config, Parsers, Environment, getenv_duration, getenv_float, getenv_int,
  stage_interval, price_key, with_stage, load_stage, load_stages, base_config, two_minutes, load,
}

module _ (env : Environment) {F D : Type 0} (std : Parsers F D) where
  -- The stages, with the names that end their variables.
  abbrev pub named_stages : List (Stage × Str)
  named_stages =
      (codes "extract", codes "EXTRACT")
      ∷ (codes "validate", codes "VALIDATE")
      ∷ (codes "factcheck", codes "FACTCHECK")
      ∷ (codes "review", codes "REVIEW")
      ∷ []

  -- Every field is what its variable says, or the default where the variable is not set or empty.
  pub record Reads (cfg : Config F D) : Type 0 where
    pub database_url : Follows ok [] (env (codes "FACTCHECK_DATABASE_URL")) cfg.database_url
    pub listen_addr :
        Follows ok (codes ":8080") (env (codes "FACTCHECK_LISTEN_ADDR")) cfg.listen_addr
    pub log_level : Follows ok (codes "info") (env (codes "FACTCHECK_LOG_LEVEL")) cfg.log_level
    pub ai_base_url :
        Follows ok
          (codes "https://api.openai.com/v1")
          (env (codes "FACTCHECK_AI_BASE_URL"))
          cfg.ai_base_url
    pub ai_key : Follows ok [] (env (codes "FACTCHECK_AI_API_KEY")) cfg.ai_key
    pub ai_timeout :
        Follows std.parse_duration
          (std.milliseconds 120000)
          (env (codes "FACTCHECK_AI_TIMEOUT"))
          cfg.ai_timeout
    pub budget_total_usd :
        Follows std.parse_float std.float_zero
          (env (codes "FACTCHECK_BUDGET_TOTAL_USD"))
          cfg.budget_total_usd
    pub budget_per_run_usd :
        Follows std.parse_float std.float_zero
          (env (codes "FACTCHECK_BUDGET_PER_RUN_USD"))
          cfg.budget_per_run_usd
    pub request_min_interval :
        Follows std.parse_duration
          (std.milliseconds 500)
          (env (codes "FACTCHECK_REQUEST_MIN_INTERVAL"))
          cfg.request_min_interval
    pub extract_max_units :
        Follows std.atoi (pos 500) (env (codes "FACTCHECK_EXTRACT_MAX_UNITS")) cfg.extract_max_units
    pub extract_concurrency :
        Follows std.atoi
          (pos 1)
          (env (codes "FACTCHECK_EXTRACT_CONCURRENCY"))
          cfg.extract_concurrency
    pub of_stages : All (λ (s : Stage × Str). IsStage env std cfg s.0 s.1) named_stages

  stages-Distinct : Distinct stages
  unfolding has ◌==◌
  stages-Distinct = (refl, (refl, (refl, (refl, tt))))

  none_yet : (ss : List Stage) → All (λ s. lookup {V = D} s [] ≡ none) ss
  unfolding lookup
  none_yet [] = tt
  none_yet (s ∷ ss) = (refl, none_yet ss)

  -- The fields that the loop over the stages starts from.
  module _ (timeout : D) (total per_run : F) (min_interval : D) (max_units concurrency : ℤ)
      (cfg : Config F D) where
    abbrev before : Config F D
    before = base_config env std timeout total per_run min_interval max_units concurrency

    base_config-Reads :
        getenv_duration env std (codes "FACTCHECK_AI_TIMEOUT") (two_minutes env std) ≡ ok timeout
        → getenv_float env std (codes "FACTCHECK_BUDGET_TOTAL_USD") std.float_zero ≡ ok total
        → getenv_float env std (codes "FACTCHECK_BUDGET_PER_RUN_USD") std.float_zero ≡ ok per_run
        → getenv_duration env std (codes "FACTCHECK_REQUEST_MIN_INTERVAL") (std.milliseconds 500)
          ≡ ok min_interval
        → getenv_int env std (codes "FACTCHECK_EXTRACT_MAX_UNITS") (pos 500) ≡ ok max_units
        → getenv_int env std (codes "FACTCHECK_EXTRACT_CONCURRENCY") (pos 1) ≡ ok concurrency
        → cfg ≡ record before {
          models = cfg.models;
          prices = cfg.prices;
          stage_intervals = cfg.stage_intervals;
        }
        → All (ReadsStage env std cfg) stages
        → Reads cfg
    base_config-Reads t b p i m c same staged = record {
      database_url =
          rw (ap (λ (c : Config F D). c.database_url) same)
            (os_getenv-Follows env (codes "FACTCHECK_DATABASE_URL"));
      listen_addr =
          rw (ap (λ (c : Config F D). c.listen_addr) same)
            (getenv-Follows env (codes "FACTCHECK_LISTEN_ADDR") (codes ":8080"));
      log_level =
          rw (ap (λ (c : Config F D). c.log_level) same)
            (getenv-Follows env (codes "FACTCHECK_LOG_LEVEL") (codes "info"));
      ai_base_url =
          rw (ap (λ (c : Config F D). c.ai_base_url) same) (
            getenv-Follows env (codes "FACTCHECK_AI_BASE_URL") (codes "https://api.openai.com/v1"));
      ai_key =
          rw (ap (λ (c : Config F D). c.ai_key) same)
            (os_getenv-Follows env (codes "FACTCHECK_AI_API_KEY"));
      ai_timeout =
          getenv_duration-Follows env std (codes "FACTCHECK_AI_TIMEOUT") (std.milliseconds 120000)
            cfg.ai_timeout (t ∙ ap (λ (c : Config F D). ok c.ai_timeout) (sym same));
      budget_total_usd =
          getenv_float-Follows env std (codes "FACTCHECK_BUDGET_TOTAL_USD") std.float_zero
            cfg.budget_total_usd (b ∙ ap (λ (c : Config F D). ok c.budget_total_usd) (sym same));
      budget_per_run_usd =
          getenv_float-Follows env std (codes "FACTCHECK_BUDGET_PER_RUN_USD") std.float_zero
            cfg.budget_per_run_usd
            (p ∙ ap (λ (c : Config F D). ok c.budget_per_run_usd) (sym same));
      request_min_interval =
          getenv_duration-Follows env std (codes "FACTCHECK_REQUEST_MIN_INTERVAL")
            (std.milliseconds 500) cfg.request_min_interval
            (i ∙ ap (λ (c : Config F D). ok c.request_min_interval) (sym same));
      extract_max_units =
          getenv_int-Follows env std (codes "FACTCHECK_EXTRACT_MAX_UNITS") (pos 500)
            cfg.extract_max_units (m ∙ ap (λ (c : Config F D). ok c.extract_max_units) (sym same));
      extract_concurrency =
          getenv_int-Follows env std (codes "FACTCHECK_EXTRACT_CONCURRENCY") (pos 1)
            cfg.extract_concurrency
            (c ∙ ap (λ (c : Config F D). ok c.extract_concurrency) (sym same));
      of_stages = (
        ReadsStage-IsStage env std cfg (codes "extract") staged.0,
        (
          ReadsStage-IsStage env std cfg (codes "validate") staged.1.0,
          (
            ReadsStage-IsStage env std cfg (codes "factcheck") staged.1.1.0,
            (ReadsStage-IsStage env std cfg (codes "review") staged.1.1.1.0, tt),
          ),
        ),
      );
    }

  -- When `Load` succeeds, every field of the configuration is what its variable says: a text is the
  -- value, a duration, a number or a price is what the parser makes of the value, and a variable
  -- that is not set or empty gives the default. A stage has an interval of its own exactly when its
  -- variable is set and not empty. So a malformed value is never a silent default.
  pub load-Reads : (cfg : Config F D) → load env std ≡ ok cfg → Reads cfg
  unfolding load
  load-Reads cfg h =
      let (timeout, t, h1) =
        >>=-eq-ok (getenv_duration env std (codes "FACTCHECK_AI_TIMEOUT") (two_minutes env std)) _
          h in
      let (total, b, h2) =
        >>=-eq-ok (getenv_float env std (codes "FACTCHECK_BUDGET_TOTAL_USD") std.float_zero) _ h1 in
      let (per_run, p, h3) =
        >>=-eq-ok (getenv_float env std (codes "FACTCHECK_BUDGET_PER_RUN_USD") std.float_zero) _
          h2 in
      let (min_interval, i, h4) =
        >>=-eq-ok
          (getenv_duration env std (codes "FACTCHECK_REQUEST_MIN_INTERVAL") (std.milliseconds 500))
          _ h3 in
      let (max_units, m, h5) =
        >>=-eq-ok (getenv_int env std (codes "FACTCHECK_EXTRACT_MAX_UNITS") (pos 500)) _ h4 in
      let (concurrency, c, h6) =
        >>=-eq-ok (getenv_int env std (codes "FACTCHECK_EXTRACT_CONCURRENCY") (pos 1)) _ h5 in
      base_config-Reads timeout total per_run min_interval max_units concurrency cfg t b p i m c
        (load_stages_same env std stages
          (base_config env std timeout total per_run min_interval max_units concurrency) cfg h6)
        (load_stages-reads env std stages
          (base_config env std timeout total per_run min_interval max_units concurrency) cfg
          stages-Distinct (none_yet stages) h6)

  -- The numbers, the prices and the durations of the environment parse.
  abbrev Ok {ℓ} : {T : Type ℓ} → Result T → Type ℓ
  Ok {T = T} r = (v : T) × (r ≡ ok v)

  pub record Parses : Type 0 where
    pub ai_timeout :
        Ok (getenv_duration env std (codes "FACTCHECK_AI_TIMEOUT") (two_minutes env std))
    pub budget_total_usd :
        Ok (getenv_float env std (codes "FACTCHECK_BUDGET_TOTAL_USD") std.float_zero)
    pub budget_per_run_usd :
        Ok (getenv_float env std (codes "FACTCHECK_BUDGET_PER_RUN_USD") std.float_zero)
    pub request_min_interval :
        Ok (getenv_duration env std (codes "FACTCHECK_REQUEST_MIN_INTERVAL") (std.milliseconds 500))
    pub extract_max_units : Ok (getenv_int env std (codes "FACTCHECK_EXTRACT_MAX_UNITS") (pos 500))
    pub extract_concurrency :
        Ok (getenv_int env std (codes "FACTCHECK_EXTRACT_CONCURRENCY") (pos 1))
    pub of_stages :
        All
          (λ stage.
            Ok (getenv_float env std (price_key env std stage (codes "_INPUT")) std.float_zero)
            × Ok (getenv_float env std (price_key env std stage (codes "_OUTPUT")) std.float_zero)
            × Ok (stage_interval env std stage))
          stages

  load_stages-Ok :
      (ss : List Stage) (cfg : Config F D)
      → All
          (λ stage.
            Ok (getenv_float env std (price_key env std stage (codes "_INPUT")) std.float_zero)
            × Ok (getenv_float env std (price_key env std stage (codes "_OUTPUT")) std.float_zero)
            × Ok (stage_interval env std stage))
          ss
      → Ok (load_stages env std ss cfg)
  unfolding load_stages load_stage
  load_stages-Ok [] cfg h = (cfg, refl)
  load_stages-Ok (s ∷ ss) cfg h =
      let ((input, i), (output, o), (interval, d)) = h.0 in
      rw (i, o, d)
        (load_stages-Ok ss
          (with_stage env std s (record { input = input; output = output }) interval cfg) h.1)

  -- When the duration, number and price variables that are set and not empty parse, `Load` succeeds.
  pub load-Parses : Parses → (cfg : Config F D) × (load env std ≡ ok cfg)
  unfolding load
  load-Parses h =
      let (timeout, t) = h.ai_timeout in
      let (total, b) = h.budget_total_usd in
      let (per_run, p) = h.budget_per_run_usd in
      let (min_interval, i) = h.request_min_interval in
      let (max_units, m) = h.extract_max_units in
      let (concurrency, c) = h.extract_concurrency in
      rw (t, b, p, i, m, c)
        (load_stages-Ok stages
          (base_config env std timeout total per_run min_interval max_units concurrency)
          h.of_stages)
