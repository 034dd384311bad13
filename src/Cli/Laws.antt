-- ===== src/Cli/Laws.antt =====
-- What holds of an extraction run that is prepared.
use fact_checker.Base.{
  ℕ, zero, suc, [], ◌≡◌, ◌≢◌, refl, sym, ◌∙◌, ap, subst, Str, codes, Bool, true, false, ◌==◌,
  ==_refl, ◌||◌, ||-false, Option, none, some, lookup, Result, ok, err, >>=-eq-ok, ℤ, pos, negsuc,
  if◌then◌else◌, arith,
}
use fact_checker.Runner.Run.{at_least_one, normalize}
use fact_checker.Config.{stage_extract, Config, Parsers, Environment, load, validate_database}
use fact_checker.Config.Spec.{Follows}
use fact_checker.Config.Laws.{Reads, load-Reads}
use fact_checker.Llm.Types.{Client, ClientOptions}
use fact_checker.Llm.Call.{new_client}
use fact_checker.Cli.{
  Flags, Prepared, extract_options, require_database, require_adapter, some_client, text_of,
  make_client, prepare,
}

at_least_one-pos : (n : ℤ) → (m : ℕ) × (at_least_one n ≡ pos (suc m))
at_least_one-pos (pos zero) = (0, refl)
at_least_one-pos (pos (suc n)) = (n, refl)
at_least_one-pos (negsuc n) = (0, refl)

module _ {F : Type 0} (default_budget : F) (above_zero : F → Bool) (env : Environment)
    (std : Parsers F ℕ) where
  -- The client talks to the extraction model with the key of the environment, and both are there.
  pub record IsClientOf (cfg : Config F ℕ) (client : Client) : Type 0 where
    pub key : client.api_key ≡ cfg.ai_key
    pub key_there : client.api_key ≢ []
    pub model : Follows ok [] (env (codes "FACTCHECK_MODEL_EXTRACT")) client.model
    pub model_there : client.model ≢ []

  pub record IsReady {A : Type 0} (flags : Flags F) (p : Prepared F A) : Type 0 where
    pub has_adapter : flags.adapter_path ≢ []
    pub configured : Reads env std p.config
    pub has_database : p.config.database_url ≢ []
    pub dry : flags.dry_run ≡ true → p.client ≡ none
    pub wet :
        flags.dry_run ≡ false
        → (client : Client) × (p.client ≡ some client) × IsClientOf p.config client
    pub options :
        p.options ≡ extract_options std.float_zero default_budget above_zero flags p.config
    pub workers : (n : ℕ) × ((normalize p.options).concurrency ≡ pos (suc n))
    pub attempts : (n : ℕ) × ((normalize p.options).max_attempts ≡ pos (suc n))

  not_empty : (s : Str) → (s == []) ≡ false → s ≢ []
  not_empty s h e = ground (arith, ap (λ t. t == []) e, ==_refl [])

  if_false {ℓ} :
      {T : Type ℓ} (b : Bool) (message : Str) (r : Result T) (v : T)
      → (if b then err message else r) ≡ ok v
      → (b ≡ false) × (r ≡ ok v)
  if_false true message r v h = cc
  if_false false message r v h = (refl, h)

  ok_same : {T : Type 0} {x y : T} → ok x ≡ ok y → x ≡ y
  ok_same h = cc

  require_database-cases :
      (b : Bool) (message : Str) (cfg cfg' : Config F ℕ)
      → require_database cfg (if b then some message else none) ≡ ok cfg'
      → (b ≡ false) × (cfg ≡ cfg')
  require_database-cases true message cfg cfg' h = cc
  require_database-cases false message cfg cfg' h = (refl, ok_same h)

  require_database-ok :
      (cfg cfg' : Config F ℕ)
      → require_database cfg (validate_database cfg) ≡ ok cfg'
      → (cfg ≡ cfg') × (cfg.database_url ≢ [])
  unfolding validate_database
  require_database-ok cfg cfg' h =
      let (there, same) = require_database-cases (cfg.database_url == []) _ cfg cfg' h in
      (same, not_empty cfg.database_url there)

  new_client-IsClientOf :
      (cfg : Config F ℕ) (model : Str) (opts : ClientOptions) (client : Client)
      → new_client cfg.ai_key model cfg.ai_base_url opts ≡ ok client
      → (client.api_key ≡ cfg.ai_key) × (client.model ≡ model)
  unfolding new_client
  new_client-IsClientOf cfg model opts client h =
      let (key, h1) = if_false (cfg.ai_key == []) _ _ client h in
      let (there, h2) = if_false (model == []) _ _ client h1 in
      (
        sym (ap (λ (c : Client). c.api_key) (ok_same h2)),
        sym (ap (λ (c : Client). c.model) (ok_same h2)),
      )

  some_client-ok :
      (r : Result Client) (client : Option Client)
      → some_client r ≡ ok client
      → (c : Client) × (client ≡ some c) × (r ≡ ok c)
  some_client-ok (ok c) client h = (c, sym (ok_same h), refl)
  some_client-ok (err message) client h = cc

  make_client-dry :
      (dry_run : Bool) (cfg : Config F ℕ) (client : Option Client)
      → make_client dry_run cfg ≡ ok client
      → dry_run ≡ true
      → client ≡ none
  unfolding make_client
  make_client-dry true cfg client h dry = sym (ok_same h)
  make_client-dry false cfg client h dry = cc

  make_client-wet :
      (dry_run : Bool) (cfg : Config F ℕ) (client : Option Client)
      → Reads env std cfg
      → make_client dry_run cfg ≡ ok client
      → dry_run ≡ false
      → (c : Client) × (client ≡ some c) × IsClientOf cfg c
  unfolding make_client
  make_client-wet true cfg client reads h wet = cc
  make_client-wet false cfg client reads h wet =
      let model = text_of (lookup stage_extract cfg.models) in
      let (both, h1) = if_false (cfg.ai_key == [] || model == []) _ _ client h in
      let (key, there) = ||-false (cfg.ai_key == []) (model == []) both in
      let (c, same, made) = some_client-ok _ client h1 in
      let (of_key, of_model) = new_client-IsClientOf cfg model _ c made in
      (
        c,
        same,
        record {
          key = of_key;
          key_there = λ e. not_empty cfg.ai_key key (sym of_key ∙ e);
          model =
              subst (Follows ok [] (env (codes "FACTCHECK_MODEL_EXTRACT")))
                (sym (of_model ∙ ap text_of (reads.of_stages.0).modelled))
                (reads.of_stages.0).of_model;
          model_there = λ e. not_empty model there (sym of_model ∙ e);
        },
      )

  require_adapter-ok :
      {A : Type 0} (path : Str) (o : Option A) (a : A) → require_adapter path o ≡ ok a → o ≡ some a
  require_adapter-ok path none a h = cc
  require_adapter-ok path (some x) a h = ap some (ok_same h)

  module _ {A : Type 0} (flags : Flags F) (cfg : Config F ℕ) (adapter : A)
      (client : Option Client) where
    abbrev prepared : Prepared F A
    prepared = record {
      config = cfg;
      adapter = adapter;
      client = client;
      options = extract_options std.float_zero default_budget above_zero flags cfg;
    }

    prepared-IsReady :
        (flags.adapter_path == []) ≡ false
        → load env std ≡ ok cfg
        → cfg.database_url ≢ []
        → make_client flags.dry_run cfg ≡ ok client
        → IsReady flags prepared
    unfolding normalize
    prepared-IsReady named loaded database made = record {
      has_adapter = not_empty flags.adapter_path named;
      configured = load-Reads env std cfg loaded;
      has_database = database;
      dry = make_client-dry flags.dry_run cfg client made;
      wet = make_client-wet flags.dry_run cfg client (load-Reads env std cfg loaded) made;
      options = refl;
      workers = at_least_one-pos prepared.options.concurrency;
      attempts = at_least_one-pos prepared.options.max_attempts;
    }

  -- When `extract run` comes to its run: an adapter was named, every setting is what the
  -- environment says, and there is a database; a dry run has no client, and any other run has one,
  -- for the extraction model and with the key of the environment, neither of which is empty; and
  -- the run has at least one worker and at least one attempt for a unit, whatever the flags and
  -- the environment say.
  pub prepare-IsReady :
      {L A : Type 0} (load_manifest : Str → Result L) (as_adapter : L → Option A) (flags : Flags F)
      (p : Prepared F A)
      → prepare env std default_budget above_zero load_manifest as_adapter flags ≡ ok p
      → IsReady flags p
  unfolding prepare normalize
  prepare-IsReady load_manifest as_adapter flags p h =
      let (named, h1) = if_false (flags.adapter_path == []) _ _ p h in
      let (cfg, loaded, h2) = >>=-eq-ok (load env std) _ h1 in
      let (cfg', required, h3) = >>=-eq-ok (require_database cfg (validate_database cfg)) _ h2 in
      let (manifest, read, h4) = >>=-eq-ok (load_manifest flags.adapter_path) _ h3 in
      let (adapter, is_adapter, h5) =
        >>=-eq-ok (require_adapter flags.adapter_path (as_adapter manifest)) _ h4 in
      let (client, made, h6) = >>=-eq-ok (make_client flags.dry_run cfg') _ h5 in
      let (same, database) = require_database-ok cfg cfg' required in
      subst (IsReady flags) (ok_same h6) (
        prepared-IsReady flags cfg' adapter client named (loaded ∙ ap ok same)
          (λ e. database (ap (λ (c : Config F ℕ). c.database_url) same ∙ e)) made)
