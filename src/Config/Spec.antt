-- ===== src/Config/Spec.antt =====
-- What a variable of the environment says of a setting, apart from how it is read.
use fact_checker.Base.{
  ℤ, [], ◌∷◌, ◌++◌, ◌≡◌, refl, sym, Str, codes, ◌==◌, Option, none, some, lookup, Result, ok, err,
  ◌>>=◌,
}
use fact_checker.Config.{
  Stage, Price, Config, Parsers, Environment, os_getenv, getenv, getenv_duration, getenv_float,
  getenv_int, stage_interval, parse_or, or_empty, default_to, under, interval_of, upper, price_key,
  model_key,
}
use fact_checker.Config.Stages.{ReadsStage}

-- A variable that is not set or is empty gives the default, and any other value is parsed.
abbrev pub Follows : {T : Type 0} → (Str → Result T) → T → Option Str → T → Type 0
Follows parse default none v = v ≡ default
Follows parse default (some []) v = v ≡ default
Follows parse default (some (x ∷ s)) v = parse (x ∷ s) ≡ ok v

ok_same : {T : Type 0} {x y : T} → ok x ≡ ok y → x ≡ y
ok_same h = cc

module _ (env : Environment) where
  under-ok : {T : Type 0} (key : Str) (r : Result T) (v : T) → under env key r ≡ ok v → r ≡ ok v
  under-ok key (ok t) v h = h
  under-ok key (err m) v h = cc

  parse_or-Follows :
      {T : Type 0} (parse : Str → Result T) (key : Str) (default v : T) (raw : Option Str)
      → parse_or env parse key default raw ≡ ok v
      → Follows parse default raw v
  unfolding ◌==◌
  parse_or-Follows parse key default v none h = sym (ok_same h)
  parse_or-Follows parse key default v (some []) h = sym (ok_same h)
  parse_or-Follows parse key default v (some (x ∷ s)) h = under-ok key (parse (x ∷ s)) v h

  default_to-Follows :
      (default : Str) (raw : Option Str) → Follows ok default raw (default_to env default raw)
  unfolding ◌==◌
  default_to-Follows default none = refl
  default_to-Follows default (some []) = refl
  default_to-Follows default (some (x ∷ s)) = refl

  or_empty-Follows : (raw : Option Str) → Follows ok [] raw (or_empty env raw)
  or_empty-Follows none = refl
  or_empty-Follows (some []) = refl
  or_empty-Follows (some (x ∷ s)) = refl

  pub getenv-Follows : (key default : Str) → Follows ok default (env key) (getenv env key default)
  unfolding getenv
  getenv-Follows key default = default_to-Follows default (env key)

  pub os_getenv-Follows : (key : Str) → Follows ok [] (env key) (os_getenv env key)
  os_getenv-Follows key = or_empty-Follows (env key)

  module _ {F D : Type 0} (std : Parsers F D) where
    pub getenv_duration-Follows :
        (key : Str) (default v : D)
        → getenv_duration env std key default ≡ ok v
        → Follows std.parse_duration default (env key) v
    unfolding getenv_duration
    getenv_duration-Follows key default v h =
        parse_or-Follows std.parse_duration key default v (env key) h

    pub getenv_float-Follows :
        (key : Str) (default v : F)
        → getenv_float env std key default ≡ ok v
        → Follows std.parse_float default (env key) v
    unfolding getenv_float
    getenv_float-Follows key default v h =
        parse_or-Follows std.parse_float key default v (env key) h

    pub getenv_int-Follows :
        (key : Str) (default v : ℤ)
        → getenv_int env std key default ≡ ok v
        → Follows std.atoi default (env key) v
    unfolding getenv_int
    getenv_int-Follows key default v h = parse_or-Follows std.atoi key default v (env key) h

    -- A duration that may be absent.
    abbrev pub some_duration : Str → Result (Option D)
    some_duration s = std.parse_duration s >>= λ d. ok (some d)

    under_then :
        (key : Str) (r : Result D) (v : Option D)
        → (under env key r >>= λ d. ok (some d)) ≡ ok v
        → (r >>= λ d. ok (some d)) ≡ ok v
    under_then key (ok d) v h = h
    under_then key (err m) v h = cc

    interval_of-Follows :
        (stage : Stage) (raw : Option Str) (v : Option D)
        → interval_of env std stage (or_empty env raw) ≡ ok v
        → Follows some_duration none raw v
    unfolding ◌==◌
    interval_of-Follows stage none v h = sym (ok_same h)
    interval_of-Follows stage (some []) v h = sym (ok_same h)
    interval_of-Follows stage (some (x ∷ s)) v h =
        under_then (codes "FACTCHECK_REQUEST_INTERVAL_" ++ upper stage) (std.parse_duration (x ∷ s))
          v h

    stage_interval-Follows :
        (stage : Stage) (v : Option D)
        → stage_interval env std stage ≡ ok v
        → Follows some_duration none (env (codes "FACTCHECK_REQUEST_INTERVAL_" ++ upper stage)) v
    unfolding stage_interval
    stage_interval-Follows stage v h =
        interval_of-Follows stage (env (codes "FACTCHECK_REQUEST_INTERVAL_" ++ upper stage)) v h

    -- The settings of a stage are what the variables with its name at the end say.
    pub record IsStage (cfg : Config F D) (stage : Stage) (name : Str) : Type 0 where
      pub model : Str
      pub modelled : lookup stage cfg.models ≡ some model
      pub of_model : Follows ok [] (env (codes "FACTCHECK_MODEL_" ++ name)) model
      pub price : Price F
      pub priced : lookup stage cfg.prices ≡ some price
      pub input :
          Follows std.parse_float std.float_zero
            (env (codes "FACTCHECK_PRICE_MTOK_" ++ name ++ codes "_INPUT"))
            price.input
      pub output :
          Follows std.parse_float std.float_zero
            (env (codes "FACTCHECK_PRICE_MTOK_" ++ name ++ codes "_OUTPUT"))
            price.output
      pub interval :
          Follows some_duration none
            (env (codes "FACTCHECK_REQUEST_INTERVAL_" ++ name))
            (lookup stage cfg.stage_intervals)

    pub ReadsStage-IsStage :
        (cfg : Config F D) (stage : Stage)
        → ReadsStage env std cfg stage
        → IsStage cfg stage (upper stage)
    ReadsStage-IsStage cfg stage r = record {
      model = os_getenv env (model_key env std stage);
      modelled = r.model;
      of_model = os_getenv-Follows (model_key env std stage);
      price = r.price;
      priced = r.priced;
      input =
          getenv_float-Follows (price_key env std stage (codes "_INPUT")) std.float_zero
            r.price.input r.input;
      output =
          getenv_float-Follows (price_key env std stage (codes "_OUTPUT")) std.float_zero
            r.price.output r.output;
      interval = stage_interval-Follows stage (lookup stage cfg.stage_intervals) r.interval;
    }
