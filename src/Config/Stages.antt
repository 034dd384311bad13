-- ===== src/Config/Stages.antt =====
-- The loop of `Load` over the stages.
use fact_checker.Base.{
  has, Distinct, ||-false, ==_refl, ==_iff, List, [], ◌∷◌, ◌≡◌, refl, ◌∙◌, sym, ap, codes, ◌==◌,
  Option, none, some, lookup, lookup-insert, ok, >>=-eq-ok, All, false, arith,
}
use fact_checker.Config.{
  Stage, Price, Config, Parsers, Environment, os_getenv, getenv_float, stage_interval, set_interval,
  price_key, model_key, with_stage, load_stage, load_stages,
}

module _ (env : Environment) {F D : Type 0} (std : Parsers F D) where
  -- What the configuration holds for a stage is what the stage's variables say.
  pub record ReadsStage (cfg : Config F D) (stage : Stage) : Type 0 where
    pub model : lookup stage cfg.models ≡ some (os_getenv env (model_key env std stage))
    pub price : Price F
    pub priced : lookup stage cfg.prices ≡ some price
    pub input :
        getenv_float env std (price_key env std stage (codes "_INPUT")) std.float_zero
        ≡ ok price.input
    pub output :
        getenv_float env std (price_key env std stage (codes "_OUTPUT")) std.float_zero
        ≡ ok price.output
    pub interval : stage_interval env std stage ≡ ok (lookup stage cfg.stage_intervals)

  record Loaded (stage : Stage) (before after : Config F D) : Type 0 where
    price : Price F
    interval : Option D
    input :
        getenv_float env std (price_key env std stage (codes "_INPUT")) std.float_zero
        ≡ ok price.input
    output :
        getenv_float env std (price_key env std stage (codes "_OUTPUT")) std.float_zero
        ≡ ok price.output
    spaced : stage_interval env std stage ≡ ok interval
    same : after ≡ with_stage env std stage price interval before

  ok_same : {T : Type 0} {x y : T} → ok x ≡ ok y → x ≡ y
  ok_same h = cc

  load_stage-Loaded :
      (stage : Stage) (before after : Config F D)
      → load_stage env std stage before ≡ ok after
      → Loaded stage before after
  unfolding load_stage
  load_stage-Loaded stage before after h =
      let (input, read_input, h1) =
        >>=-eq-ok (getenv_float env std (price_key env std stage (codes "_INPUT")) std.float_zero) _
          h in
      let (output, read_output, h2) =
        >>=-eq-ok (getenv_float env std (price_key env std stage (codes "_OUTPUT")) std.float_zero)
          _ h1 in
      let (interval, read_interval, h3) = >>=-eq-ok (stage_interval env std stage) _ h2 in
      record {
        price = record { input = input; output = output };
        interval = interval;
        input = read_input;
        output = read_output;
        spaced = read_interval;
        same = sym (ok_same h3);
      }

  lookup-set_interval :
      (stage asked : Stage) (d : Option D) (m : List (Stage × D))
      → (stage == asked) ≡ false
      → lookup asked (set_interval env std stage d m) ≡ lookup asked m
  lookup-set_interval stage asked none m h = refl
  lookup-set_interval stage asked (some d) m h = lookup-insert stage asked d m ∙ rw h

  lookup-set_interval_self :
      (stage : Stage) (d : Option D) (m : List (Stage × D))
      → lookup stage m ≡ none
      → lookup stage (set_interval env std stage d m) ≡ d
  lookup-set_interval_self stage none m h = h
  lookup-set_interval_self stage (some d) m h = lookup-insert stage stage d m ∙ rw (==_refl stage)

  module _ {stage : Stage} {before after : Config F D} (l : Loaded stage before after) where
    Loaded-other : (s : Stage) → (stage == s) ≡ false → ReadsStage before s → ReadsStage after s
    Loaded-other s other r = rw l.same (record {
      model =
          lookup-insert stage s (os_getenv env (model_key env std stage)) before.models
          ∙ rw other r.model;
      price = r.price;
      priced = lookup-insert stage s l.price before.prices ∙ rw other r.priced;
      input = r.input;
      output = r.output;
      interval =
          r.interval
          ∙ ap ok (sym (lookup-set_interval stage s l.interval before.stage_intervals other));
    })

    Loaded-self : lookup stage before.stage_intervals ≡ none → ReadsStage after stage
    Loaded-self fresh = rw l.same (record {
      model =
          lookup-insert stage stage (os_getenv env (model_key env std stage)) before.models
          ∙ rw (==_refl stage);
      price = l.price;
      priced = lookup-insert stage stage l.price before.prices ∙ rw (==_refl stage);
      input = l.input;
      output = l.output;
      interval =
          l.spaced
          ∙ ap ok (sym (lookup-set_interval_self stage l.interval before.stage_intervals fresh));
    })

    Loaded-fresh :
        (s : Stage)
        → (stage == s) ≡ false
        → lookup s before.stage_intervals ≡ none
        → lookup s after.stage_intervals ≡ none
    Loaded-fresh s other fresh =
        rw l.same (lookup-set_interval stage s l.interval before.stage_intervals other ∙ fresh)

  -- The fields that the loop over the stages leaves alone.
  abbrev pub SameRest : Config F D → Config F D → Type 0
  SameRest before after = after ≡ record before {
    models = after.models;
    prices = after.prices;
    stage_intervals = after.stage_intervals;
  }

  load_stages-step :
      (stage : Stage) (rest : List Stage) (before end : Config F D)
      → load_stages env std (stage ∷ rest) before ≡ ok end
      → (next : Config F D) × Loaded stage before next × (load_stages env std rest next ≡ ok end)
  unfolding load_stages
  load_stages-step stage rest before end h =
      let (next, one, more) =
        >>=-eq-ok (load_stage env std stage before) (λ c. load_stages env std rest c) h in
      (next, load_stage-Loaded stage before next one, more)

  pub load_stages_same :
      (ss : List Stage) (before end : Config F D)
      → load_stages env std ss before ≡ ok end
      → SameRest before end
  unfolding load_stages
  load_stages_same [] before end h = rw (ok_same h)
  load_stages_same (s ∷ ss) before end h =
      let (next, l, more) = load_stages-step s ss before end h in
      load_stages_same ss next end more
      ∙ ap
          (λ (c : Config F D). record c {
            models = end.models;
            prices = end.prices;
            stage_intervals = end.stage_intervals;
          })
          l.same

  load_stages-other :
      (ss : List Stage) (before end : Config F D) (s : Stage)
      → has ss s ≡ false
      → load_stages env std ss before ≡ ok end
      → ReadsStage before s
      → ReadsStage end s
  unfolding load_stages has
  load_stages-other [] before end s new h r = rw (sym (ok_same h)) r
  load_stages-other (t ∷ ss) before end s new h r =
      let (next, l, more) = load_stages-step t ss before end h in
      let (other, later) = ||-false (t == s) (has ss s) new in
      load_stages-other ss next end s later more (Loaded-other l s other r)

  fresh_later :
      {stage : Stage} {before after : Config F D} (l : Loaded stage before after) (ss : List Stage)
      → has ss stage ≡ false
      → All (λ s. lookup s before.stage_intervals ≡ none) ss
      → All (λ s. lookup s after.stage_intervals ≡ none) ss
  unfolding has
  fresh_later l [] new fresh = tt
  fresh_later {stage} l (s ∷ ss) new fresh =
      let (other, later) = ||-false (s == stage) (has ss stage) new in
      (
        Loaded-fresh l s (ground (arith, ==_iff s stage, ==_iff stage s)) fresh.0,
        fresh_later l ss later fresh.1,
      )

  pub load_stages-reads :
      (ss : List Stage) (before end : Config F D)
      → Distinct ss
      → All (λ s. lookup s before.stage_intervals ≡ none) ss
      → load_stages env std ss before ≡ ok end
      → All (ReadsStage end) ss
  load_stages-reads [] before end d fresh h = tt
  load_stages-reads (s ∷ ss) before end d fresh h =
      let (next, l, more) = load_stages-step s ss before end h in
      (
        load_stages-other ss next end s d.0 more (Loaded-self l fresh.0),
        load_stages-reads ss next end d.1 (fresh_later l ss d.0 fresh.1) more,
      )
