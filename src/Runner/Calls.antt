-- ===== src/Runner/Calls.antt =====
-- `callUnit` of extract/runner.go: the model calls of one unit. The client is a parameter, of the
-- world in which it calls.
pub mod Laws
use fact_checker.Base.{
  ℕ, zero, suc, ltb, List, [], ◌∷◌, ◌++◌, Str, codes, none, some, Result, ok, err, if◌then◌else◌,
}
use fact_checker.Wire.Types.{WireExtraction}
use fact_checker.Wire.Parse.{Json, parse_extraction}
use fact_checker.Llm.Types.{CallError}
use fact_checker.Llm.Call.{Called, answered, gave_up}
use fact_checker.Runner.Types.{UnitJob, UnitOutcome}

-- What follows one call.
pub data Next (W : Type 0) : Type 0 where
  leave : UnitOutcome → W → Next W
  again : UnitOutcome → Str → W → Next W

module _ (print : ℕ → Str) where
  -- `Error()` of the errors.
  unfoldable pub error_message : CallError → Str
  error_message (CallError.overload m) = m
  error_message (CallError.bad_status status header) =
      codes "HTTP " ++ print status ++ codes " from model endpoint"
  error_message (CallError.failed m) = m

-- The prompt that asks for a repair.
abbrev repair_prompt : Str → Str → Str
repair_prompt user problem =
    user
    ++ 10 ∷ 10 ∷ codes "Your previous reply was not valid JSON ("
    ++ problem
    ++ codes "). Return ONLY the JSON object."

module _ {W : Type 0} (complete : Str → Str → W → Called × W) (json : Json) (print : ℕ → Str)
    (quote : Str → Str) where
  abbrev with_error : UnitOutcome → Str → UnitOutcome
  with_error o message = record o { error = message }

  -- `left` calls remain after this one.
  abbrev with_repair : ℕ → UnitOutcome → Str → Str → W → Next W
  with_repair left o user problem w =
      let failed = record o { error = codes "unparseable response: " ++ problem; wire = none } in
      if ltb 0 left
      then again (record failed { repairs = suc o.repairs }) (repair_prompt user problem) w
      else again failed user w

  abbrev parsed : ℕ → UnitOutcome → Str → W → Result (WireExtraction × List Str) → Next W
  parsed left o user w (ok result) =
      leave (record o { wire = some result.0; problems = result.1; error = [] }) w
  parsed left o user w (err problem) = with_repair left o user problem w

  -- The outcome `o` already counts this call.
  abbrev called : ℕ → UnitOutcome → Str → Called × W → Next W
  called left o user (answered r, w) =
      parsed left (record o { responses = o.responses ++ r ∷ [] }) user w
        (parse_extraction json print quote r.text)
  called left o user (gave_up (CallError.overload m), w) =
      leave (with_error o (codes "input too large: " ++ m)) w
  called left o user (gave_up (CallError.bad_status status header), w) =
      again (with_error o (error_message print (CallError.bad_status status header))) user w
  called left o user (gave_up (CallError.failed m), w) = again (with_error o m) user w

  unfoldable pub call_round : ℕ → UnitOutcome → Str → W → Next W
  call_round left o user w =
      called left (record o { attempts = suc o.attempts }) user (complete o.job.system user w)

  abbrev follow : (UnitOutcome → Str → W → UnitOutcome × W) → Next W → UnitOutcome × W
  follow go (leave o w) = (o, w)
  follow go (again o user w) = go o user w

  -- The loop, with `left` calls to go.
  unfoldable pub call_loop : ℕ → UnitOutcome → Str → W → UnitOutcome × W
  unfolding call_round
  call_loop zero o user w = (o, w)
  call_loop (suc left) o user w = follow (call_loop left) (call_round left o user w)

  unfoldable pub call_unit : UnitJob → ℕ → W → UnitOutcome × W
  unfolding call_loop
  call_unit job max_attempts w =
      call_loop max_attempts
        (record {
          job = job;
          responses = [];
          wire = none;
          problems = [];
          error = [];
          attempts = 0;
          repairs = 0;
        })
        job.user w
