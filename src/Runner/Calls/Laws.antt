-- ===== src/Runner/Calls/Laws.antt =====
-- What an outcome of `callUnit` says of the calls that were made.
use fact_checker.Base.{
  ℕ, zero, suc, ◌+◌, ◌≤◌, ltb, List, [], ◌∷◌, ◌++◌, length, length-snoc, Str, codes, Option, none,
  some, Result, ok, err, ◌≡◌, refl, subst, ◌⊎◌, inl, inr, arith, Bool-cases,
}
use fact_checker.Wire.Types.{WireExtraction}
use fact_checker.Wire.Parse.{Json, parse_extraction}
use fact_checker.Llm.Types.{CallError, Response}
use fact_checker.Llm.Call.{Called, answered, gave_up}
use fact_checker.Runner.Types.{UnitJob, UnitOutcome}
use fact_checker.Runner.Calls.{
  Next, leave, again, call_round, call_loop, call_unit, called, parsed, follow,
}

module _ {W : Type 0} (complete : Str → Str → W → Called × W) (json : Json) (print : ℕ → Str)
    (quote : Str → Str) where
  -- A unit that has an extraction has it from its last response, and has no error.
  abbrev pub IsParsed : UnitOutcome → WireExtraction → Type 0
  IsParsed o wire =
      (o.error ≡ [])
      × ((before : List Response) × (last : Response) × (o.responses ≡ before ++ last ∷ [])
          × (parse_extraction json print quote last.text ≡ ok (wire, o.problems)))

  pub HasSource : UnitOutcome → Option WireExtraction → Type 0
  HasSource o none = Unit
  HasSource o (some wire) = IsParsed o wire

  -- An outcome with calls to go: `n` were made, and none gave an extraction.
  record Going (n left : ℕ) (o : UnitOutcome) : Type 0 where
    attempts_made : o.attempts ≡ n
    responses_bound : length o.responses ≤ n
    repairs_bound : o.repairs ≤ n
    repairs_few : suc o.repairs ≤ n + left
    no_wire : o.wire ≡ none

  -- A finished outcome, with `max_attempts` calls allowed.
  pub record Finished (max_attempts : ℕ) (o : UnitOutcome) : Type 0 where
    pub attempts_bound : o.attempts ≤ max_attempts
    pub responses_bound : length o.responses ≤ o.attempts
    pub repairs_bound : suc o.repairs ≤ max_attempts
    pub has_source : HasSource o o.wire
    pub gave_up_late :
        o.wire ≡ none
        → (o.attempts ≡ max_attempts) ⊎ ((m : Str) × (o.error ≡ codes "input too large: " ++ m))

  Fits : ℕ → ℕ → Next W → Type 0
  Fits n left (leave o w) = Finished (n + suc left) o
  Fits n left (again o user w) = Going (suc n) left o

  parsed-Fits :
      (n left : ℕ) (o : UnitOutcome) (user : Str) (w : W) (r : Response)
      (m : Result (WireExtraction × List Str))
      → parse_extraction json print quote r.text ≡ m
      → Going n (suc left) o
      → Fits n left (
          parsed complete json print quote left
            (record o { attempts = suc o.attempts; responses = o.responses ++ r ∷ [] })
            user
            w
            m)
  unfolding Fits HasSource
  parsed-Fits n left o user w r (ok (wire, problems)) e g = record {
    attempts_bound = omega (arith, g.attempts_made);
    responses_bound = omega (arith, g.attempts_made, g.responses_bound, length-snoc o.responses r);
    repairs_bound = omega (arith, g.repairs_few);
    has_source = (refl, (o.responses, r, refl, e));
    gave_up_late = λ none_kept. cc;
  }
  parsed-Fits n left o user w r (err problem) e g = elim (Bool-cases (ltb 0 left)) [
    | inl more ↦ rw more (record {
      attempts_made = omega (arith, g.attempts_made);
      responses_bound = omega (arith, g.responses_bound, length-snoc o.responses r);
      repairs_bound = omega (arith, g.repairs_bound);
      repairs_few = ground (arith, g.repairs_bound);
      no_wire = refl;
    })
    | inr over ↦ rw over (record {
      attempts_made = omega (arith, g.attempts_made);
      responses_bound = omega (arith, g.responses_bound, length-snoc o.responses r);
      repairs_bound = omega (arith, g.repairs_bound);
      repairs_few = omega (arith, g.repairs_few);
      no_wire = refl;
    })
  ]

  failed-Going :
      (n left : ℕ) (o : UnitOutcome) (message : Str)
      → Going n (suc left) o
      → Going (suc n) left (record o { attempts = suc o.attempts; error = message })
  failed-Going n left o message g = record {
    attempts_made = omega (arith, g.attempts_made);
    responses_bound = omega (arith, g.responses_bound);
    repairs_bound = omega (arith, g.repairs_bound);
    repairs_few = omega (arith, g.repairs_few);
    no_wire = g.no_wire;
  }

  called-Fits :
      (n left : ℕ) (o : UnitOutcome) (user : Str) (p : Called × W)
      → Going n (suc left) o
      → Fits n left
          (called complete json print quote left (record o { attempts = suc o.attempts }) user p)
  unfolding Fits HasSource
  called-Fits n left o user (answered r, w) g = parsed-Fits n left o user w r _ refl g
  called-Fits n left o user (gave_up (CallError.overload m), w) g = record {
    attempts_bound = omega (arith, g.attempts_made);
    responses_bound = omega (arith, g.attempts_made, g.responses_bound);
    repairs_bound = omega (arith, g.repairs_few);
    has_source = rw g.no_wire tt;
    gave_up_late = λ none_kept. inr (m, refl);
  }
  called-Fits n left o user (gave_up (CallError.bad_status status header), w) g =
      failed-Going n left o _ g
  called-Fits n left o user (gave_up (CallError.failed m), w) g = failed-Going n left o m g

  Going-Finished : (n : ℕ) (o : UnitOutcome) → Going n 0 o → Finished n o
  unfolding HasSource
  Going-Finished n o g = record {
    attempts_bound = omega (arith, g.attempts_made);
    responses_bound = omega (arith, g.attempts_made, g.responses_bound);
    repairs_bound = omega (arith, g.repairs_few);
    has_source = rw g.no_wire tt;
    gave_up_late = λ none_kept. inl g.attempts_made;
  }

  follow-Finished :
      (n left : ℕ) (go : UnitOutcome → Str → W → UnitOutcome × W)
      → ((o : UnitOutcome) (user : Str) (w : W)
          → Going (suc n) left o
          → Finished (n + suc left) (go o user w).0)
      → (next : Next W) → Fits n left next
      → Finished (n + suc left) (follow complete json print quote go next).0
  unfolding Fits
  follow-Finished n left go h (leave o w) f = f
  follow-Finished n left go h (again o user w) f = h o user w f

  call_loop-Finished :
      (left n : ℕ) (o : UnitOutcome) (user : Str) (w : W)
      → Going n left o
      → Finished (n + left) (call_loop complete json print quote left o user w).0
  unfolding call_loop call_round
  call_loop-Finished zero n o user w g =
      let n_0 : n + 0 ≡ n = omega arith in rw n_0 (Going-Finished n o g)
  call_loop-Finished (suc left) n o user w g =
      let next : suc n + left ≡ n + suc left = omega arith in
      follow-Finished n left (call_loop complete json print quote left)
        (λ p u v k. rw next at (call_loop-Finished left (suc n) p u v k))
        (call_round complete json print quote left o user w)
        (called-Fits n left o user (complete o.job.system user w) g)

  -- The calls for one unit end after at most `max_attempts` calls, which is at least 1: no more
  -- responses than calls, and fewer repairs than the calls allowed. An extraction is what the
  -- last response parses to, with its problems, and there is then no error. Without one, either
  -- every call allowed was made or the endpoint said that the input is too large.
  pub call_unit-Finished :
      (job : UnitJob) (max_attempts : ℕ) (w : W)
      → 1 ≤ max_attempts
      → Finished max_attempts (call_unit complete json print quote job max_attempts w).0
  unfolding call_unit
  call_unit-Finished job max_attempts w some_call =
      let none_yet : 0 + max_attempts ≡ max_attempts = omega arith in
      subst (λ n. Finished n (call_unit complete json print quote job max_attempts w).0) none_yet
        (call_loop-Finished max_attempts 0 _ job.user w (record {
          attempts_made = refl;
          responses_bound = omega arith;
          repairs_bound = omega arith;
          repairs_few = omega (arith, some_call);
          no_wire = refl;
        }))
