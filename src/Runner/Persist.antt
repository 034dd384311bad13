-- ===== src/Runner/Persist.antt =====
-- `persistOutcome`, `estimateTokens`, `estimateCost` and `budgetAllows` of extract/runner.go. The
-- database is a parameter: each of its operations gives none, or the error that the run reports, in
-- a world of its own. The rollback of a transaction that is not committed is the database's.
pub mod Laws
pub mod Keeps
pub mod Ledgered
use fact_checker.Base.{
  ℕ, suc, ◌+◌, ◌/◌, ltb, List, [], ◌∷◌, ◌++◌, length, map, Str, ◌==◌, codes, Bool, true, not,
  Option, none, some, if◌then◌else◌,
}
use fact_checker.Extract.{WorkUnit}
use fact_checker.Wire.Types.{WireExtraction}
use fact_checker.Validate.Types.{Validated, ValidationContext, Drop, record_counts}
use fact_checker.Validate.Whole.{validate}
use fact_checker.Llm.Types.{Response}
use fact_checker.Llm.Cost.{Floats, CostTracker, add_response, cost_usd, is_priced}
use fact_checker.Runner.Types.{Stats, UnitOutcome, bump, record_drops, add_count}

pub record Database (W : Type 0) : Type 0 where
  pub begin : W → Option Str × W
  pub write_model_output : WorkUnit → Response → W → Option Str × W
  pub load_records : Validated → W → Option Str × W
  pub finish_ledger_row : WorkUnit → Str → List (Str × ℕ) → List Drop → Str → W → Option Str × W
  pub commit : W → Option Str × W

-- The sets of ids that later units resolve against.
pub record KnownIds : Type 0 where
  pub entities : List Str
  pub events : List Str
  pub claims : List Str

pub record Persisted (F W : Type 0) : Type 0 where
  pub stats : Stats
  pub tracker : CostTracker F
  pub known : KnownIds
  pub error : Option Str
  pub world : W

-- The next operation, unless the one before it failed.
infixl 5 ◌and_then◌
abbrev pub ◌and_then◌ {ℓ} : {W : Type ℓ} → Option Str × W → (W → Option Str × W) → Option Str × W
(none, w) and_then f = f w
(some e, w) and_then f = (some e, w)

abbrev bump_problems : Stats → List Str → Stats
bump_problems stats [] = stats
bump_problems stats (p ∷ problems) = bump_problems (bump stats (codes "parse:" ++ p)) problems

-- The counts of a map, where a missing key counts 0.
abbrev pub count_of : List (Str × ℕ) → Str → ℕ
count_of [] key = 0
count_of ((k, n) ∷ counts) key = if k == key then n else count_of counts key

-- The statistics of a unit whose records were written.
unfoldable pub count_done : Stats → Validated → Stats
unfolding record_drops add_count
count_done stats v =
    let entities = add_count stats.records (codes "entities") (length v.entities) in
    let events = add_count entities (codes "events") (length v.events) in
    let claims = add_count events (codes "claims") (length v.claims) in
    let relationships = add_count claims (codes "relationships") (length v.relationships) in
    let records = add_count relationships (codes "contradictions") (length v.contradictions) in
    let kept =
      count_of records (codes "entities")
      + count_of records (codes "events")
      + count_of records (codes "claims")
      + count_of records (codes "relationships") in
    record_drops
      (record stats { units_done = suc stats.units_done; records = records; kept_records = kept })
      v.drops

unfoldable pub learn : KnownIds → Validated → KnownIds
learn known v = record {
  entities = known.entities ++ map (λ e. e.id) v.entities;
  events = known.events ++ map (λ e. e.id) v.events;
  claims = known.claims ++ map (λ c. c.id) v.claims;
}

abbrev pub end_failed :
    {F : Type 0} {W : Type 0} → Stats → CostTracker F → KnownIds → Option Str × W → Persisted F W
end_failed stats t known (none, w) = record {
  stats = record stats { units_failed = suc stats.units_failed };
  tracker = t;
  known = known;
  error = none;
  world = w;
}
end_failed stats t known (some e, w) = record {
  stats = stats;
  tracker = t;
  known = known;
  error = some e;
  world = w;
}

abbrev pub end_done :
    {F : Type 0} {W : Type 0}
    → Stats
    → CostTracker F
    → KnownIds
    → Validated
    → Option Str × W
    → Persisted F W
end_done stats t known v (none, w) = record {
  stats = count_done stats v;
  tracker = t;
  known = learn known v;
  error = none;
  world = w;
}
end_done stats t known v (some e, w) = record {
  stats = stats;
  tracker = t;
  known = known;
  error = some e;
  world = w;
}

abbrev pub context_of : WorkUnit → KnownIds → ValidationContext
context_of unit known = record {
  unit = unit;
  db_entity_ids = known.entities;
  db_event_ids = known.events;
  db_claim_ids = known.claims;
}

-- What `Validate` makes of the extraction, in the context of the known ids.
abbrev pub judge : UnitOutcome → KnownIds → WireExtraction → Validated
judge o known wire = validate wire (context_of o.job.unit known)

module _ {W : Type 0} (db : Database W) where
  abbrev pub store_failed : UnitOutcome → W → Option Str × W
  store_failed o w =
      db.finish_ledger_row o.job.unit (codes "failed") [] [] o.error w and_then db.commit

  abbrev pub store_done : UnitOutcome → Validated → W → Option Str × W
  store_done o v w =
      db.load_records v w
      and_then db.finish_ledger_row o.job.unit (codes "done") (record_counts v) v.drops []
      and_then db.commit

  module _ {F : Type 0} where
    -- The responses: the tracker counts each before it is written.
    abbrev pub write_outputs :
        WorkUnit → List Response → CostTracker F → Option Str × W → CostTracker F × (Option Str × W)
    write_outputs unit responses t (some e, w) = (t, (some e, w))
    write_outputs unit [] t (none, w) = (t, (none, w))
    write_outputs unit (r ∷ responses) t (none, w) =
        write_outputs unit responses (add_response t r) (db.write_model_output unit r w)

    abbrev persist_wire :
        UnitOutcome → Stats → CostTracker F → KnownIds → Option WireExtraction → W → Persisted F W
    persist_wire o stats t known none w = end_failed stats t known (store_failed o w)
    persist_wire o stats t known (some wire) w =
        let v = judge o known wire in
        end_done (bump_problems stats o.problems) t known v (store_done o v w)

    abbrev after_outputs :
        UnitOutcome → Stats → KnownIds → CostTracker F × (Option Str × W) → Persisted F W
    after_outputs o stats known (t, (none, w)) = persist_wire o stats t known o.wire w
    after_outputs o stats known (t, (some e, w)) = record {
      stats = stats;
      tracker = t;
      known = known;
      error = some e;
      world = w;
    }

    unfoldable pub persist_outcome :
        Stats → CostTracker F → KnownIds → UnitOutcome → W → Persisted F W
    unfolding count_done learn
    persist_outcome stats t known o w =
        let counted = record stats {
          attempts = stats.attempts + o.attempts;
          repairs = stats.repairs + o.repairs;
        } in
        after_outputs o counted known (write_outputs o.job.unit o.responses t (db.begin w))

-- len(text) / 4, and at least 1
unfoldable pub estimate_tokens : Str → ℕ
estimate_tokens text = let tokens = length text / 4 in if ltb tokens 1 then 1 else tokens

module _ {F : Type 0} (floats : Floats F) where
  unfoldable pub estimate_cost : Str → CostTracker F → F
  unfolding estimate_tokens
  estimate_cost prompt t =
      floats.add
        (floats.mul (floats.div (floats.of_nat (estimate_tokens prompt)) (floats.of_nat 1000000))
          t.price_in)
        (floats.mul (floats.div (floats.of_nat 4000) (floats.of_nat 1000000)) t.price_out)

  unfoldable pub budget_allows : CostTracker F → F → F → Bool
  unfolding cost_usd is_priced
  budget_allows t budget next_estimate =
      if not (is_priced floats t)
      then true
      else floats.le (floats.add (cost_usd floats t) next_estimate) budget
