-- ===== src/Runner/Types.antt =====
-- The options, the statistics and the outcomes of extract/runner.go. The prices and the budget are
-- of a type `F` of float64.
use fact_checker.Base.{
  ℤ, ℕ, List, [], ◌∷◌, ◌++◌, Str, Bool, Option, ◌||◌, ◌==◌, codes, suc, ◌+◌, if◌then◌else◌,
}
use fact_checker.Extract.{WorkUnit}
use fact_checker.Wire.Types.{WireExtraction}
use fact_checker.Validate.Types.{Drop}
use fact_checker.Llm.Types.{Response}

pub record Options (F : Type 0) : Type 0 where
  pub dry_run : Bool
  pub limit : ℤ
  pub budget_usd : F
  pub max_units : ℤ
  pub max_attempts : ℤ
  pub concurrency : ℤ
  pub price_in : F
  pub price_out : F

-- The counts of `Stats`. The cost and the latencies are read off the tracker at the end.
pub record Stats : Type 0 where
  pub units_total : ℕ
  pub units_done : ℕ
  pub units_skipped : ℕ
  pub units_failed : ℕ
  pub units_deferred : ℕ
  pub units_truncated : ℕ
  pub attempts : ℕ
  pub repairs : ℕ
  pub records : List (Str × ℕ)
  pub kept_records : ℕ
  pub dropped_records : ℕ
  pub drop_log : List (Str × ℕ)

abbrev pub new_stats : Stats
new_stats = record {
  units_total = 0;
  units_done = 0;
  units_skipped = 0;
  units_failed = 0;
  units_deferred = 0;
  units_truncated = 0;
  attempts = 0;
  repairs = 0;
  records = [];
  kept_records = 0;
  dropped_records = 0;
  drop_log = [];
}

-- `m[key] += n`
unfoldable pub add_count : List (Str × ℕ) → Str → ℕ → List (Str × ℕ)
add_count [] key n = (key, n) ∷ []
add_count ((k, m) ∷ counts) key n =
    if k == key then (k, m + n) ∷ counts else (k, m) ∷ add_count counts key n

unfoldable pub bump : Stats → Str → Stats
unfolding add_count
bump s key = record s { drop_log = add_count s.drop_log key 1 }

unfoldable pub counts_as_dropped : Drop → Bool
counts_as_dropped d =
    d.kind == codes "claim" || d.kind == codes "event" || d.kind == codes "relationship"

unfoldable pub record_drop : Stats → Drop → Stats
unfolding bump counts_as_dropped
record_drop s d =
    let dropped = if counts_as_dropped d then suc s.dropped_records else s.dropped_records in
    bump (record s { dropped_records = dropped }) (d.kind ++ codes ":" ++ d.reason)

unfoldable pub record_drops : Stats → List Drop → Stats
unfolding record_drop
record_drops s [] = s
record_drops s (d ∷ drops) = record_drops (record_drop s d) drops

pub record UnitJob : Type 0 where
  pub unit : WorkUnit
  pub system : Str
  pub user : Str

pub record UnitOutcome : Type 0 where
  pub job : UnitJob
  pub responses : List Response
  pub wire : Option WireExtraction
  pub problems : List Str
  pub error : Str
  pub attempts : ℕ
  pub repairs : ℕ
