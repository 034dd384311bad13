-- ===== src/Runner/Plan.antt =====
-- The first part of `execute` of extract/runner.go: which units are pending, and how many are skipped
-- and deferred.
pub mod Laws
use fact_checker.Base.{
  ℤ, pos, negsuc, ℕ, suc, ◌+◌, ◌-◌, ltb, List, [], ◌∷◌, ◌++◌, length, take, Str, codes, Bool, false,
  ◌&&◌, ◌==◌, lookup, Option, none, some, if◌then◌else◌,
}
use fact_checker.Extract.{WorkUnit}
use fact_checker.Runner.Types.{Options, Stats}

pub record LedgerRow : Type 0 where
  pub status : Str
  pub input_hash : Str

-- `input_hash` is the hash of the unit's input, which the ledger keeps.
module _ (input_hash : WorkUnit → Str) where
  abbrev pub same_input : WorkUnit → Option LedgerRow → Bool
  same_input unit none = false
  same_input unit (some row) = row.status == codes "done" && row.input_hash == input_hash unit

  unfoldable pub is_done : List (Str × LedgerRow) → WorkUnit → Bool
  is_done ledger unit = same_input unit (lookup unit.unit_key ledger)

  -- The loop over the units: the count of those skipped, and those pending.
  unfoldable pub pend_loop :
      List (Str × LedgerRow) → List WorkUnit → ℕ → List WorkUnit → ℕ × List WorkUnit
  pend_loop ledger [] skipped pending = (skipped, pending)
  pend_loop ledger (unit ∷ units) skipped pending =
      let skip = pend_loop ledger units (suc skipped) pending in
      let keep = pend_loop ledger units skipped (pending ++ unit ∷ []) in
      if is_done ledger unit then skip else keep

  -- What is over `n` is deferred.
  unfoldable pub cut_at : ℕ → ℕ × List WorkUnit → ℕ × List WorkUnit
  cut_at n (deferred, pending) =
      if ltb n (length pending)
      then (deferred + (length pending - n), take n pending)
      else (deferred, pending)

  unfoldable pub cut_limit : ℤ → ℕ × List WorkUnit → ℕ × List WorkUnit
  unfolding cut_at
  cut_limit (pos limit) p = if ltb 0 limit then cut_at limit p else p
  cut_limit (negsuc n) p = p

  -- A slice up to a negative index panics, which every cap below 0 comes to.
  unfoldable pub cut_max : ℤ → ℕ × List WorkUnit → Option (ℕ × List WorkUnit)
  unfolding cut_at
  cut_max (pos max_units) p = some (cut_at max_units p)
  cut_max (negsuc n) p = none

  abbrev count_truncated : List WorkUnit → ℕ
  count_truncated [] = 0
  count_truncated (unit ∷ units) =
      let rest = count_truncated units in if unit.truncated then suc rest else rest

  abbrev pub planned :
      List WorkUnit → ℕ → Stats → Option (ℕ × List WorkUnit) → Option (Stats × List WorkUnit)
  planned units skipped stats none = none
  planned units skipped stats (some (deferred, pending)) = some (
    record stats {
      units_total = length units;
      units_skipped = skipped;
      units_deferred = deferred;
      units_truncated = stats.units_truncated + count_truncated pending;
    },
    pending,
  )

  -- The statistics and the units to submit, or a panic.
  unfoldable pub plan :
      {F : Type 0}
      → Options F
      → List (Str × LedgerRow)
      → List WorkUnit
      → Stats
      → Option (Stats × List WorkUnit)
  unfolding pend_loop cut_limit cut_max
  plan opts ledger units stats =
      let looped = pend_loop ledger units stats.units_skipped [] in
      planned units looped.0 stats
        (cut_max opts.max_units (cut_limit opts.limit (stats.units_deferred, looped.1)))
