-- ===== src/Runner/Plan/Laws.antt =====
-- Every unit is skipped, deferred or pending, and what is pending is what the ledger has not done.
use fact_checker.Base.{
  true, ℤ, pos, negsuc, Option, none, some, ℕ, zero, suc, ◌+◌, ◌≤◌, ltb, List, [], ◌∷◌, ◌++◌,
  length, take, Str, not, select, append_assoc, append-nil, length-snoc, ◌≡◌, refl, sym, ap, ◌∙◌,
  arith, Bool-cases, inl, inr, min,
}
use fact_checker.Extract.{WorkUnit}
use fact_checker.Runner.Types.{Options, Stats, new_stats}
use fact_checker.Runner.Plan.{
  LedgerRow, is_done, pend_loop, cut_at, cut_limit, cut_max, planned, plan,
}

length-take {ℓ} : {A : Type ℓ} (n : ℕ) (xs : List A) → length (take n xs) ≡ min n (length xs)
length-take zero xs = omega arith
length-take (suc n) [] = omega arith
length-take (suc n) (x ∷ xs) = omega (arith, length-take n xs)

pub take-all {ℓ} : {A : Type ℓ} (n : ℕ) (xs : List A) → length xs ≤ n → take n xs ≡ xs
take-all zero [] h = refl
take-all zero (x ∷ xs) h = absurd (omega arith)
take-all (suc n) [] h = refl
take-all (suc n) (x ∷ xs) h = rw (take-all n xs (omega arith))

module _ (input_hash : WorkUnit → Str) where
  -- The units that the ledger has not done with the same input.
  abbrev pub undone : List (Str × LedgerRow) → List WorkUnit → List WorkUnit
  undone ledger units = select (λ u. not (is_done input_hash ledger u)) units

  pend_loop_lem :
      (ledger : List (Str × LedgerRow)) (units : List WorkUnit) (n : ℕ) (pending : List WorkUnit)
      → let p = pend_loop input_hash ledger units n pending in
        (p.1 ≡ pending ++ undone ledger units)
        × (p.0 + length p.1 ≡ n + (length pending + length units))
  unfolding pend_loop select
  pend_loop_lem ledger [] n pending = (sym (append-nil pending), omega arith)
  pend_loop_lem ledger (unit ∷ units) n pending =
      elim (Bool-cases (is_done input_hash ledger unit)) [
        | inl e ↦
            let (kept, counted) = pend_loop_lem ledger units (suc n) pending in
            rw e (kept, omega (arith, counted))
        | inr e ↦
            let (kept, counted) = pend_loop_lem ledger units n (pending ++ unit ∷ []) in
            rw e (
              kept ∙ append_assoc pending (unit ∷ []) (undone ledger units),
              omega (arith, counted, length-snoc pending unit),
            )
      ]

  cut_at_lem :
      (n deferred : ℕ) (units : List WorkUnit)
      → let p = cut_at input_hash n (deferred, units) in
        (p.1 ≡ take n units) × (p.0 + length p.1 ≡ deferred + length units)
  unfolding cut_at
  cut_at_lem n deferred units = elim (Bool-cases (ltb n (length units))) [
    | inl e ↦ rw e (refl, ground (arith, length-take n units))
    | inr e ↦ rw e (sym (take-all n units (ground arith)), refl)
  ]

  -- The first units, when there is a limit above 0.
  abbrev pub within : ℤ → List WorkUnit → List WorkUnit
  within (pos zero) units = units
  within (pos (suc n)) units = take (suc n) units
  within (negsuc n) units = units

  cut_limit_lem :
      (limit : ℤ) (deferred : ℕ) (units : List WorkUnit)
      → let p = cut_limit input_hash limit (deferred, units) in
        (p.1 ≡ within limit units) × (p.0 + length p.1 ≡ deferred + length units)
  unfolding cut_limit
  cut_limit_lem (pos zero) deferred units = (refl, refl)
  cut_limit_lem (pos (suc n)) deferred units =
      let above : ltb 0 (suc n) ≡ true = ground arith in
      rw above (cut_at_lem (suc n) deferred units)
  cut_limit_lem (negsuc n) deferred units = (refl, refl)

  -- What is said of a plan, by the cap on the units: below 0 there is none.
  abbrev pub IsPlan : ℤ → List WorkUnit → Option (Stats × List WorkUnit) → Type 0
  IsPlan (pos cap) todo none = ⊥
  IsPlan (pos cap) todo (some (stats, pending)) =
      (pending ≡ take cap todo)
      × (length pending ≤ cap)
      × (stats.units_total ≡ stats.units_skipped + stats.units_deferred + length pending)
  IsPlan (negsuc n) todo o = o ≡ none

  -- With a cap of 0 or above there is a plan: the units that a run submits are the first of those
  -- that the ledger has not done with the same input, at most the limit, when one above 0 is set,
  -- and at most the cap, and each unit is counted once: it is skipped, deferred or pending. With a
  -- cap below 0 the code panics.
  pub plan-exact :
      {F : Type 0} (opts : Options F) (ledger : List (Str × LedgerRow)) (units : List WorkUnit)
      → IsPlan opts.max_units
          (within opts.limit (undone ledger units))
          (plan input_hash opts ledger units new_stats)
  unfolding plan cut_max
  plan-exact opts ledger units = go opts.max_units
    where
      go :
          (cap : ℤ)
          → let looped = pend_loop input_hash ledger units 0 [] in
            IsPlan cap (within opts.limit (undone ledger units)) (
              planned input_hash units looped.0 new_stats
                (cut_max input_hash cap (cut_limit input_hash opts.limit (0, looped.1))))
      go (negsuc n) = refl
      go (pos cap) =
          let looped = pend_loop input_hash ledger units 0 [] in
          let limited = cut_limit input_hash opts.limit (0, looped.1) in
          let (kept, counted) = pend_loop_lem ledger units 0 [] in
          let (first, sum_first) = cut_limit_lem opts.limit 0 looped.1 in
          let (second, sum_second) = cut_at_lem cap limited.0 limited.1 in
          (
            second ∙ ap (take cap) (first ∙ ap (within opts.limit) kept),
            omega (arith, ap length second, length-take cap limited.1),
            omega (arith, counted, sum_first, sum_second),
          )
