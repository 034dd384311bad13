-- ===== src/Llm/Gate.antt =====
-- `throttle` of internal/llm/llm.go: the claim of a request slot, under the mutex.
use fact_checker.Base.{
  ℕ, ◌+◌, ◌-◌, ◌≤◌, ◌≡◌, List, [], ◌∷◌, ltb, Option, none, some, if◌then◌else◌, subst, arith,
}

-- The last slot, which is zero before the first call, and the wait of this caller.
pub record Claim : Type 0 where
  pub last_slot : Option ℕ
  pub wait : ℕ

module _ (interval : ℕ) where
  unfoldable pub claim_slot : Option ℕ → ℕ → Claim
  claim_slot none now = record { last_slot = some now; wait = 0 }
  claim_slot (some last) now =
      if ltb now (last + interval)
      then record { last_slot = some (last + interval); wait = last + interval - now }
      else record { last_slot = some now; wait = 0 }

  -- The times at which callers that arrive at these times, in the order of the mutex, go on.
  unfoldable pub slots : Option ℕ → List ℕ → List ℕ
  unfolding claim_slot
  slots last [] = []
  slots last (now ∷ arrivals) =
      let c = claim_slot last now in (now + c.wait) ∷ slots c.last_slot arrivals

  abbrev After : Option ℕ → ℕ → Type 0
  After none t = Unit
  After (some last) t = last + interval ≤ t

  -- Each slot comes an interval after the one before it.
  unfoldable pub IsSpaced : Option ℕ → List ℕ → Type 0
  IsSpaced last [] = Unit
  IsSpaced last (t ∷ ts) = After last t × IsSpaced (some t) ts

  -- The slot that is claimed is the time at which the caller goes on.
  claim_slot_lem :
      (last : Option ℕ) (now : ℕ)
      → let c = claim_slot last now in
        (c.last_slot ≡ some (now + c.wait)) × After last (now + c.wait)
  unfolding claim_slot
  claim_slot_lem none now = ground arith
  claim_slot_lem (some last) now = ground arith

  -- However the callers arrive, even with a clock that goes back, any two requests that follow each
  -- other are an interval apart.
  pub slots-IsSpaced : (last : Option ℕ) (arrivals : List ℕ) → IsSpaced last (slots last arrivals)
  unfolding slots IsSpaced
  slots-IsSpaced last [] = tt
  slots-IsSpaced last (now ∷ arrivals) =
      let c = claim_slot last now in
      let (kept, after) = claim_slot_lem last now in
      (
        after,
        subst (λ o. IsSpaced o (slots c.last_slot arrivals)) kept
            (slots-IsSpaced c.last_slot arrivals),
      )
