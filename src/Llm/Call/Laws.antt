-- ===== src/Llm/Call/Laws.antt =====
-- How many requests one call makes.
use fact_checker.Base.{Result, Result, ◌≢◌, ℕ, suc, ◌+◌, ◌≤◌, ◌≡◌, Str}
use fact_checker.Llm.Types.{bad_status, Client}
use fact_checker.Llm.Reply.{Posted, payload, again, stop}
use fact_checker.Llm.Call.{World, CallState, Called, gave_up, Formats}
use fact_checker.Llm.Call.Requests.{Counts}

module _ {W : Type 0} (world : World W) (requests : W → ℕ) where
  module _ (formats : Formats) (c : Client) (body : Str) where
    module _ (counts : Counts world requests) where
      -- One attempt: an error to try again after comes from a request.
      abbrev Tried : ℕ → (Posted × ℕ) × CallState W → Type 0
      Tried n ((payload raw, started), s) = Unit {0}
      Tried n ((again e, started), s) = requests s.world ≡ suc n
      Tried n ((stop e, started), s) = (status : ℕ) (header : Str) → e ≢ bad_status status header

      -- A bad status is given back after so many requests.
      abbrev Exhausts : ℕ → Called × CallState W → Type 0
      Exhausts n r =
          (status : ℕ) (header : Str)
          → r.0 ≡ gave_up (bad_status status header)
          → requests r.1.world ≡ n

    -- What is said of the requests from `n` on: they are at most five, and when the call gives up
    -- with the status of an answer they are exactly five.
    pub record UsesAttempts (n : ℕ) (r : Called × CallState W) : Type 0 where
      pub at_most : requests r.1.world ≤ n + 5
      pub exhausted :
          (status : ℕ) (header : Str)
          → r.0 ≡ gave_up (bad_status status header)
          → requests r.1.world ≡ n + 5
