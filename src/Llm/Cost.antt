-- ===== src/Llm/Cost.antt =====
-- `CostTracker` of internal/llm/llm.go. The operations on float64 are a parameter; a latency is in
-- nanoseconds.
use fact_checker.Base.{ℕ, ◌+◌, suc, List, [], ◌∷◌, ◌++◌, Bool, ◌||◌, max, foldl}
use fact_checker.Llm.Types.{Response}

pub record Floats (F : Type 0) : Type 0 where
  pub of_nat : ℕ → F
  pub add : F → F → F
  pub mul : F → F → F
  pub div : F → F → F
  pub lt : F → F → Bool
  pub le : F → F → Bool

pub record CostTracker (F : Type 0) : Type 0 where
  pub price_in : F
  pub price_out : F
  pub calls : ℕ
  pub input_tokens : ℕ
  pub output_tokens : ℕ
  pub latencies : List ℕ

unfoldable pub add_response : {F : Type 0} → CostTracker F → Response → CostTracker F
add_response t r = record {
  price_in = t.price_in;
  price_out = t.price_out;
  calls = suc t.calls;
  input_tokens = t.input_tokens + r.input_tokens;
  output_tokens = t.output_tokens + r.output_tokens;
  latencies = t.latencies ++ r.latency ∷ [];
}

module _ {F : Type 0} (floats : Floats F) where
  -- Tokens at a price for a million of them.
  abbrev pub at_price : ℕ → F → F
  at_price tokens price =
      floats.mul (floats.div (floats.of_nat tokens) (floats.of_nat 1000000)) price

  unfoldable pub cost_usd : CostTracker F → F
  cost_usd t =
      floats.add (at_price t.input_tokens t.price_in) (at_price t.output_tokens t.price_out)

  unfoldable pub is_priced : CostTracker F → Bool
  is_priced t = floats.lt (floats.of_nat 0) t.price_in || floats.lt (floats.of_nat 0) t.price_out

unfoldable pub max_latency : List ℕ → ℕ
max_latency ls = foldl max 0 ls
