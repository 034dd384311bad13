-- ===== src/Llm/Backoff.antt =====
-- `nextDelay`, and the pause of `sleepBackoff`, of internal/llm/llm.go.
use fact_checker.Base.{
  ℕ, ◌*◌, ◌≤◌, ◌≡◌, Str, [], ◌==◌, Bool, Bool-cases, Option-cases, ◌||◌, ltb, leb, eqb, min, max,
  Option, none, some, if◌then◌else◌, arith, inl, inr,
}
use Prim.Native.Nat.{◌%◌}
use fact_checker.Llm.Types.{max_backoff}

abbrev pub two_to_63 : ℕ
two_to_63 = 9223372036854775808

-- Twice an int64 that is not negative: the wrapped bits are negative from 2 ^ 63.
abbrev doubled : ℕ → ℕ
doubled delay = (delay * 2) % (2 * two_to_63)

unfoldable pub next_delay : ℕ → ℕ
next_delay delay =
    if ltb max_backoff (doubled delay) || leb two_to_63 (doubled delay) || eqb (doubled delay) 0
    then max_backoff
    else doubled delay

-- `parse_seconds` stands for strconv.ParseFloat, the product with a second and the conversion to
-- nanoseconds. A header that is negative counts as 0, which the maximum forgets.
module _ (parse_seconds : Str → Option ℕ) where
  abbrev with_hint : ℕ → Option ℕ → ℕ
  with_hint delay none = delay
  with_hint delay (some hint) = max delay (min hint max_backoff)

  unfoldable pub pause : ℕ → Str → ℕ
  pause delay header =
      min (if header == [] then delay else with_hint delay (parse_seconds header)) max_backoff

  -- A pause is never shorter than the delay, up to the cap, and never longer than the cap; and a
  -- server's hint within the cap is kept.
  pub pause-bounds :
      (delay : ℕ) (header : Str)
      → (min delay max_backoff ≤ pause delay header)
        × (pause delay header ≤ max_backoff)
        × ((hint : ℕ)
            → (header == []) ≡ Bool.false
            → parse_seconds header ≡ some hint
            → min hint max_backoff ≤ pause delay header)
  unfolding pause
  pause-bounds delay header = elim (Bool-cases (header == [])) [
    | inl e ↦ rw e (omega arith, omega arith, λ hint no. cc)
    | inr e ↦ elim (Option-cases (parse_seconds header)) [
      | inl o ↦ rw (e, o) (omega arith, omega arith, λ hint no h. cc)
      | inr (d, o) ↦ rw (e, o) (omega arith, omega arith, λ hint no h. ground arith)
    ]
  ]
