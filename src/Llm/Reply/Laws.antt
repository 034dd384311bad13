-- ===== src/Llm/Reply/Laws.antt =====
-- After which answers `post` asks for another attempt, in words that do not come from the code.
use fact_checker.Base.{
  ℕ, zero, suc, ◌≤◌, ◌<◌, List, [], ◌∷◌, ◌++◌, length, Contains, Contains-before, Str, codes, ◌≡◌,
  ◌≢◌, ◌↔◌, ◌⊎◌, inl, inr, refl, sym, ap, Bool, true, false, ◌&&◌, not, leb, take, Option, none,
  some, arith, Bool-cases, if◌then◌else◌, subst,
}
use fact_checker.Runner.Plan.Laws.{take-all}
use fact_checker.Llm.Types.{bad_status, truncate, retry_status}
use fact_checker.Llm.Reply.{
  payload, again, stop, Posted, read_answer, again, CallError, Posted, stop, read_answer, Sent,
  unbuilt, unreachable, answer, has_prefix, contains, mentions_too_long, classify, is_transient,
  is_again, is_some, classify_lem,
}

has_prefix-split : (s sub : Str) → has_prefix s sub ≡ true → (rest : Str) × (s ≡ sub ++ rest)
unfolding has_prefix
has_prefix-split s [] h = (s, refl)
has_prefix-split [] (y ∷ sub) h = cc
has_prefix-split (x ∷ s) (y ∷ sub) h =
    let (rest, e) = has_prefix-split s sub (ground arith) in
    let same : x ≡ y = ground arith in (rest, rw (same, e))

has_prefix-append : (sub rest : Str) → has_prefix (sub ++ rest) sub ≡ true
unfolding has_prefix
has_prefix-append [] rest = refl
has_prefix-append (y ∷ sub) rest = ground (arith, has_prefix-append sub rest)

contains-Contains : (s sub : Str) → contains s sub ≡ true → Contains s sub
unfolding contains
contains-Contains [] sub h =
    let (rest, e) = has_prefix-split [] sub h in record { front = []; back = rest; split = e }
contains-Contains (x ∷ s) sub h = elim (Bool-cases (has_prefix (x ∷ s) sub)) [
  | inl e ↦
      let (rest, same) = has_prefix-split (x ∷ s) sub e in
      record { front = []; back = rest; split = same }
  | inr e ↦ Contains-before (x ∷ []) (contains-Contains s sub (rw e at h))
]

contains-prefix : (s sub : Str) → has_prefix s sub ≡ true → contains s sub ≡ true
unfolding contains
contains-prefix [] sub h = h
contains-prefix (x ∷ s) sub h = rw h

contains-append : (front sub back : Str) → contains (front ++ (sub ++ back)) sub ≡ true
unfolding contains
contains-append [] sub back = contains-prefix (sub ++ back) sub (has_prefix-append sub back)
contains-append (x ∷ front) sub back = ground (arith, contains-append front sub back)

contains_iff : (s sub : Str) → (contains s sub ≡ true) ↔ Contains s sub
contains_iff s sub = (
  contains-Contains s sub,
  λ c. subst (λ t. contains t sub ≡ true) (sym c.split) (contains-append c.front sub c.back),
)

truncate_lem : (s : Str) (n : ℕ) → truncate s n ≡ take n s
unfolding truncate
truncate_lem s n = elim (Bool-cases (leb (length s) n)) [
  | inl e ↦ rw e (sym (take-all n s (ground arith)))
  | inr e ↦ rw e
]

take-take {ℓ} : {A : Type ℓ} (m n : ℕ) (xs : List A) → m ≤ n → take m (take n xs) ≡ take m xs
take-take zero n xs h = refl
take-take (suc m) zero xs h = absurd (omega arith)
take-take (suc m) (suc n) [] h = refl
take-take (suc m) (suc n) (x ∷ xs) h = ap (λ ys. x ∷ ys) (take-take m n xs (omega arith))

-- The statuses after which a request is made again.
abbrev pub IsRetried : ℕ → Type 0
IsRetried status =
    (status ≡ 408)
    ⊎ ((status ≡ 409)
        ⊎ ((status ≡ 429)
            ⊎ ((status ≡ 500) ⊎ ((status ≡ 502) ⊎ ((status ≡ 503) ⊎ (status ≡ 504))))))

retry_status_iff : (status : ℕ) → (retry_status status ≡ true) ↔ IsRetried status
unfolding retry_status
retry_status_iff status = ground arith

module _ (to_lower : Str → Str) where
  -- The first 300 bytes of the answer say, in whatever case, that the input is too long.
  abbrev pub SaysTooLong : Str → Type 0
  SaysTooLong body =
      Contains (to_lower (take 300 body)) (codes "too long")
      ⊎ (Contains (to_lower (take 300 body)) (codes "context length")
          ⊎ Contains (to_lower (take 300 body)) (codes "maximum context"))

  detail_lem : (body : Str) → truncate (truncate (take 33554432 body) 300) 300 ≡ take 300 body
  detail_lem body =
      rw
        (
          truncate_lem (take 33554432 body) 300,
          truncate_lem (take 300 (take 33554432 body)) 300,
          take-take 300 300 (take 33554432 body) (omega arith),
        )
        (take-take 300 33554432 body (omega arith))

  mentions_iff :
      (body : Str)
      → (mentions_too_long to_lower (truncate (take 33554432 body) 300) ≡ true) ↔ SaysTooLong body
  unfolding mentions_too_long
  mentions_iff body =
      let d = to_lower (take 300 body) in
      let (long, long') = contains_iff d (codes "too long") in
      let (context, context') = contains_iff d (codes "context length") in
      let (most, most') = contains_iff d (codes "maximum context") in
      rw (detail_lem body) (ground arith)

  -- The answers after which a call should try again: the network failed, a good answer could not
  -- be read to its end, or the status is one of the seven and the text does not say too long.
  abbrev pub Transient : Sent → Type 0
  Transient (unbuilt e) = ⊥
  Transient (unreachable e) = Unit {0}
  Transient (answer status header body read_error) =
      ((status < 400) × (read_error ≢ none)) ⊎ (IsRetried status × ¬ SaysTooLong body)

  is_some_iff : (o : Option Str) → (is_some o ≡ true) ↔ (o ≢ none)
  is_some_iff none = (λ h. cc, λ h. absurd (h refl))
  is_some_iff (some e) = (λ h. λ n. cc, λ h. refl)

  IsRetried-high : (status : ℕ) → IsRetried status → 400 ≤ status
  IsRetried-high status r = omega arith

  and_left : (a b : Bool) → (a && not b) ≡ true → a ≡ true
  and_left a b h = ground arith

  and_not : (a b : Bool) → (a && not b) ≡ true → b ≡ true → ⊥
  and_not a b h e = ground arith

  and_intro : (a b : Bool) → a ≡ true → ¬ (b ≡ true) → (a && not b) ≡ true
  and_intro a b h e = ground arith

  module _ (print : ℕ → Str) where
    is_transient_iff : (sent : Sent) → (is_transient to_lower print sent ≡ true) ↔ Transient sent
    unfolding is_transient
    is_transient_iff (unbuilt e) = (λ h. cc, λ h. absurd h)
    is_transient_iff (unreachable e) = (λ h. tt, λ h. refl)
    is_transient_iff (answer status header body o) =
        let (retried, retried') = retry_status_iff status in
        let (long, long') = mentions_iff body in
        let retry = retry_status status in
        let too_long = mentions_too_long to_lower (truncate (take 33554432 body) 300) in
        let (cut, cut') = is_some_iff o in
        elim (Bool-cases (leb 400 status)) [
          | inl e ↦ rw e (
            λ h. inr (retried (and_left retry too_long h), λ s. and_not retry too_long h (long' s)),
            λ t. elim t [
              | inl (low, there) ↦ absurd (ground (arith, e))
              | inr (r, short) ↦ and_intro retry too_long (retried' r) (λ m. short (long m))
            ],
          )
          | inr e ↦ rw e (
            λ h. inl (ground (arith, e), cut h),
            λ t. elim t [
              | inl (low, there) ↦ cut' there
              | inr (r, short) ↦ absurd (ground (arith, e, IsRetried-high status r))
            ],
          )
        ]

    -- `post` asks for another attempt exactly after a failure of the network, an answer with a
    -- status below 400 that could not be read to its end, and an answer with one of the statuses
    -- 408, 409, 429, 500, 502, 503 and 504 whose first 300 bytes, in lower case, do not have "too
    -- long", "context length" or "maximum context" in them.
    pub classify-again :
        (sent : Sent)
        → (is_again to_lower print (classify to_lower print sent) ≡ true) ↔ Transient sent
    classify-again sent = rw (classify_lem to_lower print sent) (is_transient_iff sent)

    -- What `post` gives back at once is not a bad status, which asks for another attempt.
    abbrev pub IsStop : Posted → Type 0
    IsStop (payload raw) = Unit {0}
    IsStop (again e) = Unit {0}
    IsStop (stop e) = (status : ℕ) (header : Str) → e ≢ bad_status status header

    bad_answer-IsStop :
        (large retry : Bool) (overload_text failed_text header : Str) (status : ℕ)
        → IsStop (
            if large
            then stop (CallError.overload overload_text)
            else if retry
            then again (bad_status status header)
            else stop (CallError.failed failed_text))
    bad_answer-IsStop true retry o f header status = λ s h e. cc
    bad_answer-IsStop false true o f header status = tt
    bad_answer-IsStop false false o f header status = λ s h e. cc

    read_answer-IsStop : (raw : Str) (o : Option Str) → IsStop (read_answer to_lower print raw o)
    read_answer-IsStop raw none = tt
    read_answer-IsStop raw (some e) = tt

    pub classify-IsStop : (sent : Sent) → IsStop (classify to_lower print sent)
    unfolding classify
    classify-IsStop (unbuilt e) = λ s h k. cc
    classify-IsStop (unreachable e) = tt
    classify-IsStop (answer status header raw o) = elim (Bool-cases (leb 400 status)) [
      | inl e ↦ rw e (bad_answer-IsStop _ (retry_status status) _ _ header status)
      | inr e ↦ rw e (read_answer-IsStop (take 33554432 raw) o)
    ]
