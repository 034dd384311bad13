-- ===== src/Llm/Reply.antt =====
-- What `post` and `parseChatResponse` of internal/llm/llm.go make of an answer. encoding/json,
-- strings.ToLower and the verb %d of fmt are parameters.
pub mod Laws
use fact_checker.Base.{
  ℕ, List, [], ◌∷◌, ◌++◌, Str, codes, Bool, true, false, ◌&&◌, ◌||◌, not, leb, eqb, eqb_iff, take,
  Option, none, some, Result, ok, err, if◌then◌else◌, ◌≡◌, refl, Bool-cases, inl, inr,
}
use fact_checker.Llm.Types.{CallError, Response, truncate, or_default, retry_status}

-- What net/http gives: a request that cannot be built, a failure of the network, or an answer with its
-- status, its Retry-After, its body and the error at which reading the body stopped.
pub data Sent : Type 0 where
  unbuilt : Str → Sent
  unreachable : Str → Sent
  answer : ℕ → Str → Str → Option Str → Sent

-- `post`: the payload, an error to try again after, or an error to give back.
pub data Posted : Type 0 where
  payload : Str → Posted
  again : CallError → Posted
  stop : CallError → Posted

-- strings.HasPrefix and strings.Contains.
unfoldable pub has_prefix : Str → Str → Bool
has_prefix s [] = true
has_prefix [] (y ∷ ys) = false
has_prefix (x ∷ s) (y ∷ ys) = eqb x y && has_prefix s ys

unfoldable pub contains : Str → Str → Bool
unfolding has_prefix
contains [] sub = has_prefix [] sub
contains (x ∷ s) sub = has_prefix (x ∷ s) sub || contains s sub

abbrev is_some {ℓ} : {A : Type ℓ} → Option A → Bool
is_some none = false
is_some (some a) = true

-- A request that is too large is not tried again.
retry_413 : (status : ℕ) → eqb status 413 ≡ true → retry_status status ≡ false
unfolding retry_status
retry_413 status e = rw ((eqb_iff status 413).0 e) refl

module _ (to_lower : Str → Str) where
  unfoldable pub mentions_too_long : Str → Bool
  unfolding contains truncate
  mentions_too_long detail =
      let d = to_lower (truncate detail 300) in
      contains d (codes "too long")
      || contains d (codes "context length")
      || contains d (codes "maximum context")

  module _ (print : ℕ → Str) where
    abbrev http_status : ℕ → Str → Str
    http_status status more = codes "HTTP " ++ print status ++ more

    abbrev bad_answer : ℕ → Str → Str → Posted
    bad_answer status retry_after detail =
        if eqb status 413 || mentions_too_long detail
        then stop
            (CallError.overload (http_status status (codes ": request too large for the model")))
        else if retry_status status
        then again (CallError.bad_status status retry_after)
        else stop (CallError.failed (http_status status (codes " from model endpoint: " ++ detail)))

    abbrev pub read_answer : Str → Option Str → Posted
    read_answer raw none = payload raw
    read_answer raw (some e) = again (CallError.failed (codes "read response body: " ++ e))

    -- The body is read up to 32 MiB.
    unfoldable pub classify : Sent → Posted
    unfolding truncate mentions_too_long retry_status
    classify (unbuilt e) = stop (CallError.failed (codes "build request: " ++ e))
    classify (unreachable e) =
        again (CallError.failed (codes "network error calling model endpoint: " ++ e))
    classify (answer status retry_after body read_error) =
        let raw = take 33554432 body in
        if leb 400 status
        then bad_answer status retry_after (truncate raw 300)
        else read_answer raw read_error

    -- The answers after which a call should try again.
    unfoldable pub is_transient : Sent → Bool
    is_transient (unbuilt e) = false
    is_transient (unreachable e) = true
    is_transient (answer status header body o) =
        if leb 400 status
        then retry_status status && not (mentions_too_long (truncate (take 33554432 body) 300))
        else is_some o

    abbrev pub is_again : Posted → Bool
    is_again (payload raw) = false
    is_again (again e) = true
    is_again (stop e) = false

    bad_answer-again :
        (status : ℕ) (header detail : Str)
        → is_again (bad_answer status header detail)
          ≡ (retry_status status && not (mentions_too_long detail))
    bad_answer-again status header detail =
        tested (eqb status 413) (mentions_too_long detail) (retry_status status) refl refl
      where
        tested :
            (large long retry : Bool)
            → eqb status 413 ≡ large
            → retry_status status ≡ retry
            → is_again (
                if large || long
                then stop (
                    CallError.overload
                      (http_status status (codes ": request too large for the model")))
                else if retry
                then again (CallError.bad_status status header)
                else stop (
                    CallError.failed
                      (http_status status (codes " from model endpoint: " ++ detail))))
              ≡ (retry && not long)
        tested true long true e r = let no : retry_status status ≡ false = retry_413 status e in cc
        tested true long false e r = refl
        tested false true true e r = refl
        tested false true false e r = refl
        tested false false true e r = refl
        tested false false false e r = refl

    read_answer-again : (raw : Str) (o : Option Str) → is_again (read_answer raw o) ≡ is_some o
    read_answer-again raw none = refl
    read_answer-again raw (some e) = refl

    classify_lem : (sent : Sent) → is_again (classify sent) ≡ is_transient sent
    unfolding classify is_transient
    classify_lem (unbuilt e) = refl
    classify_lem (unreachable e) = refl
    classify_lem (answer status header body o) = elim (Bool-cases (leb 400 status)) [
      | inl e ↦ rw e (bad_answer-again status header (truncate (take 33554432 body) 300))
      | inr e ↦ rw e (read_answer-again (take 33554432 body) o)
    ]

-- The fields of the chat reply that the pipeline reads.
pub record ChatReply : Type 0 where
  pub model : Str
  pub choices : List (Str × Str)
  pub usage : Option (ℕ × ℕ)
  pub error : Option (Str × Str)

abbrev read_usage : Str → Str × Str → Option (ℕ × ℕ) → Result Response
read_usage model choice none = err (codes "response has no usage block")
read_usage model choice (some usage) = ok (record {
  text = choice.0;
  model = model;
  input_tokens = usage.0;
  output_tokens = usage.1;
  finish_reason = choice.1;
  latency = 0;
})

abbrev read_choices : ChatReply → List (Str × Str) → Result Response
read_choices r [] = err (codes "response has no choices")
read_choices r (choice ∷ choices) = read_usage r.model choice r.usage

abbrev read_reply : ChatReply → Option (Str × Str) → Result Response
read_reply r none = read_choices r r.choices
read_reply r (some e) =
    err (codes "API error " ++ or_default e.0 (codes "unknown") ++ codes ": " ++ truncate e.1 300)

module _ (decode_reply : Str → Option ChatReply) where
  abbrev parse_decoded : Option ChatReply → Result Response
  parse_decoded none = err (codes "invalid JSON response from model endpoint")
  parse_decoded (some r) = read_reply r r.error

  unfoldable pub parse_chat_response : Str → Result Response
  parse_chat_response raw = parse_decoded (decode_reply raw)
