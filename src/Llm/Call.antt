-- ===== src/Llm/Call.antt =====
-- `NewClient` and the retry loop `Complete` of internal/llm/llm.go, over a world that a section's
-- parameter describes: the context, the clock, the timers and the endpoint.
pub mod Requests
pub mod Laws
use fact_checker.Base.{
  ℕ, zero, suc, ◌-◌, max, [], ◌∷◌, ◌++◌, Str, codes, ◌==◌, Option, none, some, Result, ok, err, eqb,
  if◌then◌else◌,
}
use fact_checker.Llm.Types.{
  CallError, Response, Client, ClientOptions, second, max_retries, default_request_interval,
  default_timeout, default_max_tokens, or_default,
}
use fact_checker.Llm.Backoff.{next_delay, pause}
use fact_checker.Llm.Gate.{claim_slot}
use fact_checker.Llm.Reply.{
  Sent, Posted, payload, again, stop, classify, ChatReply, parse_chat_response,
}

-- trimTrailingSlash, from the end of the text.
unfoldable pub trim_trailing_slash : Str → Str
trim_trailing_slash [] = []
trim_trailing_slash (x ∷ s) =
    let rest = trim_trailing_slash s in
    if rest == [] then (if eqb x b'/' then [] else x ∷ []) else x ∷ rest

abbrev positive_or : ℕ → ℕ → ℕ
positive_or default_value value = if eqb value 0 then default_value else value

unfoldable pub new_client : Str → Str → Str → ClientOptions → Result Client
unfolding trim_trailing_slash or_default
new_client api_key model base_url opts =
    if api_key == []
    then err (codes "no API key configured (set FACTCHECK_AI_API_KEY)")
    else if model == []
    then err (codes "no model configured (set FACTCHECK_MODEL_EXTRACT)")
    else ok (record {
      api_key = api_key;
      model = model;
      base_url = trim_trailing_slash (or_default base_url (codes "https://api.openai.com/v1"));
      interval = positive_or default_request_interval opts.request_interval;
      timeout = positive_or default_timeout opts.timeout;
      max_token = positive_or default_max_tokens opts.max_tokens;
    })

-- The context's error; the time; a timer, which the context may cut short with its error; a request.
pub record World (W : Type 0) : Type 0 where
  pub cancelled : W → Option Str
  pub now : W → ℕ
  pub wait : ℕ → W → Option Str × W
  pub send : Str → W → Sent × W

-- What the calls share: the last slot, and the world.
pub record CallState (W : Type 0) : Type 0 where
  pub last_slot : Option ℕ
  pub world : W

pub data Called : Type 0 where
  answered : Response → Called
  gave_up : CallError → Called

-- The Retry-After of an error.
abbrev retry_after : CallError → Str
retry_after (CallError.overload m) = []
retry_after (CallError.bad_status s header) = header
retry_after (CallError.failed m) = []

-- The parts of the Go library that a call relies on.
pub record Formats : Type 0 where
  pub to_lower : Str → Str
  pub print : ℕ → Str
  pub parse_seconds : Str → Option ℕ
  pub decode_reply : Str → Option ChatReply

module _ {W : Type 0} (world : World W) (formats : Formats) (c : Client) (body : Str) where
  -- A wait of 0 starts no timer.
  abbrev wait_for : ℕ → W → Option Str × W
  wait_for d w = if eqb d 0 then (none, w) else world.wait d w

  unfoldable pub throttle : CallState W → Option Str × CallState W
  unfolding claim_slot
  throttle s =
      let claim = claim_slot c.interval s.last_slot (world.now s.world) in
      let waited = wait_for claim.wait s.world in
      (waited.0, record { last_slot = claim.last_slot; world = waited.1 })

  -- `post`, and the time at which it starts.
  unfoldable pub post : CallState W → (Posted × ℕ) × CallState W
  unfolding classify
  post s =
      let sent = world.send body s.world in
      (
        (classify formats.to_lower formats.print sent.0, world.now s.world),
        record { last_slot = s.last_slot; world = sent.1 },
      )

  abbrev post_when : Option Str × CallState W → (Posted × ℕ) × CallState W
  post_when (none, s) = post s
  post_when (some e, s) = ((stop (CallError.failed (codes "rate gate: " ++ e)), 0), s)

  abbrev throttle_when : Option Str → CallState W → (Posted × ℕ) × CallState W
  throttle_when none s = post_when (throttle s)
  throttle_when (some e) s = ((stop (CallError.failed (codes "model call cancelled: " ++ e)), 0), s)

  -- One round up to the answer. An error of the context or of the gate is given back.
  unfoldable pub try_once : CallState W → (Posted × ℕ) × CallState W
  unfolding throttle post
  try_once s = throttle_when (world.cancelled s.world) s

  abbrev pub with_latency : ℕ → CallState W → Result Response → Called
  with_latency started s (ok r) = answered (record {
    text = r.text;
    model = or_default r.model c.model;
    input_tokens = r.input_tokens;
    output_tokens = r.output_tokens;
    finish_reason = r.finish_reason;
    latency = world.now s.world - started;
  })
  with_latency started s (err e) = gave_up (CallError.failed e)

  -- What follows the answer: `retry` is what the loop does with a transient error.
  abbrev settle :
      (CallError → CallState W → Called × CallState W)
      → (Posted × ℕ) × CallState W
      → Called × CallState W
  settle retry ((payload raw, started), s) =
      (with_latency started s (parse_chat_response formats.decode_reply raw), s)
  settle retry ((again e, started), s) = retry e s
  settle retry ((stop e, started), s) = (gave_up e, s)

  abbrev resume :
      (CallState W → Called × CallState W) → Option Str × CallState W → Called × CallState W
  resume go (none, s) = go s
  resume go (some e, s) = (gave_up (CallError.failed (codes "backoff: " ++ e)), s)

  unfoldable pub sleep_backoff : ℕ → Str → CallState W → Option Str × CallState W
  unfolding pause
  sleep_backoff delay header s =
      let waited = world.wait (pause formats.parse_seconds delay header) s.world in
      (waited.0, record { last_slot = s.last_slot; world = waited.1 })

  -- The rounds, with `left` retries to go. At 0 this is the last attempt.
  unfoldable pub complete_loop : ℕ → ℕ → CallState W → Called × CallState W
  unfolding try_once sleep_backoff next_delay
  complete_loop zero delay s = settle (λ e t. (gave_up e, t)) (try_once s)
  complete_loop (suc left) delay s =
      settle
        (λ e t.
          resume (complete_loop left (next_delay delay)) (sleep_backoff delay (retry_after e) t))
        (try_once s)

  unfoldable pub complete : CallState W → Called × CallState W
  unfolding complete_loop
  complete s = complete_loop max_retries (max c.interval second) s
