-- ===== src/Llm/Call/Requests.antt =====
-- How many requests each part of one call makes.
use fact_checker.Base.{
  ℕ, zero, suc, ◌+◌, ◌≤◌, ◌≡◌, refl, Str, Option, none, some, arith, Bool, true, false,
  if◌then◌else◌,
}
use fact_checker.Llm.Types.{CallError, Client}
use fact_checker.Llm.Backoff.{next_delay}
use fact_checker.Llm.Reply.{Posted, payload, again, stop}
use fact_checker.Llm.Call.{
  World, CallState, Called, gave_up, Formats, throttle, post, try_once, sleep_backoff,
  complete_loop, settle, resume, throttle_when, post_when, retry_after,
}

module _ {W : Type 0} (world : World W) (requests : W → ℕ) where
  -- The count goes up with each request, and with nothing else.
  pub record Counts : Type 0 where
    pub wait_counts : (d : ℕ) (w : W) → requests (world.wait d w).1 ≡ requests w
    pub send_counts : (body : Str) (w : W) → requests (world.send body w).1 ≡ suc (requests w)

  module _ (formats : Formats) (c : Client) (body : Str) where
    module _ (counts : Counts) where
      post-requests :
          (s : CallState W)
          → requests (post world formats c body s).1.world ≡ suc (requests s.world)
      unfolding post
      post-requests s = counts.send_counts body s.world

      wait_for-requests :
          (b : Bool) (d : ℕ) (w : W)
          → requests (if b then (none, w) else world.wait d w).1 ≡ requests w
      wait_for-requests true d w = refl
      wait_for-requests false d w = counts.wait_counts d w

      pub throttle-requests :
          (s : CallState W) → requests (throttle world formats c body s).1.world ≡ requests s.world
      unfolding throttle
      throttle-requests s = wait_for-requests _ _ s.world

      post_when-requests :
          (p : Option Str × CallState W)
          → requests (post_when world formats c body p).1.world ≤ suc (requests p.1.world)
      post_when-requests (none, s) = omega (arith, post-requests s)
      post_when-requests (some e, s) = omega arith

      try_once-requests :
          (s : CallState W)
          → requests (try_once world formats c body s).1.world ≤ suc (requests s.world)
      unfolding try_once
      try_once-requests s = go (world.cancelled s.world)
        where
          go :
              (o : Option Str)
              → requests (throttle_when world formats c body o s).1.world ≤ suc (requests s.world)
          go none =
              omega
                (arith, post_when-requests (throttle world formats c body s), throttle-requests s)
          go (some e) = omega arith

      settle-requests :
          (retry : CallError → CallState W → Called × CallState W) (p : (Posted × ℕ) × CallState W)
          (n : ℕ)
          → ((e : CallError) (t : CallState W)
              → requests (retry e t).1.world ≤ requests t.world + n)
          → requests (settle world formats c body retry p).1.world ≤ requests p.1.world + n
      settle-requests retry ((payload raw, started), s) n h = omega arith
      settle-requests retry ((again e, started), s) n h = h e s
      settle-requests retry ((stop e, started), s) n h = omega arith

      resume-requests :
          (go : CallState W → Called × CallState W) (p : Option Str × CallState W) (n : ℕ)
          → ((t : CallState W) → requests (go t).1.world ≤ requests t.world + n)
          → requests (resume world formats c body go p).1.world ≤ requests p.1.world + n
      resume-requests go (none, s) n h = h s
      resume-requests go (some e, s) n h = omega arith

      pub sleep_backoff-requests :
          (delay : ℕ) (header : Str) (s : CallState W)
          → requests (sleep_backoff world formats c body delay header s).1.world ≡ requests s.world
      unfolding sleep_backoff
      sleep_backoff-requests delay header s = counts.wait_counts _ s.world

      pub complete_loop-requests :
          (left delay : ℕ) (s : CallState W)
          → requests (complete_loop world formats c body left delay s).1.world
            ≤ requests s.world + suc left
      unfolding complete_loop
      complete_loop-requests zero delay s = omega (
        arith,
        try_once-requests s,
        settle-requests (λ e t. (gave_up e, t)) (try_once world formats c body s) 0
            (λ e t. omega arith),
      )
      complete_loop-requests (suc left) delay s = omega (
        arith,
        try_once-requests s,
        settle-requests
            (λ e t.
              resume world formats c body
                (complete_loop world formats c body left (next_delay delay))
                (sleep_backoff world formats c body delay (retry_after e) t))
            (try_once world formats c body s) (suc left)
            (λ e t. omega (
              arith,
              sleep_backoff-requests delay (retry_after e) t,
              resume-requests (complete_loop world formats c body left (next_delay delay))
                  (sleep_backoff world formats c body delay (retry_after e) t) (suc left)
                  (complete_loop-requests left (next_delay delay)),
            )),
      )
