-- ===== src/Runner/Window/Laws.antt =====
-- The window of jobs in flight, and the accounts of a run.
use fact_checker.Base.{ℕ, ◌+◌, ◌≤◌, ◌≡◌, refl, true, false, arith, ltb, Bool-cases, inl, inr}
use fact_checker.Runner.Window.{
  Window, opened, IsOpen, Step, hold_back, submit, pend_error, receive_done, receive_failed,
  receive_error, Run, HasEnded, rest, ◌then◌, deferred_at_end,
}

ltb-false : (m n : ℕ) → ltb m n ≡ false → n ≤ m
ltb-false m n h = ground arith

module _ (concurrency pending : ℕ) where
  -- What holds of the window after every step.
  pub record Inv (w : Window) : Type 0 where
    pub next_submitted : w.next ≡ w.submitted
    pub within_window : w.in_flight ≤ concurrency
    pub within_pending : w.submitted ≤ pending
    pub no_more : w.in_flight + w.done + w.failed ≤ w.submitted
    pub all_counted : IsOpen w → w.in_flight + w.done + w.failed ≡ w.submitted

  opened-Inv : Inv opened
  opened-Inv = record {
    next_submitted = refl;
    within_window = omega arith;
    within_pending = omega arith;
    no_more = omega arith;
    all_counted = λ open_. refl;
  }

  Step-Inv : {u v : Window} → Step concurrency pending u v → Inv u → Inv v
  Step-Inv (hold_back o) i = record {
    next_submitted = i.next_submitted;
    within_window = i.within_window;
    within_pending = i.within_pending;
    no_more = i.no_more;
    all_counted = i.all_counted;
  }
  Step-Inv (submit (o, s, f, n)) i = record {
    next_submitted = omega (arith, i.next_submitted);
    within_window = omega (arith, f);
    within_pending = omega (arith, n, i.next_submitted);
    no_more = omega (arith, i.no_more);
    all_counted = λ open_. omega (arith, i.all_counted o);
  }
  Step-Inv (pend_error (o, s, f, n)) i = record {
    next_submitted = i.next_submitted;
    within_window = i.within_window;
    within_pending = i.within_pending;
    no_more = i.no_more;
    all_counted = λ open_. cc;
  }
  Step-Inv (receive_done o f) i = record {
    next_submitted = i.next_submitted;
    within_window = omega (arith, i.within_window);
    within_pending = i.within_pending;
    no_more = omega (arith, i.no_more, f);
    all_counted = λ open_. omega (arith, i.all_counted o, f);
  }
  Step-Inv (receive_failed o f) i = record {
    next_submitted = i.next_submitted;
    within_window = omega (arith, i.within_window);
    within_pending = i.within_pending;
    no_more = omega (arith, i.no_more, f);
    all_counted = λ open_. omega (arith, i.all_counted o, f);
  }
  Step-Inv (receive_error o f) i = record {
    next_submitted = i.next_submitted;
    within_window = omega (arith, i.within_window);
    within_pending = i.within_pending;
    no_more = omega (arith, i.no_more, f);
    all_counted = λ open_. cc;
  }

  Run-Inv : {u v : Window} → Run concurrency pending u v → Inv u → Inv v
  Run-Inv rest i = i
  Run-Inv (s then r) i = Run-Inv r (Step-Inv s i)

  -- In every run, whatever the order in which outcomes arrive: never more jobs are in flight than
  -- the concurrency allows, no unit is submitted twice or beyond those pending, and what was
  -- done, what failed and what is in flight was submitted.
  pub Run-window : {w : Window} → Run concurrency pending opened w → Inv w
  Run-window r = Run-Inv r opened-Inv

  -- When the loop ends without an error, each pending unit is done, failed or deferred.
  pub Run-accounts :
      {w : Window}
      → Run concurrency pending opened w
      → w.persist_error ≡ false
      → w.in_flight ≡ 0
      → pending ≡ w.done + w.failed + deferred_at_end pending 0 w
  unfolding deferred_at_end
  Run-accounts {w} r good empty =
      let i = Run-window r in rw good (omega (arith, i.all_counted good, empty, i.within_pending))

  -- When the loop has ended without an error, and neither the budget nor a cancellation held it
  -- back, every pending unit is done or failed.
  pub Run-complete :
      {w : Window}
      → 1 ≤ concurrency
      → Run concurrency pending opened w
      → w.persist_error ≡ false
      → w.stop_submitting ≡ false
      → HasEnded concurrency pending w
      → pending ≡ w.done + w.failed
  Run-complete {w} some_worker r good on (empty, stuck) =
      let i = Run-window r in
      elim (Bool-cases (ltb w.next pending)) [
        | inl more ↦ absurd (stuck (good, on, omega (arith, empty), ground arith))
        | inr over ↦ omega (
          arith,
          i.all_counted good,
          empty,
          i.within_pending,
          i.next_submitted,
          ltb-false w.next pending over,
        )
      ]

  -- When it ends with an error, the units done, failed and drained are at most those pending.
  pub Run-accounts_error :
      {w : Window} (drained : ℕ)
      → Run concurrency pending opened w
      → w.persist_error ≡ true
      → drained ≤ w.in_flight
      → w.done + w.failed + deferred_at_end pending drained w ≤ pending
  unfolding deferred_at_end
  Run-accounts_error {w} drained r bad few =
      let i = Run-window r in rw bad (omega (arith, i.no_more, few, i.within_pending))
