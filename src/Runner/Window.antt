-- ===== src/Runner/Window.antt =====
-- The loop of `execute` in extract/runner.go, as steps of the main goroutine. `in_flight` counts the
-- jobs submitted whose outcome has not been received, wherever the workers are with them: the order
-- in which the outcomes arrive is not fixed. The persisting of an outcome is `persist_outcome`'s;
-- here only its result counts.
pub mod Laws
use fact_checker.Base.{ℕ, suc, ◌+◌, ◌-◌, ◌<◌, ◌≡◌, Bool, true, false, if◌then◌else◌}

pub record Window : Type 0 where
  pub next : ℕ
  pub in_flight : ℕ
  pub submitted : ℕ
  pub stop_submitting : Bool
  pub persist_error : Bool
  pub done : ℕ
  pub failed : ℕ

abbrev pub opened : Window
opened = record {
  next = 0;
  in_flight = 0;
  submitted = 0;
  stop_submitting = false;
  persist_error = false;
  done = 0;
  failed = 0;
}

-- The loop goes on.
abbrev pub IsOpen : Window → Type 0
IsOpen w = w.persist_error ≡ false

-- The conditions of the inner loop.
abbrev pub CanSubmit : ℕ → ℕ → Window → Type 0
CanSubmit concurrency pending w =
    IsOpen w × (w.stop_submitting ≡ false) × (w.in_flight < concurrency) × (w.next < pending)

module _ (concurrency pending : ℕ) where
  pub data Step : Window → Window → Type 0 where
    -- The context is cancelled, or the budget does not allow the next unit.
    hold_back : {w : Window} → IsOpen w → Step w (record w { stop_submitting = true })
    -- The ledger has the unit as pending, and a worker gets the job.
    submit :
        {w : Window}
        → CanSubmit concurrency pending w
        → Step w (record w {
          next = suc w.next;
          in_flight = suc w.in_flight;
          submitted = suc w.submitted;
        })
    -- The ledger cannot be written.
    pend_error :
        {w : Window} → CanSubmit concurrency pending w → Step w (record w { persist_error = true })
    -- An outcome is received and persisted, as done, as failed, or not at all.
    receive_done :
        {w : Window}
        → IsOpen w
        → 0 < w.in_flight
        → Step w (record w { in_flight = w.in_flight - 1; done = suc w.done })
    receive_failed :
        {w : Window}
        → IsOpen w
        → 0 < w.in_flight
        → Step w (record w { in_flight = w.in_flight - 1; failed = suc w.failed })
    receive_error :
        {w : Window}
        → IsOpen w
        → 0 < w.in_flight
        → Step w (record w { in_flight = w.in_flight - 1; persist_error = true })

  infixr 5 ◌then◌
  pub data Run : Window → Window → Type 0 where
    rest : {w : Window} → Run w w
    ◌then◌ : {u v w : Window} → Step u v → Run v w → Run u w

-- The loop is left when nothing can be submitted and nothing is in flight, or at an error.
abbrev pub HasEnded : ℕ → ℕ → Window → Type 0
HasEnded concurrency pending w = (w.in_flight ≡ 0) × ((CanSubmit concurrency pending w) → ⊥)

-- The deferred units at the end of the run: `drained` outcomes that completed while it shut down, and,
-- without an error, the units that were never submitted.
unfoldable pub deferred_at_end : ℕ → ℕ → Window → ℕ
deferred_at_end pending drained w =
    if w.persist_error then drained else drained + (pending - w.submitted)
