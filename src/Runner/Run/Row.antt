-- ===== src/Runner/Run/Row.antt =====
-- What a run leaves in the table pipeline_runs.
use fact_checker.Base.{
  sym, length, leb, take, ℕ, [], ◌∷◌, ◌++◌, map, map-append, Str, codes, Bool, not, ◌&&◌, eqb,
  Option, none, some, ◌≡◌, refl, ◌∙◌, ap, ◌⊎◌, inl, inr, Bool-cases, false, All, arith,
}
use fact_checker.Runner.Plan.Laws.{take-all}
use fact_checker.Runner.Types.{Options, Stats, new_stats}
use fact_checker.Runner.Run.{
  cut_message, normalize, RunRow, Runs, running, begin_run, end_row, finish_run, Ended, Faults,
  record_outcome, begun, run_extraction,
}

-- No row has the id.
abbrev pub IsFresh : ℕ → Runs → Type 0
IsFresh id runs = All (λ (r : RunRow). eqb r.id id ≡ false) runs

-- The rows of a run that has ended well, and of one that has ended with an error.
abbrev pub ok_row : ℕ → RunRow
ok_row id = record { id = id; run_kind = codes "extract"; status = codes "ok"; notes = none }

abbrev pub failed_row : ℕ → Str → RunRow
failed_row id message = record {
  id = id;
  run_kind = codes "extract";
  status = codes "failed";
  notes = some (take 2000 message);
}

abbrev ended_row : ℕ → Option Str → RunRow
ended_row id none = ok_row id
ended_row id (some message) = failed_row id message

cut_message_lem : (message : Str) → cut_message message ≡ take 2000 message
cut_message_lem message = elim (Bool-cases (leb (length message) 2000)) [
  | inl e ↦ rw e (sym (take-all 2000 message (ground arith)))
  | inr e ↦ rw e
]

end_row_lem :
    (id : ℕ) (run_error : Option Str) → end_row id run_error (running id) ≡ ended_row id run_error
end_row_lem id none = ground arith
end_row_lem id (some message) = rw (cut_message_lem message) (ground arith)

end_row-map :
    (id : ℕ) (run_error : Option Str) (runs : Runs)
    → IsFresh id runs
    → map (end_row id run_error) runs ≡ runs
end_row-map id run_error [] fresh = refl
end_row-map id run_error (r ∷ runs) fresh =
    rw (fresh.0) (ap (λ rs. r ∷ rs) (end_row-map id run_error runs fresh.1))

finish_run-begin_run :
    (id : ℕ) (run_error : Option Str) (runs : Runs)
    → IsFresh id runs
    → finish_run id run_error (begin_run id runs) ≡ runs ++ ended_row id run_error ∷ []
unfolding finish_run begin_run
finish_run-begin_run id run_error runs fresh =
    map-append (end_row id run_error) runs (running id ∷ [])
    ∙ rw (end_row-map id run_error runs fresh, end_row_lem id run_error)

-- What an end says of the rows.
pub record IsRecorded (id : ℕ) (runs : Runs) (e : Ended) : Type 0 where
  pub succeeded : e.error ≡ none → e.runs ≡ runs ++ ok_row id ∷ []
  pub failed :
      (m : Str)
      → e.error ≡ some m
      → (e.runs ≡ runs)
        ⊎ ((e.runs ≡ runs ++ running id ∷ []) ⊎ (e.runs ≡ runs ++ failed_row id m ∷ []))

module _ {F : Type 0} (execute : Options F → ℕ → Stats → Stats × Option Str) (faults : Faults)
    (id : ℕ) (runs : Runs) (fresh : IsFresh id runs) where
  record_outcome-IsRecorded :
      (r : Stats × Option Str) (fault : Option Str)
      → IsRecorded id runs (record_outcome execute faults id r fault (begin_run id runs))
  record_outcome-IsRecorded (stats, run_error) (some e) = record {
    succeeded = λ h. cc;
    failed = λ m h. inr (inl (unfold begin_run in refl));
  }
  record_outcome-IsRecorded (stats, run_error) none = record {
    succeeded =
        λ h. finish_run-begin_run id run_error runs fresh ∙ ap (λ x. runs ++ ended_row id x ∷ []) h;
    failed = λ m h. inr (
        inr
          (finish_run-begin_run id run_error runs fresh ∙ ap (λ x. runs ++ ended_row id x ∷ []) h));
  }

  begun-IsRecorded :
      (opts : Options F) (fault : Option Str)
      → IsRecorded id runs (begun execute faults opts id fault runs)
  begun-IsRecorded opts (some e) = record { succeeded = λ h. cc; failed = λ m h. inl refl }
  begun-IsRecorded opts none =
      record_outcome-IsRecorded (execute (normalize opts) id new_stats) faults.finish

  -- When `Run` returns no error, it has added one row to pipeline_runs, which is "ok" and has no
  -- notes. When it returns an error, it has added no row, a row that is still "running", or a row
  -- that is "failed" with the first 2000 bytes of that error as its notes; the rows that were there
  -- are as they were, where no row has the new id.
  pub run_extraction-IsRecorded :
      (opts : Options F) (has_client : Bool)
      → IsRecorded id runs (run_extraction execute faults opts has_client id runs)
  unfolding run_extraction
  run_extraction-IsRecorded opts has_client =
      elim (Bool-cases (not opts.dry_run && not has_client)) [
        | inl e ↦ rw e (record { succeeded = λ h. cc; failed = λ m h. inl refl })
        | inr e ↦ rw e (begun-IsRecorded opts faults.begin)
      ]
