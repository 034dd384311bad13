-- ===== src/Integrity.antt =====
-- The running of the checks of internal/integrity/integrity.go and the status that
-- cmd/fact-checker/main.go gives a run. What a check's query finds is a parameter, and the list of
-- the checks is given.
pub mod Laws
use fact_checker.Base.{
  ℕ, ◌+◌, ltb, List, [], ◌∷◌, ◌++◌, length, Str, codes, Bool, ◌==◌, Option, none, some, Result, ok,
  err, ◌>>=◌, if◌then◌else◌,
}

pub data Severity : Type 0 where
  severity_error : Severity
  severity_warning : Severity

pub record Check : Type 0 where
  pub code : Str
  pub severity : Severity
  pub description : Str
  pub query : Str

pub record CheckResult : Type 0 where
  pub check : Check
  pub count : ℕ
  pub samples : List Str

abbrev pub same_severity : Severity → Severity → Bool
same_severity severity_error severity_error = Bool.true
same_severity severity_warning severity_warning = Bool.true
same_severity _ _ = Bool.false

unfoldable pub by_code : List Check → Str → Option Check
by_code [] code = none
by_code (c ∷ checks) code = if c.code == code then some c else by_code checks code

-- How a query ends: with its rows, or with an error when it is sent, when a row is read, or when
-- the rows are at their end.
pub data QueryEnd : Type 0 where
  rows : List Str → QueryEnd
  not_run : Str → QueryEnd
  not_scanned : Str → QueryEnd
  not_iterated : Str → QueryEnd

module _ (query : Str → QueryEnd) where
  abbrev labelled : Check → QueryEnd → Result (List Str)
  labelled check (rows refs) = ok refs
  labelled check (not_run e) = err (codes "run check " ++ check.code ++ codes ": " ++ e)
  labelled check (not_scanned e) = err (codes "scan check " ++ check.code ++ codes ": " ++ e)
  labelled check (not_iterated e) = err (codes "iterate check " ++ check.code ++ codes ": " ++ e)

  unfoldable pub run_checks : List Check → List CheckResult → Result (List CheckResult)
  run_checks [] results = ok results
  run_checks (check ∷ checks) results = labelled check (query check.query) >>= λ refs.
      run_checks checks
        (results ++ (record { check = check; count = length refs; samples = refs }) ∷ [])

unfoldable pub count_by_severity : List CheckResult → Severity → ℕ
count_by_severity [] severity = 0
count_by_severity (r ∷ results) severity =
    let rest = count_by_severity results severity in
    if same_severity r.check.severity severity then r.count + rest else rest

unfoldable pub error_count : List CheckResult → ℕ
unfolding count_by_severity
error_count results = count_by_severity results severity_error

unfoldable pub warning_count : List CheckResult → ℕ
unfolding count_by_severity
warning_count results = count_by_severity results severity_warning

unfoldable pub status_for : ℕ → Str
status_for n = if ltb 0 n then codes "failed" else codes "ok"
