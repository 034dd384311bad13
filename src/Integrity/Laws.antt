-- ===== src/Integrity/Laws.antt =====
-- What a run of the checks reports.
use fact_checker.Base.{
  ℕ, List, [], ◌∷◌, ◌++◌, map, append_assoc, append-nil, length, Str, codes, true, ok, >>=-eq-ok,
  ◌≡◌, refl, sym, ◌∙◌, ◌↔◌, ap, subst, arith, All,
}
use fact_checker.Integrity.{
  QueryEnd, rows, not_run, not_scanned, not_iterated, Severity, severity_error, same_severity,
  Check, CheckResult, labelled, run_checks, count_by_severity, error_count, status_for,
}

-- Every result of a severity has found nothing.
abbrev pub IsClean : Severity → List CheckResult → Type 0
IsClean severity results =
    All (λ (r : CheckResult). same_severity r.check.severity severity ≡ true → r.count ≡ 0) results

count_by_severity-IsClean :
    (results : List CheckResult) (severity : Severity)
    → (count_by_severity results severity ≡ 0) ↔ IsClean severity results
unfolding count_by_severity
count_by_severity-IsClean [] severity = (λ h. tt, λ h. refl)
count_by_severity-IsClean (r ∷ results) severity =
    let (to_clean, from_clean) = count_by_severity-IsClean results severity in
    (
      λ h. (ground arith, to_clean (ground arith)),
      λ (clean, more). ground (arith, clean, from_clean more),
    )

pub ok_none : (n : ℕ) → status_for n ≡ codes "ok" → n ≡ 0
unfolding status_for
ok_none n h = ground arith

pub none_ok : (n : ℕ) → n ≡ 0 → status_for n ≡ codes "ok"
unfolding status_for
none_ok n h = rw h refl

labelled-eq-ok :
    (query : Str → QueryEnd) (check : Check) (end : QueryEnd) (refs : List Str)
    → labelled query check end ≡ ok refs
    → end ≡ rows refs
labelled-eq-ok query check (rows found) refs h = ground (arith, h)
labelled-eq-ok query check (not_run e) refs h = cc
labelled-eq-ok query check (not_scanned e) refs h = cc
labelled-eq-ok query check (not_iterated e) refs h = cc

module _ (query : Str → QueryEnd) where
  -- The result is what its query found.
  pub record IsReport (r : CheckResult) : Type 0 where
    pub found : query r.check.query ≡ rows r.samples
    pub counted : r.count ≡ length r.samples

  run_checks-onto :
      (checks : List Check) (before results : List CheckResult)
      → run_checks query checks before ≡ ok results
      → (new : List CheckResult) × (results ≡ before ++ new)
        × (map (λ r. r.check) new ≡ checks)
        × All IsReport new
  unfolding run_checks
  run_checks-onto [] before results h = ([], sym (ground (arith, h, append-nil before)), refl, tt)
  run_checks-onto (check ∷ checks) before results h =
      let (refs, found, more) = >>=-eq-ok (labelled query check (query check.query)) _ h in
      let r : CheckResult = record { check = check; count = length refs; samples = refs } in
      let (new, kept, same, all_found) = run_checks-onto checks (before ++ r ∷ []) results more in
      (
        r ∷ new,
        kept ∙ append_assoc before (r ∷ []) new,
        ap (λ l. check ∷ l) same,
        (record { found = labelled-eq-ok query check _ refs found; counted = refl }, all_found),
      )

  -- A run of the checks that succeeds has one result for each check, in order, which holds all that
  -- its query found; and it has the status `ok` exactly when no check that is an error found
  -- anything, whatever the warnings.
  pub run_checks-status :
      (checks : List Check) (results : List CheckResult)
      → run_checks query checks [] ≡ ok results
      → (map (λ r. r.check) results ≡ checks)
        × All IsReport results
        × ((status_for (error_count results) ≡ codes "ok") ↔ IsClean severity_error results)
  unfolding status_for error_count
  run_checks-status checks results h =
      let (new, kept, same, all_found) = run_checks-onto checks [] results h in
      let (to_clean, from_clean) = count_by_severity-IsClean results severity_error in
      (
        ap (map (λ r. r.check)) kept ∙ same,
        subst (All IsReport) (sym kept) all_found,
        (
          λ k. to_clean (ok_none (error_count results) k),
          λ k. none_ok (error_count results) (from_clean k),
        ),
      )
