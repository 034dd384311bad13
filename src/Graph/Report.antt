-- ===== src/Graph/Report.antt =====
-- `Checks` of internal/integrity/integrity.go and the status of an integrity run over a graph. The
-- query of a check is named by the check's code, and `graph_query` is what the SQL finds, but for
-- the order of the rows.
use fact_checker.Base.{
  true, List, [], ◌∷◌, ◌++◌, length, ◌≡◌, refl, ap, ◌↔◌, Str, codes, ◌==◌, Result, ok, ◌>>=◌,
  if◌then◌else◌, arith, ◌+◌, ℕ,
}
use fact_checker.Wire.Types.{WireExtraction}
use fact_checker.Validate.Types.{ValidationContext}
use fact_checker.Validate.Whole.{validate}
use fact_checker.Integrity.{
  Severity, severity_error, severity_warning, Check, QueryEnd, rows, run_checks, error_count,
  count_by_severity, status_for,
}
use fact_checker.Integrity.Laws.{ok_none, none_ok}
use fact_checker.Graph.Rows.{Graph}
use fact_checker.Graph.Load.{load_records}
use fact_checker.Graph.Checks.{
  uncited_claim, uncited_event, invalid_locator, dangling_reference, orphan_claim,
  unregistered_claim, uncited_version, unproven_statement, duplicate_name, findings,
}
use fact_checker.Graph.Sound.Findings.{HasNoFinding}
use fact_checker.Graph.Sound.Locators.{covers}
use fact_checker.Graph.Sound.Kept.{HasNames, IsOf, load_records-HasNoFinding}

-- The bytes of the dash in a description.
abbrev dash : Str
dash = 0xe2 ∷ 0x80 ∷ 0x94 ∷ []

abbrev named : Severity → Str → Str → Check
named severity code description = record {
  code = code;
  severity = severity;
  description = description;
  query = code;
}

abbrev pub checks : List Check
checks =
    named severity_error (codes "claims_without_sources") (
      codes
        "Every claim must cite at least one source (uncited records are dropped at extraction, never kept).")
    ∷ named severity_error (codes "events_without_sources")
        (codes "Every event must cite at least one source.")
    ∷ named severity_error (codes "invalid_locators") (
        codes
          "Citations must carry locators satisfying the cited source's locator_scheme.required_keys.")
    ∷ named severity_error (codes "dangling_references") (
        codes
          "Logical references must resolve: participants, event links, relationship ends and justifying claims, statement provenance. Catches rows loaded with constraints bypassed.")
    ∷ named severity_warning (codes "orphan_claims") (
        codes
          "Claims connected to nothing: no subject/object entity, no justifying relationship, no contradiction entry, no statement provenance.")
    ∷ named severity_warning (codes "contested_claims_unregistered") (
        codes
          "Contested and abandoned-version claims should appear in the contradiction register (preserved, never smoothed).")
    ∷ named severity_warning (codes "claim_versions_without_citations") (
        codes
          "Each per-source claim version should be cited by at least one claim_sources row pinned to it.")
    ∷ named severity_warning (codes "statements_without_provenance") (
        codes
          "Audited statements need provenance rows or an explicit interpretive_additions declaration.")
    ∷ named severity_warning (codes "duplicate_entity_names") (
        codes "Two entities of the same kind under the same name "
        ++ dash
        ++ codes " the merge planner's territory, never auto-merged by a check.")
    ∷ []

module _ (lower : Str → Str) where
  -- What the query of each check finds.
  unfoldable pub graph_query : Graph → Str → QueryEnd
  graph_query g query =
      if query == codes "claims_without_sources"
      then rows (findings uncited_claim g)
      else if query == codes "events_without_sources"
      then rows (findings uncited_event g)
      else if query == codes "invalid_locators"
      then rows (findings invalid_locator g)
      else if query == codes "dangling_references"
      then rows (findings dangling_reference g)
      else if query == codes "orphan_claims"
      then rows (findings orphan_claim g)
      else if query == codes "contested_claims_unregistered"
      then rows (findings unregistered_claim g)
      else if query == codes "claim_versions_without_citations"
      then rows (findings uncited_version g)
      else if query == codes "statements_without_provenance"
      then rows (findings unproven_statement g)
      else rows (findings (duplicate_name lower) g)

  -- `Run`, and the status that the integrity command records.
  unfoldable pub integrity_status : Graph → Result Str
  unfolding graph_query
  integrity_status g =
      run_checks (graph_query g) checks [] >>= λ results. ok (status_for (error_count results))

  -- The findings of the four checks that are errors.
  abbrev pub errors : Graph → ℕ
  errors g =
      length (findings uncited_claim g)
      + (length (findings uncited_event g)
          + (length (findings invalid_locator g) + (length (findings dangling_reference g) + 0)))

  integrity_status_lem : (g : Graph) → integrity_status g ≡ ok (status_for (errors g))
  unfolding integrity_status graph_query run_checks error_count count_by_severity ◌==◌
  integrity_status_lem g = refl

  length-nil {ℓ} : {A : Type ℓ} (xs : List A) → (length xs ≡ 0) ↔ (xs ≡ [])
  length-nil [] = (λ h. refl, λ h. refl)
  length-nil (x ∷ xs) = (λ h. absurd (omega (arith, h)), λ h. cc)

  -- The four checks that are errors find nothing.
  pub record HasNoError (g : Graph) : Type 0 where
    pub claims_without_sources : findings uncited_claim g ≡ []
    pub events_without_sources : findings uncited_event g ≡ []
    pub invalid_locators : findings invalid_locator g ≡ []
    pub dangling_references : findings dangling_reference g ≡ []

  errors-HasNoError : (g : Graph) → (errors g ≡ 0) ↔ HasNoError g
  errors-HasNoError g = (
    λ h. record {
      claims_without_sources = (length-nil (findings uncited_claim g)).0 (omega (arith, h));
      events_without_sources = (length-nil (findings uncited_event g)).0 (omega (arith, h));
      invalid_locators = (length-nil (findings invalid_locator g)).0 (omega (arith, h));
      dangling_references = (length-nil (findings dangling_reference g)).0 (omega (arith, h));
    },
    λ h. omega (
      arith,
      (length-nil (findings uncited_claim g)).1 h.claims_without_sources,
      (length-nil (findings uncited_event g)).1 h.events_without_sources,
      (length-nil (findings invalid_locator g)).1 h.invalid_locators,
      (length-nil (findings dangling_reference g)).1 h.dangling_references,
    ),
  )

  status_for_ok : (n : ℕ) → (ok (status_for n) ≡ ok (codes "ok")) ↔ (n ≡ 0)
  status_for_ok n = (λ h. ok_none n (cc), λ h. ap ok (none_ok n h))

  -- An integrity run over a graph has the status `ok` exactly when the four checks that are errors
  -- find nothing; what the five warnings find has no part in it.
  pub integrity_status_iff : (g : Graph) → (integrity_status g ≡ ok (codes "ok")) ↔ HasNoError g
  integrity_status_iff g = (
    λ h. (errors-HasNoError g).0 ((status_for_ok (errors g)).0 (rw (integrity_status_lem g) at h)),
    λ h. rw (integrity_status_lem g) ((status_for_ok (errors g)).1 ((errors-HasNoError g).1 h)),
  )

  -- After what `Validate` keeps of a response is loaded into a graph in which the four errors and
  -- the warnings on contested claims and on versions find nothing, an integrity run has the status
  -- `ok`, where the ids of the context are of rows of the graph, the unit offers the required
  -- locator keys of the registered sources that it offers, and no participant and no end of a kept
  -- relationship is the empty id.
  pub load_records-integrity_status :
      (wire : WireExtraction) (ctx : ValidationContext) (g : Graph)
      → IsOf g ctx
      → covers ctx.unit g ≡ true
      → HasNames (validate wire ctx)
      → HasNoFinding g
      → integrity_status (load_records (validate wire ctx) g) ≡ ok (codes "ok")
  load_records-integrity_status wire ctx g known covered names clean =
      let after = load_records-HasNoFinding wire ctx g known covered names clean in
      (integrity_status_iff (load_records (validate wire ctx) g)).1 (record {
        claims_without_sources = after.claims_without_sources;
        events_without_sources = after.events_without_sources;
        invalid_locators = after.invalid_locators;
        dangling_references = after.dangling_references;
      })
