-- ===== src/Validate/Whole/Cited.antt =====
-- Cite or drop: what `validate` keeps is cited.
use fact_checker.Base.{[], ◌≡◌, ◌≢◌, true, All, All-map}
use fact_checker.Wire.Types.{WireExtraction}
use fact_checker.Validate.Types.{
  EventRecord, ClaimVersionRecord, ClaimRecord, ValidationContext, needs_versions,
}
use fact_checker.Validate.Citations.Reason.{IsCited}
use fact_checker.Validate.Events.Round.{IsLoadable as IsLoadableEvent}
use fact_checker.Validate.Claims.Outcome.{IsLoadable as IsLoadableClaim}
use fact_checker.Validate.Whole.{validate}
use fact_checker.Validate.Whole.Stages.{payload, claims_loadable, events_loadable}

-- The claim and each of its versions are cited, and a contested claim has a version.
pub record IsCitedClaim (ctx : ValidationContext) (c : ClaimRecord) : Type 0 where
  pub cited : IsCited ctx.unit c.sources
  pub versions_cited : All (λ (v : ClaimVersionRecord). IsCited ctx.unit v.sources) c.versions
  pub versioned : needs_versions c.confidence ≡ true → c.versions ≢ []

-- Every claim that `Validate` keeps, and every version of it, has citations that satisfy the
-- policy of the unit; each citation is of a source that the unit offers, with every locator key
-- that an offer of that source has. A contested or abandoned claim has at least one version.
pub validate-claims_cited :
    (wire : WireExtraction) (ctx : ValidationContext)
    → All (IsCitedClaim ctx) (validate wire ctx).claims
validate-claims_cited wire ctx =
    All-map (IsLoadableClaim (payload wire ctx) ctx) (IsCitedClaim ctx)
      (λ c good. record {
        cited = good.cited;
        versions_cited = good.versions_cited;
        versioned = good.versioned;
      })
      _ (claims_loadable wire ctx)

-- Every event that `Validate` keeps has citations that satisfy the policy of the unit, each of a
-- source that the unit offers, with every locator key that an offer of that source has.
pub validate-events-IsCited :
    (wire : WireExtraction) (ctx : ValidationContext)
    → All (λ (e : EventRecord). IsCited ctx.unit e.sources) (validate wire ctx).events
validate-events-IsCited wire ctx =
    All-map (IsLoadableEvent (payload wire ctx) ctx)
      (λ (e : EventRecord). IsCited ctx.unit e.sources) (λ e good. good.cited) _
      (events_loadable wire ctx)
