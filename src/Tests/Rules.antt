-- ===== src/Tests/Rules.antt =====
-- The stages of `validate`, and the rules that they use, at small inputs.
use fact_checker.Base.{[], ◌∷◌, ◌++◌, ◌+◌, map, not, select, length, ◌≡◌, ◌↔◌, codes}
use fact_checker.Extract.{both_tier}
use fact_checker.Validate.Types.{empty_validated}
use fact_checker.Validate.Citations.{
  citeable_sources, to_citation, filter_citations, citation_reason,
}
use fact_checker.Validate.Citations.Contract.{rejection, filter_citations-exact}
use fact_checker.Validate.Citations.Citeable.{is_citeable}
use fact_checker.Validate.Citations.Reason.{Satisfies, citation_reason_iff}
use fact_checker.Validate.Events.{map_events}
use fact_checker.Validate.Events.Laws.{map_events-conservation}
use fact_checker.Validate.Events.Round.{event_drops}
use fact_checker.Validate.Claims.{map_claims}
use fact_checker.Validate.Claims.Laws.{map_claims-conservation}
use fact_checker.Validate.Claims.Outcome.{claim_drops}
use fact_checker.Tests.Samples.{galadriel, cite_reference, cite_bare, both, response, context}

filter_citations-exact_example :
    let (kept, drops) =
      filter_citations
        (cite_reference ∷ cite_bare ∷ [])
        (citeable_sources galadriel)
        []
        (codes "claim:c") in
    (kept
      ≡ map to_citation
          (select (λ w. is_citeable galadriel (to_citation w)) (cite_reference ∷ cite_bare ∷ [])))
    × (drops
        ≡ []
          ++ map (rejection (codes "claim:c") (citeable_sources galadriel)) (
              select
                (λ w. not (is_citeable galadriel (to_citation w)))
                (cite_reference ∷ cite_bare ∷ [])))
filter_citations-exact_example =
    filter_citations-exact galadriel (cite_reference ∷ cite_bare ∷ []) [] (codes "claim:c")

citation_reason_iff_example :
    (citation_reason (map to_citation both) both_tier (codes "tg") ≡ [])
    ↔ Satisfies both_tier (codes "tg") (map to_citation both)
citation_reason_iff_example = citation_reason_iff (map to_citation both) both_tier (codes "tg")

map_events-conservation_example :
    let after = map_events response (citeable_sources galadriel) [] context empty_validated in
    length after.events + event_drops after.drops ≡ length response.events + (0 + event_drops [])
map_events-conservation_example = map_events-conservation response [] context empty_validated

map_claims-conservation_example :
    let after = map_claims response (citeable_sources galadriel) [] context empty_validated in
    length after.result.claims + claim_drops after.result.drops
    ≡ length response.claims + (0 + claim_drops [])
map_claims-conservation_example = map_claims-conservation response [] context empty_validated
