-- ===== src/Graph/Sound/Records.antt =====
-- The rows of validated records have no finding in a graph that has all of them.
use fact_checker.Base.{
  All-of_map, List, [], ◌∷◌, map, ◌≡◌, true, false, Str, codes, All, All-append, All-map, Option,
  none, some,
}
use fact_checker.Extract.{Citation}
use fact_checker.Validate.Types.{
  EntityName, EntityRecord, ClaimVersionRecord, ClaimRecord, ContradictionEntry, ValidationContext,
  needs_versions,
}
use fact_checker.Validate.Citations.Citeable.{IsCiteable}
use fact_checker.Validate.Citations.Reason.{IsCited}
use fact_checker.Validate.Whole.Cited.{IsCitedClaim}
use fact_checker.Graph.Rows.{name_row, Graph, key, exists_at}
use fact_checker.Graph.Load.{
  nullable, concat_map, entity_rows, claim_itself, claim_citation, version_itself,
  version_citations, claim_rows, contradiction_rows,
}
use fact_checker.Graph.Checks.{bad_locator}
use fact_checker.Graph.Sound.Findings.{IsSound}
use fact_checker.Graph.Sound.Tables.{
  entity_row-IsSound, name_row-IsSound, contradiction_row-IsSound, contradiction_claim_row-IsSound,
  claim_row-IsSound, version_row-IsSound, claim_source_row-IsSound,
}
use fact_checker.Graph.Sound.Present.{first_cited}
use fact_checker.Graph.Rows.Laws.{begins_with-append}
use fact_checker.Graph.Sound.Included.{
  Included, Included-front, Included-back, Included-rest, All-concat_map,
}

module _ (g : Graph) where
  names-IsSound :
      (entity : Str) (ns : List EntityName)
      → All
          (IsSound g)
          (map (λ (n : EntityName). name_row entity n.name n.name_kind (nullable n.language)) ns)
  names-IsSound entity [] = tt
  names-IsSound entity (n ∷ ns) =
      (name_row-IsSound g entity n.name n.name_kind (nullable n.language), names-IsSound entity ns)

  pub entities-IsSound : (es : List EntityRecord) → All (IsSound g) (concat_map entity_rows es)
  entities-IsSound [] = tt
  entities-IsSound (e ∷ es) = (
    entity_row-IsSound g e.id e.kind e.canonical_name e.attributes,
    All-append (IsSound g) (map _ e.names) (concat_map entity_rows es) (names-IsSound e.id e.names)
        (entities-IsSound es),
  )

  pub register-IsSound :
      (es : List ContradictionEntry) → All (IsSound g) (concat_map contradiction_rows es)
  register-IsSound [] = tt
  register-IsSound (e ∷ es) = (
    contradiction_row-IsSound g e.id e.title e.description,
    (
      contradiction_claim_row-IsSound g e.id e.claim_id (codes "auto-registered at extraction"),
      register-IsSound es,
    ),
  )

  -- The claim, its versions and the citations of both.
  cites_there :
      (claim : Str) (version : Option Str) (cs : List Citation)
      → All (λ (c : Citation). bad_locator c.source_id (some c.locator) g ≡ false) cs
      → All (IsSound g) (map (claim_citation claim version) cs)
  cites_there claim version =
      All-of_map (IsSound g) _ (claim_citation claim version)
        (λ c h. claim_source_row-IsSound g claim version c.source_id c.locator (nullable c.note) h)

  module _ (ctx : ValidationContext)
      (locators : (c : Citation)
        → IsCiteable ctx.unit c
        → bad_locator c.source_id (some c.locator) g ≡ false) where
    citations-IsSound :
        (claim : Str) (version : Option Str) (cs : List Citation)
        → IsCited ctx.unit cs
        → All (IsSound g) (map (claim_citation claim version) cs)
    citations-IsSound claim version cs h =
        cites_there claim version cs (All-map (IsCiteable ctx.unit) _ locators cs h.citeable)

    versions-IsSound :
        (claim : Str) (vs : List ClaimVersionRecord)
        → All (λ (v : ClaimVersionRecord). IsCited ctx.unit v.sources) vs
        → Included (concat_map (version_citations claim) vs) g
        → All (IsSound g) (map (version_itself claim) vs)
    unfolding key
    versions-IsSound claim [] cited h = tt
    versions-IsSound claim (v ∷ vs) cited h = (
      version_row-IsSound g claim v.label v.statement (
          first_cited g (claim_citation claim (some v.label))
            (codes "claim_sources" ∷ claim ∷ codes "version" ∷ v.label ∷ []) v.sources
            (cited.0).satisfies.cited (Included-front g (version_citations claim v) _ h)
            (λ c.
              begins_with-append (codes "claim_sources" ∷ claim ∷ codes "version" ∷ v.label ∷ [])
                (c.source_id ∷ []))),
      versions-IsSound claim vs cited.1 (Included-back g (version_citations claim v) _ h),
    )

    pub claim_rows-IsSound :
        (c : ClaimRecord)
        → Included (claim_rows c) g
        → IsCitedClaim ctx c
        → (needs_versions c.confidence ≡ true
            → exists_at (codes "contradiction_claims" ∷ c.id ∷ []) g ≡ true)
        → All (IsSound g) (claim_rows c)
    unfolding key
    claim_rows-IsSound c h cited registered =
        let after_claim = Included-rest g (claim_itself c) _ h in
        let after_versions = Included-back g (map (version_itself c.id) c.versions) _ after_claim in
        let of_versions =
          Included-back g (map (claim_citation c.id none) c.sources) _ after_versions in
        let there =
          first_cited g (claim_citation c.id none) (codes "claim_sources" ∷ c.id ∷ []) c.sources
            cited.cited.satisfies.cited
            (Included-front g (map (claim_citation c.id none) c.sources) _ after_versions)
            (λ d.
              begins_with-append (codes "claim_sources" ∷ c.id ∷ [])
                (codes "claim" ∷ d.source_id ∷ [])) in
        (
          claim_row-IsSound g _ there registered,
          All-append (IsSound g) (map (version_itself c.id) c.versions) _
              (versions-IsSound c.id c.versions cited.versions_cited of_versions)
              (All-append (IsSound g) (map (claim_citation c.id none) c.sources) _
                (citations-IsSound c.id none c.sources cited.cited)
                (All-concat_map (IsSound g) (λ (v : ClaimVersionRecord). IsCited ctx.unit v.sources)
                  (version_citations c.id)
                  (λ v h. citations-IsSound c.id (some v.label) v.sources h) c.versions
                  cited.versions_cited)),
        )
