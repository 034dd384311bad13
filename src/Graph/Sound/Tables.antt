-- ===== src/Graph/Sound/Tables.antt =====
-- When a row of each table that `LoadRecords` writes has no finding.
use fact_checker.Base.{◌∷◌, [], ◌≡◌, refl, true, false, Str, codes, Option, some, arith}
use fact_checker.Extract.{AnyMap}
use fact_checker.Validate.Types.{needs_versions}
use fact_checker.Graph.Rows.{
  EventRow, ClaimRow, entity_row, name_row, event_row, participant_row, link_row, event_source_row,
  claim_row, version_row, claim_source_row, relationship_row, contradiction_row,
  contradiction_claim_row, Graph, exists_at,
}
use fact_checker.Graph.Checks.{
  dangles, bad_locator, uncited_claim, uncited_event, invalid_locator, dangling_reference,
  unregistered_claim, uncited_version,
}
use fact_checker.Graph.Sound.Findings.{IsSound}

module _ (g : Graph) where
  pub entity_row-IsSound :
      (id kind name : Str) (attributes : AnyMap) → IsSound g (entity_row id kind name attributes)
  unfolding uncited_claim uncited_event invalid_locator dangling_reference unregistered_claim
      uncited_version
  entity_row-IsSound id kind name attributes = record {
    cited_claim = refl;
    cited_event = refl;
    located = refl;
    resolved = refl;
    registered = refl;
    cited_version = refl;
  }

  pub name_row-IsSound :
      (entity name kind : Str) (language : Option Str)
      → IsSound g (name_row entity name kind language)
  unfolding uncited_claim uncited_event invalid_locator dangling_reference unregistered_claim
      uncited_version
  name_row-IsSound entity name kind language = record {
    cited_claim = refl;
    cited_event = refl;
    located = refl;
    resolved = refl;
    registered = refl;
    cited_version = refl;
  }

  pub contradiction_row-IsSound :
      (id title description : Str) → IsSound g (contradiction_row id title description)
  unfolding uncited_claim uncited_event invalid_locator dangling_reference unregistered_claim
      uncited_version
  contradiction_row-IsSound id title description = record {
    cited_claim = refl;
    cited_event = refl;
    located = refl;
    resolved = refl;
    registered = refl;
    cited_version = refl;
  }

  pub contradiction_claim_row-IsSound :
      (id claim label : Str) → IsSound g (contradiction_claim_row id claim label)
  unfolding uncited_claim uncited_event invalid_locator dangling_reference unregistered_claim
      uncited_version
  contradiction_claim_row-IsSound id claim label = record {
    cited_claim = refl;
    cited_event = refl;
    located = refl;
    resolved = refl;
    registered = refl;
    cited_version = refl;
  }

  pub event_row-IsSound :
      (e : EventRow)
      → exists_at (codes "event_sources" ∷ e.id ∷ []) g ≡ true
      → IsSound g (event_row e)
  unfolding uncited_claim uncited_event invalid_locator dangling_reference unregistered_claim
      uncited_version
  event_row-IsSound e h = record {
    cited_claim = refl;
    cited_event = ground (arith, h);
    located = refl;
    resolved = refl;
    registered = refl;
    cited_version = refl;
  }

  pub participant_row-IsSound :
      (event entity role : Str)
      → exists_at (codes "entities" ∷ entity ∷ []) g ≡ true
      → IsSound g (participant_row event entity role)
  unfolding uncited_claim uncited_event invalid_locator dangling_reference unregistered_claim
      uncited_version
  participant_row-IsSound event entity role h = record {
    cited_claim = refl;
    cited_event = refl;
    located = refl;
    resolved = ground (arith, h);
    registered = refl;
    cited_version = refl;
  }

  pub link_row-IsSound :
      (from to kind : Str)
      → exists_at (codes "events" ∷ from ∷ []) g ≡ true
      → exists_at (codes "events" ∷ to ∷ []) g ≡ true
      → IsSound g (link_row from to kind)
  unfolding uncited_claim uncited_event invalid_locator dangling_reference unregistered_claim
      uncited_version
  link_row-IsSound from to kind h h' = record {
    cited_claim = refl;
    cited_event = refl;
    located = refl;
    resolved = ground (arith, h, h');
    registered = refl;
    cited_version = refl;
  }

  pub event_source_row-IsSound :
      (event source : Str) (locator : AnyMap) (remark : Option Str)
      → bad_locator source (some locator) g ≡ false
      → IsSound g (event_source_row event source locator remark)
  unfolding uncited_claim uncited_event invalid_locator dangling_reference unregistered_claim
      uncited_version
  event_source_row-IsSound event source locator remark h = record {
    cited_claim = refl;
    cited_event = refl;
    located = ground (arith, h);
    resolved = refl;
    registered = refl;
    cited_version = refl;
  }

  pub claim_row-IsSound :
      (c : ClaimRow)
      → exists_at (codes "claim_sources" ∷ c.id ∷ []) g ≡ true
      → (needs_versions c.confidence ≡ true
          → exists_at (codes "contradiction_claims" ∷ c.id ∷ []) g ≡ true)
      → IsSound g (claim_row c)
  unfolding uncited_claim uncited_event invalid_locator dangling_reference unregistered_claim
      uncited_version
  claim_row-IsSound c h h' = record {
    cited_claim = ground (arith, h);
    cited_event = refl;
    located = refl;
    resolved = refl;
    registered = unfold needs_versions in ground (arith, h');
    cited_version = refl;
  }

  pub version_row-IsSound :
      (claim label statement : Str)
      → exists_at (codes "claim_sources" ∷ claim ∷ codes "version" ∷ label ∷ []) g ≡ true
      → IsSound g (version_row claim label statement)
  unfolding uncited_claim uncited_event invalid_locator dangling_reference unregistered_claim
      uncited_version
  version_row-IsSound claim label statement h = record {
    cited_claim = refl;
    cited_event = refl;
    located = refl;
    resolved = refl;
    registered = refl;
    cited_version = ground (arith, h);
  }

  pub claim_source_row-IsSound :
      (claim : Str) (version : Option Str) (source : Str) (locator : AnyMap) (remark : Option Str)
      → bad_locator source (some locator) g ≡ false
      → IsSound g (claim_source_row claim version source locator remark)
  unfolding uncited_claim uncited_event invalid_locator dangling_reference unregistered_claim
      uncited_version
  claim_source_row-IsSound claim version source locator remark h = record {
    cited_claim = refl;
    cited_event = refl;
    located = ground (arith, h);
    resolved = refl;
    registered = refl;
    cited_version = refl;
  }

  pub relationship_row-IsSound :
      (from to rel_type : Str) (claim : Option Str)
      → exists_at (codes "entities" ∷ from ∷ []) g ≡ true
      → exists_at (codes "entities" ∷ to ∷ []) g ≡ true
      → dangles (codes "claims") claim g ≡ false
      → IsSound g (relationship_row from to rel_type claim)
  unfolding uncited_claim uncited_event invalid_locator dangling_reference unregistered_claim
      uncited_version
  relationship_row-IsSound from to rel_type claim h h' j = record {
    cited_claim = refl;
    cited_event = refl;
    located = refl;
    resolved = ground (arith, h, h', j);
    registered = refl;
    cited_version = refl;
  }
