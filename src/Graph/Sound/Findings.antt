-- ===== src/Graph/Sound/Findings.antt =====
-- The findings of the checks row by row, and that a row with none has none in a larger graph.
use fact_checker.Base.{
  List, [], ◌∷◌, ◌++◌, ◌≡◌, refl, ◌↔◌, Bool, true, false, Str, codes, Option, none, some, All,
  All-map, arith,
}
use fact_checker.Extract.{AnyMap}
use fact_checker.Graph.Rows.{
  Row, event_row, participant_row, link_row, event_source_row, claim_row, version_row,
  claim_source_row, relationship_row, provenance_row, Graph, Key, exists_at,
}
use fact_checker.Graph.Load.{concat_map}
use fact_checker.Graph.Checks.{
  found, dangles, bad_source, bad_locator, uncited_claim, uncited_event, invalid_locator,
  dangling_reference, unregistered_claim, uncited_version, findings,
}

-- The checks whose findings `LoadRecords` cannot add: the four errors, and the two warnings on
-- contested claims and on versions.
pub record HasNoFinding (g : Graph) : Type 0 where
  pub claims_without_sources : findings uncited_claim g ≡ []
  pub events_without_sources : findings uncited_event g ≡ []
  pub invalid_locators : findings invalid_locator g ≡ []
  pub dangling_references : findings dangling_reference g ≡ []
  pub contested_claims_unregistered : findings unregistered_claim g ≡ []
  pub claim_versions_without_citations : findings uncited_version g ≡ []

pub record IsSound (g : Graph) (r : Row) : Type 0 where
  pub cited_claim : uncited_claim g r ≡ []
  pub cited_event : uncited_event g r ≡ []
  pub located : invalid_locator g r ≡ []
  pub resolved : dangling_reference g r ≡ []
  pub registered : unregistered_claim g r ≡ []
  pub cited_version : uncited_version g r ≡ []

append-nil_iff {ℓ} : {A : Type ℓ} (xs ys : List A) → (xs ++ ys ≡ []) → (xs ≡ []) × (ys ≡ [])
append-nil_iff [] ys h = (refl, h)
append-nil_iff (x ∷ xs) ys h = cc

All_of_findings :
    (f : Row → List Str) (rs : List Row) → concat_map f rs ≡ [] → All (λ r. f r ≡ []) rs
All_of_findings f [] h = tt
All_of_findings f (r ∷ rs) h =
    let (here, later) = append-nil_iff (f r) (concat_map f rs) h in
    (here, All_of_findings f rs later)

findings_of_All :
    (f : Row → List Str) (rs : List Row) → All (λ r. f r ≡ []) rs → concat_map f rs ≡ []
findings_of_All f [] h = refl
findings_of_All f (r ∷ rs) h = rw (h.0, findings_of_All f rs h.1)

-- The checks find nothing in a graph exactly when they find nothing in any of its rows.
pub HasNoFinding-iff : (g : Graph) → HasNoFinding g ↔ All (IsSound g) g
unfolding findings
HasNoFinding-iff g = (forth, back)
  where
    zip :
        (rs : List Row)
        → All (λ r. uncited_claim g r ≡ []) rs
        → All (λ r. uncited_event g r ≡ []) rs
        → All (λ r. invalid_locator g r ≡ []) rs
        → All (λ r. dangling_reference g r ≡ []) rs
        → All (λ r. unregistered_claim g r ≡ []) rs
        → All (λ r. uncited_version g r ≡ []) rs
        → All (IsSound g) rs
    zip [] a b c d e f = tt
    zip (r ∷ rs) a b c d e f = (
      record {
        cited_claim = a.0;
        cited_event = b.0;
        located = c.0;
        resolved = d.0;
        registered = e.0;
        cited_version = f.0;
      },
      zip rs a.1 b.1 c.1 d.1 e.1 f.1,
    )

    forth : HasNoFinding g → All (IsSound g) g
    forth h =
        zip g (All_of_findings (uncited_claim g) g h.claims_without_sources)
          (All_of_findings (uncited_event g) g h.events_without_sources)
          (All_of_findings (invalid_locator g) g h.invalid_locators)
          (All_of_findings (dangling_reference g) g h.dangling_references)
          (All_of_findings (unregistered_claim g) g h.contested_claims_unregistered)
          (All_of_findings (uncited_version g) g h.claim_versions_without_citations)

    back : All (IsSound g) g → HasNoFinding g
    back h = record {
      claims_without_sources =
          findings_of_All _ g (All-map (IsSound g) _ (λ r s. s.cited_claim) g h);
      events_without_sources =
          findings_of_All _ g (All-map (IsSound g) _ (λ r s. s.cited_event) g h);
      invalid_locators = findings_of_All _ g (All-map (IsSound g) _ (λ r s. s.located) g h);
      dangling_references = findings_of_All _ g (All-map (IsSound g) _ (λ r s. s.resolved) g h);
      contested_claims_unregistered =
          findings_of_All _ g (All-map (IsSound g) _ (λ r s. s.registered) g h);
      claim_versions_without_citations =
          findings_of_All _ g (All-map (IsSound g) _ (λ r s. s.cited_version) g h);
    }

-- The graph has all keys of the other one, and judges locators as it does.
pub record Extends (g g' : Graph) : Type 0 where
  pub kept : (k : Key) → exists_at k g ≡ true → exists_at k g' ≡ true
  pub judged :
      (source : Str) (locator : Option AnyMap)
      → bad_locator source locator g' ≡ bad_locator source locator g

pub found_iff : (b : Bool) (ref : Str) → (found b ref ≡ []) ↔ (b ≡ false)
found_iff true ref = (λ h. cc, λ h. cc)
found_iff false ref = (λ h. refl, λ h. refl)

module _ (g g' : Graph) (ext : Extends g g') where
  dangles-later :
      (table : Str) (id : Option Str) → dangles table id g ≡ false → dangles table id g' ≡ false
  dangles-later table none h = refl
  dangles-later table (some id) h = ground (arith, ext.kept (table ∷ id ∷ []))

  bad_source-later :
      (source : Option Str) (locator : Option AnyMap)
      → bad_source g' source locator ≡ bad_source g source locator
  bad_source-later none locator = refl
  bad_source-later (some source) locator = ext.judged source locator

  claim-later : (r : Row) → uncited_claim g r ≡ [] → uncited_claim g' r ≡ []
  unfolding uncited_claim
  claim-later (claim_row c) h = ground (arith, ext.kept (codes "claim_sources" ∷ c.id ∷ []))
  claim-later r h = refl

  event-later : (r : Row) → uncited_event g r ≡ [] → uncited_event g' r ≡ []
  unfolding uncited_event
  event-later (event_row e) h = ground (arith, ext.kept (codes "event_sources" ∷ e.id ∷ []))
  event-later r h = refl

  locator-later : (r : Row) → invalid_locator g r ≡ [] → invalid_locator g' r ≡ []
  unfolding invalid_locator
  locator-later (claim_source_row claim version source locator remark) h =
      rw (ext.judged source (some locator)) h
  locator-later (event_source_row event source locator remark) h =
      rw (ext.judged source (some locator)) h
  locator-later (provenance_row id statement claim event source locator) h =
      rw (bad_source-later source locator) h
  locator-later r h = refl

  reference-later : (r : Row) → dangling_reference g r ≡ [] → dangling_reference g' r ≡ []
  unfolding dangling_reference
  reference-later (participant_row event entity role) h =
      ground (arith, ext.kept (codes "entities" ∷ entity ∷ []))
  reference-later (link_row from to kind) h =
      ground (arith, ext.kept (codes "events" ∷ from ∷ []), ext.kept (codes "events" ∷ to ∷ []))
  reference-later (relationship_row from to rel_type claim) h = ground (
    arith,
    ext.kept (codes "entities" ∷ from ∷ []),
    ext.kept (codes "entities" ∷ to ∷ []),
    dangles-later (codes "claims") claim,
  )
  reference-later (provenance_row id statement claim event source locator) h = ground (
    arith,
    dangles-later (codes "claims") claim,
    dangles-later (codes "events") event,
    dangles-later (codes "sources") source,
  )
  reference-later r h = refl

  register-later : (r : Row) → unregistered_claim g r ≡ [] → unregistered_claim g' r ≡ []
  unfolding unregistered_claim
  register-later (claim_row c) h =
      ground (arith, ext.kept (codes "contradiction_claims" ∷ c.id ∷ []))
  register-later r h = refl

  version-later : (r : Row) → uncited_version g r ≡ [] → uncited_version g' r ≡ []
  unfolding uncited_version
  version-later (version_row claim label statement) h =
      ground (arith, ext.kept (codes "claim_sources" ∷ claim ∷ codes "version" ∷ label ∷ []))
  version-later r h = refl

  -- A row in which the checks find nothing has no finding in the larger graph.
  pub IsSound-later : (r : Row) → IsSound g r → IsSound g' r
  IsSound-later r h = record {
    cited_claim = claim-later r h.cited_claim;
    cited_event = event-later r h.cited_event;
    located = locator-later r h.located;
    resolved = reference-later r h.resolved;
    registered = register-later r h.registered;
    cited_version = version-later r h.cited_version;
  }
