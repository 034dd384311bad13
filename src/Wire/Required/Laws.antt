-- ===== src/Wire/Required/Laws.antt =====
-- What a record has when `requiredProblem` finds nothing.
use fact_checker.Base.{
  ==_refl, ℕ, ap, List, [], ◌∷◌, ◌++◌, Str, codes, ◌==◌, ==_sound, if◌then◌else◌, ◌≡◌, ◌≢◌, ◌⊎◌,
  inl, inr, All, arith, true, Bool-cases,
}
use fact_checker.Wire.Types.{
  WireCitation, WireEntity, WireEvent, WireVersion, WireClaim, WireRelationship, valid_confidence,
}
use fact_checker.Wire.Required.{
  is_required, entity_problem, citations_problem, event_problem, version_problem, versions_problem,
  claim_problem, relationship_problem,
}

abbrev pub IsEntity : WireEntity → Type 0
IsEntity e = (e.id ≢ []) × (e.kind ≢ []) × (e.canonical_name ≢ [])

-- Each citation names its source.
abbrev pub AreNamed : List WireCitation → Type 0
AreNamed citations = All (λ (c : WireCitation). c.source_id ≢ []) citations

abbrev pub IsEvent : WireEvent → Type 0
IsEvent e = (e.id ≢ []) × (e.summary ≢ []) × AreNamed e.sources

abbrev pub IsVersion : WireVersion → Type 0
IsVersion v = (v.label ≢ []) × (v.statement ≢ []) × AreNamed v.sources

abbrev pub IsConfidence : Str → Type 0
IsConfidence s =
    (s ≡ codes "established")
    ⊎ ((s ≡ codes "derived_probable") ⊎ ((s ≡ codes "contested") ⊎ (s ≡ codes "abandoned_version")))

abbrev pub IsClaim : WireClaim → Type 0
IsClaim c =
    (c.id ≢ [])
    × (c.statement ≢ [])
    × IsConfidence c.confidence
    × AreNamed c.sources
    × All IsVersion c.versions

abbrev pub IsRelationship : WireRelationship → Type 0
IsRelationship r = (r.from_entity_id ≢ []) × (r.to_entity_id ≢ []) × (r.rel_type ≢ [])

-- A text that ends in another one is not empty when that one is not.
not_empty : (s : Str) (x : ℕ) (t : Str) → s ++ (x ∷ t) ≢ []
not_empty [] x t e = cc
not_empty (y ∷ s) x t e = cc

-- One test that a field is there, before the tests that follow.
there :
    (field name rest : Str)
    → (if field == [] then is_required name else rest) ≡ []
    → (field ≢ []) × (rest ≡ [])
unfolding ◌==◌
there [] name rest h = absurd (not_empty name b' ' (codes "is required") h)
there (x ∷ field) name rest h = (λ e. cc, h)

pub entity_problem-IsEntity : (e : WireEntity) → entity_problem e ≡ [] → IsEntity e
unfolding entity_problem
entity_problem-IsEntity e h =
    let (id, h1) = there e.id (codes "id") _ h in
    let (kind, h2) = there e.kind (codes "kind") _ h1 in
    let (name, h3) = there e.canonical_name (codes "canonical_name") [] h2 in (id, kind, name)

citations_problem-AreNamed :
    (citations : List WireCitation)
    → citations_problem (codes "sources") citations ≡ []
    → AreNamed citations
unfolding citations_problem
citations_problem-AreNamed [] h = tt
citations_problem-AreNamed (c ∷ citations) h =
    let (id, rest) = there c.source_id (codes "sources[].source_id") _ h in
    (id, citations_problem-AreNamed citations rest)

pub event_problem-IsEvent : (e : WireEvent) → event_problem e ≡ [] → IsEvent e
unfolding event_problem
event_problem-IsEvent e h =
    let (id, h1) = there e.id (codes "id") _ h in
    let (summary, h2) = there e.summary (codes "summary") _ h1 in
    (id, summary, citations_problem-AreNamed e.sources h2)

version_problem-IsVersion : (v : WireVersion) → version_problem v ≡ [] → IsVersion v
unfolding version_problem
version_problem-IsVersion v h =
    let (label, h1) = there v.label (codes "label") _ h in
    let (statement, h2) = there v.statement (codes "statement") _ h1 in
    (label, statement, citations_problem-AreNamed v.sources h2)

versions_problem-IsVersion :
    (versions : List WireVersion) → versions_problem versions ≡ [] → All IsVersion versions
unfolding versions_problem
versions_problem-IsVersion [] h = tt
versions_problem-IsVersion (v ∷ versions) h = elim (Bool-cases (version_problem v == [])) [
  | inl e ↦ (
    version_problem-IsVersion v (==_sound (version_problem v) [] e),
    versions_problem-IsVersion versions (rw e at h),
  )
  | inr e ↦ let no : codes "versions[]: " ++ version_problem v ≡ [] = rw e at h in cc
]

valid_confidence-IsConfidence : (s : Str) → valid_confidence s ≡ true → IsConfidence s
unfolding valid_confidence
valid_confidence-IsConfidence s h = elim (Bool-cases (s == codes "established")) [
  | inl e ↦ inl (==_sound s (codes "established") e)
  | inr e ↦ elim (Bool-cases (s == codes "derived_probable")) [
    | inl f ↦ inr (inl (==_sound s (codes "derived_probable") f))
    | inr f ↦ elim (Bool-cases (s == codes "contested")) [
      | inl g ↦ inr (inr (inl (==_sound s (codes "contested") g)))
      | inr g ↦ inr (inr (inr (==_sound s (codes "abandoned_version") (rw (e, f, g) at h))))
    ]
  ]
]

pub claim_problem-IsClaim :
    (quote : Str → Str) (c : WireClaim) → claim_problem quote c ≡ [] → IsClaim c
unfolding claim_problem
claim_problem-IsClaim quote c h =
    let problem = citations_problem (codes "sources") c.sources in
    let (id, h1) = there c.id (codes "id") _ h in
    let (statement, h2) = there c.statement (codes "statement") _ h1 in
    elim (Bool-cases (valid_confidence c.confidence)) [
      | inl valid ↦ elim (Bool-cases (problem == [])) [
        | inl e ↦ (
          id,
          statement,
          valid_confidence-IsConfidence c.confidence valid,
          citations_problem-AreNamed c.sources (==_sound problem [] e),
          versions_problem-IsVersion c.versions (rw (valid, e) at h2),
        )
        | inr e ↦
            let none : problem ≡ [] = rw (valid, e) at h2 in
            absurd (ground (arith, ap (λ s. s == []) none, ==_refl []))
      ]
      | inr invalid ↦
          let no : codes "invalid confidence " ++ quote c.confidence ≡ [] = rw invalid at h2 in cc
    ]

pub relationship_problem-IsRelationship :
    (r : WireRelationship) → relationship_problem r ≡ [] → IsRelationship r
unfolding relationship_problem
relationship_problem-IsRelationship r h =
    let (from, h1) = there r.from_entity_id (codes "from_entity_id") _ h in
    let (to, h2) = there r.to_entity_id (codes "to_entity_id") _ h1 in
    let (type, h3) = there r.rel_type (codes "rel_type") [] h2 in (from, to, type)
