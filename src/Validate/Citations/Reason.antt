-- ===== src/Validate/Citations/Reason.antt =====
-- The citation contract of a unit, and that `citation_reason` decides it.
use fact_checker.Base.{
  List, [], ◌∷◌, ◌≡◌, ◌≢◌, ◌↔◌, refl, Bool, true, false, not, ◌&&◌, ◌||◌, Str, ◌==◌, any, All,
  arith, if◌then◌else◌,
}
use fact_checker.Extract.{CitationPolicy, Citation, WorkUnit}
use fact_checker.Wire.Types.{WireCitation}
use fact_checker.Validate.Types.{Drop}
use fact_checker.Validate.Citations.{
  citeable_sources, filter_citations, citation_flags, citation_reason,
}
use fact_checker.Validate.Citations.Contract.{filter_citations-IsCiteable}
use fact_checker.Validate.Citations.Citeable.{IsCiteable}

abbrev cites : Str → List Citation → Bool
cites reference cs = any (λ c. c.source_id == reference) cs

abbrev cites_other : Str → List Citation → Bool
cites_other reference cs = any (λ c. not (c.source_id == reference)) cs

-- What the policy asks of a list of citations.
pub record Satisfies (policy : CitationPolicy) (reference : Str) (cs : List Citation) : Type 0 where
  pub cited : cs ≢ []
  pub to_reference : policy.require_reference ≡ true → cites reference cs ≡ true
  pub to_primary : policy.require_primary ≡ true → cites_other reference cs ≡ true

-- The citations satisfy the policy of the unit, and each of them is citeable.
pub record IsCited (u : WorkUnit) (cs : List Citation) : Type 0 where
  pub satisfies : Satisfies u.policy u.reference.source_id cs
  pub citeable : All (IsCiteable u) cs

citation_flags_lem :
    (reference : Str) (a b : Bool) (cs : List Citation)
    → citation_flags reference (a, b) cs ≡ (a || cites reference cs, b || cites_other reference cs)
unfolding citation_flags any
citation_flags_lem reference a b [] = ground arith
citation_flags_lem reference a b (c ∷ cs) =
    ground (arith, citation_flags_lem reference true b cs, citation_flags_lem reference a true cs)

-- The ladder of `citation_reason`, over its four tests.
ladder_iff :
    {A : Type 0} (x y : A) (xs ys : List A) (ask_a a ask_b b : Bool)
    → ((if ask_a && not a then x ∷ xs else if ask_b && not b then y ∷ ys else []) ≡ [])
      ↔ ((ask_a ≡ true → a ≡ true) × (ask_b ≡ true → b ≡ true))
ladder_iff x y xs ys ask_a a ask_b b = ground arith

-- `citationReason` gives no reason exactly when the citations satisfy the policy.
pub citation_reason_iff :
    (cs : List Citation) (policy : CitationPolicy) (reference : Str)
    → (citation_reason cs policy reference ≡ []) ↔ Satisfies policy reference cs
unfolding citation_reason
citation_reason_iff [] policy reference = (λ h. cc, λ h. absurd (h.cited refl))
citation_reason_iff (c ∷ cs) policy reference =
    rw (citation_flags_lem reference false false (c ∷ cs)) (
      λ h.
          let (r, p) = (ladder_iff _ _ _ _ _ _ _ _).0 h in
          record { cited = λ e. cc; to_reference = r; to_primary = p },
      λ s. (ladder_iff _ _ _ _ _ _ _ _).1 (s.to_reference, s.to_primary),
    )

-- What is kept with no reason to drop it is cited.
pub filter_citations-IsCited :
    (u : WorkUnit) (ws : List WireCitation) (drops : List Drop) (owner : Str)
    → citation_reason
        (filter_citations ws (citeable_sources u) drops owner).0
        u.policy
        u.reference.source_id
      ≡ []
    → IsCited u (filter_citations ws (citeable_sources u) drops owner).0
filter_citations-IsCited u ws drops owner h = record {
  satisfies =
      (citation_reason_iff (filter_citations ws (citeable_sources u) drops owner).0 u.policy
          u.reference.source_id).0
        h;
  citeable = filter_citations-IsCiteable u ws drops owner;
}
