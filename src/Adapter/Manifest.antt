-- ===== src/Adapter/Manifest.antt =====
-- The manifest of adapters/arda/arda.go, with its defaults and the checks of `Parse`.
use fact_checker.Base.{
  ℕ, List, [], ◌∷◌, ◌++◌, length, Str, codes, Bool, ◌||◌, ◌==◌, eqb, Result, ok, err, if◌then◌else◌,
}
use fact_checker.Extract.{AnyMap, CitationPolicy}

pub record CandidateConfig : Type 0 where
  pub source : Str
  pub title : Str
  pub period : Str
  pub summary : Str
  pub keywords : List Str
  pub locator : AnyMap
  pub is_default : Bool

pub record DomainBrief : Type 0 where
  pub name : Str
  pub role : Str
  pub mission : Str
  pub rules : List Str

pub record Config : Type 0 where
  pub reference_source : Str
  pub policy : CitationPolicy
  pub max_candidates : ℕ
  pub max_unit_chars : ℕ
  pub candidate_tier_max : ℕ
  pub scope_notes : List Str
  pub domain : DomainBrief
  pub candidates : List CandidateConfig

abbrev positive_or : ℕ → ℕ → ℕ
positive_or default_value value = if eqb value 0 then default_value else value

unfoldable pub incomplete : CandidateConfig → Bool
incomplete c = c.source == [] || c.title == [] || eqb (length c.locator) 0

abbrev with_defaults : Config → Config
with_defaults c = record c {
  max_candidates = positive_or 14 c.max_candidates;
  max_unit_chars = positive_or 24000 c.max_unit_chars;
  candidate_tier_max = positive_or 2 c.candidate_tier_max;
}

-- `quote` stands for the verb %q of fmt.
module _ (quote : Str → Str) where
  unfoldable pub check_candidates : Config → List CandidateConfig → Result Config
  unfolding incomplete
  check_candidates c [] = ok c
  check_candidates c (candidate ∷ rest) =
      let checked = check_candidates c rest in
      if incomplete candidate
      then err (
          codes "arda: candidate "
          ++ quote candidate.title
          ++ codes " needs source, title, and locator")
      else checked

  -- `Parse`, on the decoded configuration.
  unfoldable pub parse_config : Config → Result Config
  unfolding check_candidates
  parse_config c =
      if c.reference_source == []
      then err (codes "arda: reference_source is required")
      else if c.domain.name == [] || c.domain.role == [] || c.domain.mission == []
      then err (codes "arda: domain name, role, and mission are required")
      else check_candidates (with_defaults c) c.candidates
