-- ===== src/Tests/Adapters.antt =====
-- An adapter with two candidates, of which one is in a tier that is too high.
use fact_checker.Base.{ℕ, ◌≤◌, List, [], ◌∷◌, All, length, Str, codes, true}
use fact_checker.Extract.{AnyMap, text, both_tier, Source, Document}
use fact_checker.Adapter.Arda.{select_candidates}
use fact_checker.Adapter.Manifest.{Config, CandidateConfig}
use fact_checker.Adapter.Arda.Laws.{IsOffered, select_candidates-IsOffered}

abbrev chapter : AnyMap
chapter = (codes "ch", text (codes "1")) ∷ []

abbrev candidate : Str → Str → CandidateConfig
candidate source title = record {
  source = source;
  title = title;
  period = [];
  summary = codes "galadriel";
  keywords = [];
  locator = chapter;
  is_default = true;
}

abbrev config : Config
config = record {
  reference_source = codes "tg";
  policy = both_tier;
  max_candidates = 1;
  max_unit_chars = 3;
  candidate_tier_max = 2;
  scope_notes = [];
  domain = record { name = codes "Arda"; role = codes "r"; mission = codes "m"; rules = [] };
  candidates = candidate (codes "silm") (codes "One") ∷ candidate (codes "blog") (codes "Two") ∷ [];
}

abbrev source : Str → ℕ → Source
source id tier = record {
  id = id;
  tier = tier;
  title = id;
  citation_form = [];
  locator_scheme = [];
}

abbrev sources : List (Str × Source)
sources = (codes "silm", source (codes "silm") 1) ∷ (codes "blog", source (codes "blog") 5) ∷ []

abbrev words : Str → List Str
words s = s ∷ []

abbrev runes : Str → List ℕ
runes s = s

abbrev document : Document
document = record {
  id = 7;
  source_id = codes "tg";
  title = codes "galadriel";
  url = codes "u";
  fetched_at = 0;
  revision = [];
  content_text = codes "abcdef";
}

select_candidates-IsOffered_example :
    (length (select_candidates config sources words (codes "galadriel") (codes "abc")) ≤ 1)
    × All
        (IsOffered config sources)
        (select_candidates config sources words (codes "galadriel") (codes "abc"))
select_candidates-IsOffered_example =
    select_candidates-IsOffered config sources words (codes "galadriel") (codes "abc")
