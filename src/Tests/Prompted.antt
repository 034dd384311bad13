-- ===== src/Tests/Prompted.antt =====
-- The task message of the sample unit.
use fact_checker.Base.{Contains, [], ◌≡◌, refl, codes, ok, ◌==◌, All}
use fact_checker.Prompts.{DomainBrief, Verbs}
use fact_checker.Prompts.User.{render_candidate, render_candidates, build_user_prompt}
use fact_checker.Prompts.Laws.{Shows, build_user_prompt-Contains}
use fact_checker.Tests.Samples.{galadriel}

abbrev verbs : Verbs
verbs = record {
  decimal = λ n. codes "1";
  quote = λ s. s;
  marshal = λ locator. ok (codes "{}");
  sort_strings = λ ids. ids;
}

abbrev brief : DomainBrief
brief = record {
  name = codes "The History of Arda";
  role = codes "extraction historian";
  mission = codes "Build it.";
  domain_rules = [];
}

one_candidate :
    render_candidates verbs galadriel.candidates
    ≡ codes "- source_id: silm\n  tier: 1\n  locator: {}\n  unit: Chapter 1\n"
unfolding render_candidates render_candidate ◌==◌
one_candidate = refl

build_user_prompt-Contains_example :
    Contains (build_user_prompt verbs brief galadriel) galadriel.body
    × All (Shows verbs (build_user_prompt verbs brief galadriel)) galadriel.candidates
build_user_prompt-Contains_example = build_user_prompt-Contains verbs brief galadriel
