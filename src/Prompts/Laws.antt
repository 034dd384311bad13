-- ===== src/Prompts/Laws.antt =====
-- What a unit offers for citation is in its prompts.
use fact_checker.Base.{
  Contains, Contains-before, Contains-after, Contains-trans, Contains-self, ok, ◌≢◌, codes, List,
  [], ◌∷◌, ◌++◌, append_assoc, ◌≡◌, refl, sym, ◌∙◌, ap, subst, Str, ◌==◌, All, All-map,
}
use fact_checker.Extract.{Candidate, WorkUnit}
use fact_checker.Prompts.{line, marshalled, newline, DomainBrief, Verbs}
use fact_checker.Prompts.User.{
  optional_line, render_candidate, render_all, render_candidates, build_user_prompt,
  before_candidates, before_text, after_text,
}

module _ (verbs : Verbs) where
  render_all-Contains :
      (cs : List Candidate)
      → All (λ c. Contains (render_all verbs cs) (render_candidate verbs c)) cs
  unfolding render_all
  render_all-Contains [] = tt
  render_all-Contains (c ∷ cs) = (
    Contains-after (render_all verbs cs) (Contains-self (render_candidate verbs c)),
    All-map _ _ (λ d h. Contains-before (render_candidate verbs c) h) cs (render_all-Contains cs),
  )

  render_candidates-some :
      (c : Candidate) (cs : List Candidate)
      → render_candidates verbs (c ∷ cs) ≡ render_all verbs (c ∷ cs)
  unfolding render_candidates render_all render_candidate ◌==◌
  render_candidates-some c cs = refl

  render_candidates-Contains :
      (cs : List Candidate)
      → All (λ c. Contains (render_candidates verbs cs) (render_candidate verbs c)) cs
  render_candidates-Contains [] = tt
  render_candidates-Contains (c ∷ cs) =
      subst (λ s. All (λ d. Contains s (render_candidate verbs d)) (c ∷ cs))
        (sym (render_candidates-some c cs)) (render_all-Contains (c ∷ cs))

  -- How the block of a candidate begins: its source, its tier, how to cite it if that is said, and
  -- its locator as JSON.
  abbrev pub opening : Candidate → Str → Str → Str
  opening c cite_as json =
      (codes "- source_id: " ++ c.source_id ++ newline)
      ++ ((codes "  tier: " ++ verbs.decimal c.tier ++ newline)
          ++ (cite_as ++ (codes "  locator: " ++ json ++ newline)))

  -- The text has the beginning of the candidate's block.
  pub record Shows (whole : Str) (c : Candidate) : Type 0 where
    pub cite_as : Str
    pub json : Str
    pub shown : Contains whole (opening c cite_as json)
    pub uncited : c.citation_form ≡ [] → cite_as ≡ []
    pub cited : c.citation_form ≢ [] → cite_as ≡ codes "  cite as: " ++ c.citation_form ++ newline
    pub marshals : (s : Str) → verbs.marshal c.locator ≡ ok s → json ≡ s

  regroup : (a b c d rest : Str) → a ++ (b ++ (c ++ (d ++ rest))) ≡ (a ++ (b ++ (c ++ d))) ++ rest
  regroup a b c d rest =
      ap (λ w. a ++ w)
        (ap (λ w. b ++ w) (sym (append_assoc c d rest)) ∙ sym (append_assoc b (c ++ d) rest))
      ∙ sym (append_assoc a (b ++ (c ++ d)) rest)

  optional_line-none : (label value : Str) → value ≡ [] → optional_line verbs label value ≡ []
  unfolding ◌==◌
  optional_line-none label [] e = refl
  optional_line-none label (x ∷ value) e = cc

  optional_line-some :
      (label value : Str) → value ≢ [] → optional_line verbs label value ≡ label ++ value ++ newline
  unfolding ◌==◌
  optional_line-some label [] e = absurd (e refl)
  optional_line-some label (x ∷ value) e = refl

  abbrev after_locator : Candidate → Str
  after_locator c =
      line (codes "  unit: ") c.title
      ++ (optional_line verbs (codes "  period: ") c.period
          ++ optional_line verbs (codes "  covers: ") c.summary)

  render_candidate-Shows : (c : Candidate) → Shows (render_candidate verbs c) c
  unfolding render_candidate
  render_candidate-Shows c = record {
    cite_as = optional_line verbs (codes "  cite as: ") c.citation_form;
    json = marshalled (verbs.marshal c.locator);
    shown = record {
      front = [];
      back = after_locator c;
      split =
          regroup (line (codes "- source_id: ") c.source_id)
            (line (codes "  tier: ") (verbs.decimal c.tier))
            (optional_line verbs (codes "  cite as: ") c.citation_form)
            (line (codes "  locator: ") (marshalled (verbs.marshal c.locator))) (after_locator c);
    };
    uncited = optional_line-none (codes "  cite as: ") c.citation_form;
    cited = optional_line-some (codes "  cite as: ") c.citation_form;
    marshals = λ s e. rw e;
  }

  Shows-in :
      {whole : Str} (c : Candidate) → Contains whole (render_candidate verbs c) → Shows whole c
  Shows-in c h =
      let s = render_candidate-Shows c in
      record {
        cite_as = s.cite_as;
        json = s.json;
        shown = Contains-trans h s.shown;
        uncited = s.uncited;
        cited = s.cited;
        marshals = s.marshals;
      }

  -- The task message has the text of the unit's document, and for each of its candidates a block
  -- that begins with its source, its tier, its form of citation if it has one, and its locator.
  pub build_user_prompt-Contains :
      (brief : DomainBrief) (unit : WorkUnit)
      → Contains (build_user_prompt verbs brief unit) unit.body
        × All (Shows (build_user_prompt verbs brief unit)) unit.candidates
  unfolding build_user_prompt
  build_user_prompt-Contains brief unit = (
    Contains-before (before_candidates verbs brief unit) (
        Contains-before (render_candidates verbs unit.candidates) (
          Contains-before (before_text verbs unit)
            (Contains-after (after_text verbs) (Contains-self unit.body)))),
    All-map _ _
        (λ c h. Shows-in c (
          Contains-before (before_candidates verbs brief unit)
            (Contains-after (before_text verbs unit ++ (unit.body ++ after_text verbs)) h)))
        unit.candidates (render_candidates-Contains unit.candidates),
  )
