-- ===== src/Prompts/User.antt =====
-- `BuildUserPrompt` and `renderCandidates` of extract/prompts.go.
use fact_checker.Base.{
  ltb, List, [], ◌∷◌, ◌++◌, length, take, Str, codes, ◌==◌, Option, some, lookup, Result, ok, err,
  if◌then◌else◌,
}
use fact_checker.Extract.{AnyMap, Any, text, CitationPolicy, Candidate, WorkUnit}
use fact_checker.Prompts.{DomainBrief, Verbs, dash, ellipsis, newline, join_with, marshalled, line}

module _ (verbs : Verbs) where
  abbrev pub optional_line : Str → Str → Str
  optional_line label value = if value == [] then [] else line label value

  unfoldable pub render_candidate : Candidate → Str
  render_candidate c =
      line (codes "- source_id: ") c.source_id
      ++ (line (codes "  tier: ") (verbs.decimal c.tier)
          ++ (optional_line (codes "  cite as: ") c.citation_form
              ++ (line (codes "  locator: ") (marshalled (verbs.marshal c.locator))
                  ++ (line (codes "  unit: ") c.title
                      ++ (optional_line (codes "  period: ") c.period
                          ++ optional_line (codes "  covers: ") c.summary)))))

  unfoldable pub render_all : List Candidate → Str
  unfolding render_candidate
  render_all [] = []
  render_all (c ∷ cs) = render_candidate c ++ render_all cs

  unfoldable pub render_candidates : List Candidate → Str
  unfolding render_all
  render_candidates cs =
      if render_all cs == []
      then codes "(none "
        ++ dash
        ++ codes " no primary candidates attach to this document)"
        ++ newline
      else render_all cs

  abbrev note_lines : List Str → Str
  note_lines [] = []
  note_lines (remark ∷ notes) = line (codes "- ") remark ++ note_lines notes

  abbrev scope_part : List Str → Str
  scope_part [] = []
  scope_part (remark ∷ notes) =
      newline
      ++ codes "The corpus context this extraction serves (for scope, not for citation):"
      ++ newline
      ++ note_lines (remark ∷ notes)

  -- At most 120 of the ids.
  abbrev sample : List Str → List Str
  sample ids = if ltb 120 (length ids) then take 120 ids ++ ellipsis ∷ [] else ids

  abbrev known_part : List Str → Str
  known_part [] = codes "No entities exist in the graph yet." ++ newline
  known_part (id ∷ ids) =
      line
        (codes
          "Already-known entity ids you may reference (do not redefine them unless the document adds names/attributes): ")
        (join_with (codes ", ") (sample (verbs.sort_strings (id ∷ ids))))

  abbrev rel_part : List Str → Str
  rel_part [] = codes "(none)"
  rel_part (r ∷ rel_types) = join_with (codes ", ") (r ∷ rel_types)

  abbrev marshalled_where : Result Str → Str
  marshalled_where (ok s) = codes "locator: " ++ s
  marshalled_where (err message) = []

  abbrev url_or : Str → Option Any → Str
  url_or otherwise (some (text url)) = if url == [] then otherwise else codes "url: " ++ url
  url_or otherwise other = otherwise

  unfoldable pub reference_where : AnyMap → Str
  reference_where locator =
      url_or (marshalled_where (verbs.marshal locator)) (lookup (codes "url") locator)

  -- What comes before the candidates, and after them.
  abbrev pub before_candidates : DomainBrief → WorkUnit → Str
  before_candidates brief unit =
      codes "TASK: Extract "
      ++ brief.name
      ++ codes " records from this reference document."
      ++ newline
      ++ scope_part unit.scope_notes
      ++ newline
      ++ known_part unit.known_entity_ids
      ++ newline
      ++ line (codes "Allowed relationship rel_types: ") (rel_part unit.rel_types)
      ++ newline
      ++ codes "PRIMARY SOURCE CANDIDATES (cite only these):"
      ++ newline

  abbrev reference_header : CitationPolicy → Str
  reference_header policy =
      if policy.require_reference
      then codes "Reference document (the citation every record must carry):"
      else codes "Reference document:"

  abbrev quotes : Str
  quotes = codes "\"\"\""

  abbrev pub before_text : WorkUnit → Str
  unfolding reference_where
  before_text unit =
      newline
      ++ reference_header unit.policy
      ++ newline
      ++ line (codes "title: ") unit.title
      ++ line [] (reference_where unit.reference.locator)
      ++ newline
      ++ codes "DOCUMENT TEXT:"
      ++ newline
      ++ quotes
      ++ newline

  abbrev pub after_text : Str
  after_text =
      newline
      ++ quotes
      ++ newline
      ++ newline
      ++ codes
          "Extract the claims, events, entities, and relationships this document supports, following every rule in the system message. Return only the JSON object."

  unfoldable pub build_user_prompt : DomainBrief → WorkUnit → Str
  unfolding render_candidates before_text
  build_user_prompt brief unit =
      before_candidates brief unit
      ++ (render_candidates unit.candidates ++ (before_text unit ++ (unit.body ++ after_text)))
