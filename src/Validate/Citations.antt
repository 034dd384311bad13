-- ===== src/Validate/Citations.antt =====
-- The citation rules of extract/validate.go: `citeableSources`, `filterCitations`,
-- `citationReason` and `joinQuoted`.
pub mod Surface
pub mod Citeable
pub mod Contract
pub mod Reason
use fact_checker.Base.{
  List, [], ◌∷◌, ◌++◌, foldl, Str, codes, Bool, true, false, not, ◌&&◌, ◌==◌, Option, none, some,
  has, lookup, insert, is_key, select, if◌then◌else◌,
}
use fact_checker.Extract.{AnyMap, CitationPolicy, Citation, Candidate, WorkUnit}
use fact_checker.Wire.Types.{WireCitation}
use fact_checker.Validate.Types.{Drop, add_drop}

-- `map[string][]string`: the locator keys that a citation of a source must carry.
abbrev pub Allowed : Type 0
Allowed = List (Str × List Str)

-- The loop over one locator's keys: a key is added once.
pub add_keys : List Str → AnyMap → List Str
add_keys keys [] = keys
add_keys keys ((k, v) ∷ locator) = add_keys (if has keys k then keys else keys ++ k ∷ []) locator

abbrev or_empty : Option (List Str) → List Str
or_empty none = []
or_empty (some keys) = keys

-- the closure `add`
unfoldable pub add_source : Allowed → Str → AnyMap → Allowed
unfolding add_keys
add_source allowed source_id locator =
    insert source_id (add_keys (or_empty (lookup source_id allowed)) locator) allowed

abbrev add_candidate : Allowed → Candidate → Allowed
add_candidate allowed c = add_source allowed c.source_id c.locator

unfoldable pub citeable_sources : WorkUnit → Allowed
unfolding add_source
citeable_sources u =
    foldl add_candidate (add_source [] u.reference.source_id u.reference.locator) u.candidates

-- Each item in quotes, with a space before all but the first.
quote_items : Bool → Str → List Str → Str
quote_items first out [] = out
quote_items first out (item ∷ items) =
    quote_items false ((if first then out else out ++ codes " ") ++ codes "'" ++ item ++ codes "'")
      items

pub join_quoted : List Str → Str
unfolding quote_items
join_quoted items = quote_items true (codes "[") items ++ codes "]"

-- `Citation(w)`: a conversion between structs with the same fields.
abbrev pub to_citation : WireCitation → Citation
to_citation w = record { source_id = w.source_id; locator = w.locator; note = w.note }

abbrev pub missing_keys : WireCitation → List Str → List Str
missing_keys w required = select (λ key. not (is_key key w.locator)) required

module _ (owner : Str) where
  -- The rest of the loop's body once the missing keys are known.
  judge_locator : List Str → WireCitation → List Citation × List Drop → List Citation × List Drop
  unfolding join_quoted
  judge_locator [] w (kept, drops) = (kept ++ to_citation w ∷ [], drops)
  judge_locator (k ∷ missing) w (kept, drops) = (
    kept,
    add_drop drops (codes "citation") owner (
        codes "bad_locator: locator for "
        ++ w.source_id
        ++ codes " missing required keys "
        ++ join_quoted (k ∷ missing)),
  )

  -- The loop's body, by the lookup of the source.
  judge_citation :
      Option (List Str) → WireCitation → List Citation × List Drop → List Citation × List Drop
  unfolding judge_locator
  judge_citation none w (kept, drops) = (
    kept,
    add_drop drops (codes "citation") owner (codes "unknown source '" ++ w.source_id ++ codes "'"),
  )
  judge_citation (some required) w st = judge_locator (missing_keys w required) w st

  filter_from : Allowed → List Citation × List Drop → List WireCitation → List Citation × List Drop
  unfolding judge_citation
  filter_from allowed st [] = st
  filter_from allowed st (w ∷ ws) =
      filter_from allowed (judge_citation (lookup w.source_id allowed) w st) ws

-- The kept citations, and the drop log with one more entry for each citation that is not kept.
unfoldable pub filter_citations :
    List WireCitation → Allowed → List Drop → Str → List Citation × List Drop
unfolding filter_from
filter_citations citations allowed drops owner = filter_from owner allowed ([], drops) citations

-- The loop that finds `hasReference` and `hasPrimary`.
citation_flags : Str → Bool × Bool → List Citation → Bool × Bool
citation_flags reference flags [] = flags
citation_flags reference (has_reference, has_primary) (c ∷ cs) =
    citation_flags reference
      (if c.source_id == reference then (true, has_primary) else (has_reference, true)) cs

-- The empty string means that the citation contract holds.
unfoldable pub citation_reason : List Citation → CitationPolicy → Str → Str
unfolding citation_flags
citation_reason [] policy reference = codes "uncited"
citation_reason (c ∷ cs) policy reference =
    let (has_reference, has_primary) = citation_flags reference (false, false) (c ∷ cs) in
    if policy.require_reference && not has_reference
    then codes "missing_reference_citation"
    else if policy.require_primary && not has_primary
    then codes "missing_primary_citation"
    else []
