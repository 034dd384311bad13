-- ===== src/Adapter/Arda.antt =====
-- `Parse`, `BuildUnits` and `selectCandidates` of adapters/arda/arda.go. `words` stands for
-- strings.ToLower and strings.FieldsFunc with the tests of unicode, `lower_runes` for what
-- `Slug` takes, and the store's answers are arguments.
pub mod Laws
use fact_checker.Base.{
  ℕ, suc, min, List, [], ◌∷◌, ◌++◌, map, length, take, get_elem?, Str, codes, Bool, false, not,
  ◌&&◌, ◌||◌, has, lookup, ltb, eqb, Option, none, some, Result, ok, err, if◌then◌else◌, any,
}
use fact_checker.Extract.{Candidate, Source, Document, WorkUnit, text}
use fact_checker.Adapter.Slug.{slugify}
use fact_checker.Adapter.Manifest.{CandidateConfig, Config}

abbrev stop_words : List Str
stop_words = map codes (
    "a" ∷ "an" ∷ "and" ∷ "the" ∷ "of" ∷ "in" ∷ "to" ∷ "with" ∷ "for" ∷ "from" ∷ "by" ∷ "on" ∷ "at"
    ∷ "as" ∷ "is" ∷ "are" ∷ "was" ∷ "were" ∷ "be" ∷ "been" ∷ "his" ∷ "her" ∷ "their" ∷ "its" ∷ "it"
    ∷ "he" ∷ "she" ∷ "they" ∷ "them" ∷ "who" ∷ "which" ∷ "that" ∷ "this" ∷ "these" ∷ "those" ∷ "not"
    ∷ "no" ∷ "but" ∷ "or" ∷ "if" ∷ "then" ∷ "than" ∷ "so" ∷ "such" ∷ "into" ∷ "over" ∷ "under"
    ∷ "out" ∷ "up" ∷ "down" ∷ "after" ∷ "before" ∷ "during" ∷ "between" ∷ "against" ∷ "about"
    ∷ "there" ∷ "here" ∷ "when" ∷ "where" ∷ "what" ∷ "how" ∷ "all" ∷ "any" ∷ "both" ∷ "each" ∷ "few"
    ∷ "more" ∷ "most" ∷ "other" ∷ "some" ∷ "only" ∷ "own" ∷ "same" ∷ "very" ∷ "can" ∷ "will"
    ∷ "just" ∷ "don" ∷ "should" ∷ "now" ∷ [])

pub record RankedCandidate : Type 0 where
  pub index : ℕ
  pub score : ℕ

unfoldable pub any_positive : List RankedCandidate → Bool
any_positive [] = false
any_positive (r ∷ ranked) = ltb 0 r.score || any_positive ranked

-- The order of the ranking: the higher score, then the lower index.
unfoldable pub comes_before : RankedCandidate → RankedCandidate → Bool
comes_before x y = if eqb x.score y.score then ltb x.index y.index else ltb y.score x.score

-- sort.SliceStable
unfoldable pub rank_in : RankedCandidate → List RankedCandidate → List RankedCandidate
unfolding comes_before
rank_in x [] = x ∷ []
rank_in x (y ∷ ys) = let rest = rank_in x ys in if comes_before y x then y ∷ rest else x ∷ y ∷ ys

unfoldable pub rank : List RankedCandidate → List RankedCandidate
unfolding rank_in
rank [] = []
rank (x ∷ xs) = rank_in x (rank xs)

-- Defaults by their index, from the index `i`.
unfoldable pub defaults_from : ℕ → List CandidateConfig → List RankedCandidate
defaults_from i [] = []
defaults_from i (c ∷ cs) =
    let rest = defaults_from (suc i) cs in
    if c.is_default then (record { index = i; score = 0 }) ∷ rest else rest

abbrev cut : {A : Type 0} → ℕ → List A → List A
cut n xs = if ltb n (length xs) then take n xs else xs

-- The chosen candidates that the registry has, in tier, each once.
pub record PickLoop : Type 0 where
  pub candidates : List Candidate
  pub seen : List Str

abbrev pick_key : CandidateConfig → Str
pick_key config = config.source ++ 0 ∷ config.title

abbrev to_candidate : Source → CandidateConfig → Candidate
to_candidate source config = record {
  source_id = source.id;
  tier = source.tier;
  citation_form = source.citation_form;
  locator = config.locator;
  title = config.title;
  period = config.period;
  summary = config.summary;
  default_pick = false;
}

module _ (config : Config) (sources : List (Str × Source)) where
  unfoldable pub pick_source : PickLoop → CandidateConfig → Option Source → PickLoop
  pick_source st c none = st
  pick_source st c (some source) =
      if ltb config.candidate_tier_max source.tier
      then st
      else if has st.seen (pick_key c)
      then st
      else record {
        candidates = st.candidates ++ to_candidate source c ∷ [];
        seen = st.seen ++ pick_key c ∷ [];
      }

  abbrev pick_config : PickLoop → Option CandidateConfig → PickLoop
  pick_config st none = st
  pick_config st (some c) = pick_source st c (lookup c.source sources)

  unfoldable pub pick_loop : PickLoop → List RankedCandidate → PickLoop
  unfolding pick_source
  pick_loop st [] = st
  pick_loop st (pick ∷ chosen) =
      pick_loop (pick_config st (get_elem? config.candidates pick.index)) chosen

  module _ (words : Str → List Str) where
    -- `terms`: the words longer than two bytes that are no stop words, each once.
    unfoldable pub terms_of : List Str → List Str
    terms_of [] = []
    terms_of (word ∷ rest) =
        let found = terms_of rest in
        if ltb 2 (length word) && not (has stop_words word) && not (has found word)
        then word ∷ found
        else found

    abbrev count_shared : List Str → List Str → ℕ
    count_shared article [] = 0
    count_shared article (term ∷ rest) =
        let n = count_shared article rest in if has article term then suc n else n

    abbrev join_words : List Str → Str
    join_words [] = []
    join_words (w ∷ []) = w
    join_words (w ∷ v ∷ ws) = w ++ b' ' ∷ join_words (v ∷ ws)

    unfoldable pub rank_from : List Str → ℕ → List CandidateConfig → List RankedCandidate
    unfolding terms_of
    rank_from article i [] = []
    rank_from article i (c ∷ cs) =
        let surface = c.title ++ b' ' ∷ (c.summary ++ b' ' ∷ join_words c.keywords) in
        (record { index = i; score = count_shared article (terms_of (words surface)) })
        ∷ rank_from article (suc i) cs

    -- The best by the rank, or the defaults when nothing matches.
    unfoldable pub choose : List RankedCandidate → List RankedCandidate
    unfolding any_positive defaults_from
    choose ranked =
        let keep = min config.max_candidates (length ranked) in
        if any_positive (take keep ranked)
        then take keep ranked
        else cut keep (defaults_from 0 config.candidates)

    unfoldable pub select_candidates : Str → Str → List Candidate
    unfolding rank_from rank choose pick_loop
    select_candidates title body =
        let article = terms_of (words (title ++ b' ' ∷ take 4000 body)) in
        (pick_loop (record { candidates = []; seen = [] })
          (choose (rank (rank_from article 0 config.candidates)))).candidates

    module _ (lower_runes : Str → List ℕ) where
      unfoldable pub build_unit :
          Source → List Str → List Str → List (Str × Str) → Document → WorkUnit
      unfolding select_candidates
      build_unit reference known rel_types aliases doc =
          let body = cut config.max_unit_chars doc.content_text in
          record {
            unit_key = reference.id ++ b':' ∷ slugify lower_runes doc.title;
            document_id = doc.id;
            title = doc.title;
            body = body;
            truncated = ltb config.max_unit_chars (length doc.content_text);
            reference = record {
              source_id = reference.id;
              locator = (codes "url", text doc.url) ∷ [];
              note = [];
            };
            candidates = select_candidates doc.title body;
            policy = config.policy;
            scope_notes = config.scope_notes;
            known_entity_ids = known;
            rel_types = rel_types;
            rel_aliases = aliases;
          }

    module _ (lower_runes : Str → List ℕ) (quote : Str → Str) where
      abbrev build_for :
          Option Source
          → List Document
          → List Str
          → List Str
          → List (Str × Str)
          → Result (List WorkUnit)
      build_for none documents known rel_types aliases = err (
          codes "arda: reference source "
          ++ quote config.reference_source
          ++ codes " missing "
          ++ 0xe2 ∷ 0x80 ∷ 0x94 ∷ codes " load the source registry first")
      build_for (some reference) documents known rel_types aliases =
          ok (map (build_unit lower_runes reference known rel_types aliases) documents)

      -- `BuildUnits`, on the store's answers.
      unfoldable pub build_units :
          List Document → List Str → List Str → List (Str × Str) → Result (List WorkUnit)
      unfolding build_unit
      build_units documents known rel_types aliases =
          build_for (lookup config.reference_source sources) documents known rel_types aliases
