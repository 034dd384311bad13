-- ===== src/Adapter/Arda/Laws.antt =====
-- What the candidates of a unit are, and what of a document is sent.
use fact_checker.Base.{
  append-nil, ◌↔◌, ℕ, zero, suc, ◌+◌, ◌≤◌, min, List, [], ◌∷◌, ◌++◌, length, take, drop,
  take-append-drop, length-snoc, Str, false, has, lookup, ltb, Option, none, some, All, All-snoc,
  Distinct, Distinct-snoc, ◌≡◌, refl, sym, arith, Bool-cases, inl, inr, get_elem?,
}
use fact_checker.Extract.{Candidate, Source, Document}
use fact_checker.Adapter.Arda.{
  terms_of, RankedCandidate, PickLoop, pick_key, to_candidate, pick_source, pick_config, pick_loop,
  choose, any_positive, defaults_from, cut, rank, rank_from, select_candidates, build_unit,
}
use fact_checker.Adapter.Manifest.{Config, CandidateConfig}

length-take {ℓ} : {A : Type ℓ} (n : ℕ) (xs : List A) → length (take n xs) ≤ n
length-take zero xs = omega arith
length-take (suc n) [] = omega arith
length-take (suc n) (x ∷ xs) = omega (arith, length-take n xs)

length-cut : {A : Type 0} (n : ℕ) (xs : List A) → length (cut n xs) ≤ n
length-cut n xs = elim (Bool-cases (ltb n (length xs))) [
  | inl e ↦ rw e (length-take n xs)
  | inr e ↦ rw e (ground arith)
]

drop-nil {ℓ} : {A : Type ℓ} (n : ℕ) (xs : List A) → drop n xs ≡ [] → length xs ≤ n
drop-nil zero [] h = omega arith
drop-nil zero (x ∷ xs) h = cc
drop-nil (suc n) [] h = omega arith
drop-nil (suc n) (x ∷ xs) h = omega (arith, drop-nil n xs h)

cut_lem :
    {A : Type 0} (n : ℕ) (xs : List A)
    → (rest : List A) × (xs ≡ cut n xs ++ rest) × ((ltb n (length xs) ≡ false) ↔ (rest ≡ []))
cut_lem n xs = elim (Bool-cases (ltb n (length xs))) [
  | inl e ↦ rw e (
    drop n xs,
    sym (take-append-drop n xs),
    (λ h. cc, λ h. let short = drop-nil n xs h in absurd (ground arith)),
  )
  | inr e ↦ rw e ([], sym (append-nil xs), (λ h. refl, λ h. refl))
]

module _ (config : Config) (sources : List (Str × Source)) where
  -- A candidate that is an entry of the manifest, of a source of the registry whose tier is allowed.
  pub record IsOffered (candidate : Candidate) : Type 0 where
    pub entry : CandidateConfig
    pub position : ℕ
    pub listed : get_elem? config.candidates position ≡ some entry
    pub source : Source
    pub registered : lookup entry.source sources ≡ some source
    pub in_tier : source.tier ≤ config.candidate_tier_max
    pub source_id : candidate.source_id ≡ source.id
    pub locator : candidate.locator ≡ entry.locator
    pub title : candidate.title ≡ entry.title
    pub tier : candidate.tier ≡ source.tier

  -- The loop after `n` picks.
  record Inv (n : ℕ) (st : PickLoop) : Type 0 where
    offered : All IsOffered st.candidates
    distinct : Distinct st.seen
    paired : length st.seen ≡ length st.candidates
    few : length st.candidates ≤ n

  Inv-wait : (n : ℕ) (st : PickLoop) → Inv n st → Inv (suc n) st
  Inv-wait n st i = record {
    offered = i.offered;
    distinct = i.distinct;
    paired = i.paired;
    few = omega (arith, i.few);
  }

  pick_source-Inv :
      (n : ℕ) (st : PickLoop) (c : CandidateConfig) (position : ℕ)
      → get_elem? config.candidates position ≡ some c
      → (o : Option Source) → lookup c.source sources ≡ o
      → Inv n st
      → Inv (suc n) (pick_source config sources st c o)
  unfolding pick_source
  pick_source-Inv n st c position there none e i = Inv-wait n st i
  pick_source-Inv n st c position there (some source) e i =
      elim (Bool-cases (ltb config.candidate_tier_max source.tier)) [
        | inl high ↦ rw high (Inv-wait n st i)
        | inr low ↦ elim (Bool-cases (has st.seen (pick_key c))) [
          | inl old ↦ rw (low, old) (Inv-wait n st i)
          | inr new ↦
              rw (low, new)
                (record {
                  offered =
                      All-snoc IsOffered st.candidates (to_candidate source c) i.offered (record {
                        entry = c;
                        position = position;
                        listed = there;
                        source = source;
                        registered = e;
                        in_tier = ground arith;
                        source_id = refl;
                        locator = refl;
                        title = refl;
                        tier = refl;
                      });
                  distinct = Distinct-snoc st.seen (pick_key c) i.distinct new;
                  paired = omega (
                    arith,
                    i.paired,
                    length-snoc st.seen (pick_key c),
                    length-snoc st.candidates (to_candidate source c),
                  );
                  few = omega (arith, i.few, length-snoc st.candidates (to_candidate source c));
                })
        ]
      ]

  pick_config-Inv :
      (n : ℕ) (st : PickLoop) (position : ℕ) (o : Option CandidateConfig)
      → get_elem? config.candidates position ≡ o
      → Inv n st
      → Inv (suc n) (pick_config config sources st o)
  pick_config-Inv n st position none e i = Inv-wait n st i
  pick_config-Inv n st position (some c) e i =
      pick_source-Inv n st c position e (lookup c.source sources) refl i

  pick_loop-Inv :
      (chosen : List RankedCandidate) (n : ℕ) (st : PickLoop)
      → Inv n st
      → Inv (n + length chosen) (pick_loop config sources st chosen)
  unfolding pick_loop
  pick_loop-Inv [] n st i = let n_0 : n + 0 ≡ n = omega arith in rw n_0 i
  pick_loop-Inv (pick ∷ chosen) n st i =
      let next : n + suc (length chosen) ≡ suc n + length chosen = omega arith in
      rw next (
        pick_loop-Inv chosen (suc n) _
          (pick_config-Inv n st pick.index (get_elem? config.candidates pick.index) refl i))

  module _ (words : Str → List Str) where
    choose-few :
        (ranked : List RankedCandidate)
        → length (choose config sources words ranked) ≤ config.max_candidates
    unfolding choose
    choose-few ranked =
        let keep = min config.max_candidates (length ranked) in
        elim (Bool-cases (any_positive (take keep ranked))) [
          | inl e ↦ rw e (omega (arith, length-take keep ranked))
          | inr e ↦ rw e (omega (arith, length-cut keep (defaults_from 0 config.candidates)))
        ]

    -- The candidates of a unit are at most as many as the manifest allows, and each is an entry
    -- of the manifest whose source the registry has, in a tier that the manifest allows, with the
    -- id of that source and the locator and the title of the entry.
    pub select_candidates-IsOffered :
        (title body : Str)
        → (length (select_candidates config sources words title body) ≤ config.max_candidates)
          × All IsOffered (select_candidates config sources words title body)
    unfolding select_candidates
    select_candidates-IsOffered title body =
        let article = terms_of config sources words (words (title ++ b' ' ∷ take 4000 body)) in
        let ranked = rank (rank_from config sources words article 0 config.candidates) in
        let chosen = choose config sources words ranked in
        let i =
          pick_loop-Inv chosen 0 (record { candidates = []; seen = [] })
            (record { offered = tt; distinct = tt; paired = refl; few = omega arith }) in
        (omega (arith, i.few, choose-few ranked), i.offered)

    -- A unit has a document's text up to the cap on its length, as it begins, and is marked as
    -- truncated exactly when something was cut off.
    pub build_unit-body :
        (lower_runes : Str → List ℕ) (reference : Source) (known rel_types : List Str)
        (aliases : List (Str × Str)) (doc : Document)
        → let u =
            build_unit config sources words lower_runes reference known rel_types aliases doc in
          (length u.body ≤ config.max_unit_chars)
          × ((rest : Str) × (doc.content_text ≡ u.body ++ rest)
              × ((u.truncated ≡ false) ↔ (rest ≡ [])))
    unfolding build_unit
    build_unit-body lower_runes reference known rel_types aliases doc = (
      length-cut config.max_unit_chars doc.content_text,
      cut_lem config.max_unit_chars doc.content_text,
    )
