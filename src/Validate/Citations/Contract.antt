-- ===== src/Validate/Citations/Contract.antt =====
-- What `filter_citations` keeps and logs.
use fact_checker.Base.{
  List, [], ◌∷◌, ◌++◌, map, ◌≡◌, ◌↔◌, refl, sym, ◌∙◌, Bool, true, false, not, Str, Option, none,
  some, lookup, all, select, select_ext, arith, Bool-cases, inl, inr, if◌then◌else◌, Option-cases,
  append-nil, append_assoc, ap, All, codes, is_empty,
}
use fact_checker.Extract.{Citation, WorkUnit}
use fact_checker.Wire.Types.{WireCitation}
use fact_checker.Validate.Types.{Drop, add_drop}
use fact_checker.Validate.Citations.{
  Allowed, citeable_sources, to_citation, missing_keys, judge_locator, judge_citation, filter_from,
  filter_citations, join_quoted,
}
use fact_checker.Validate.Citations.Surface.{knows-citeable_sources, requires-citeable_sources}
use fact_checker.Validate.Citations.Citeable.{
  IsCiteable, carries, is_citeable, carries-has, carries_of_has, is_citeable_iff,
}

-- The test of the code: the source is known, and no required key is missing.
abbrev accepted_keys : Option (List Str) → WireCitation → Bool
accepted_keys none w = false
accepted_keys (some required) w = is_empty (missing_keys w required)

abbrev accepted : Allowed → WireCitation → Bool
accepted allowed w = accepted_keys (lookup w.source_id allowed) w

missing_keys-carries :
    (w : WireCitation) (required : List Str)
    → is_empty (missing_keys w required) ≡ carries w.locator required
unfolding select all
missing_keys-carries w [] = refl
missing_keys-carries w (k ∷ ks) = ground (arith, missing_keys-carries w ks)

accepted_iff :
    (u : WorkUnit) (w : WireCitation)
    → (accepted (citeable_sources u) w ≡ true) ↔ IsCiteable u (to_citation w)
accepted_iff u w = (forth, back)
  where
    forth : accepted (citeable_sources u) w ≡ true → IsCiteable u (to_citation w)
    forth h = elim (Option-cases (lookup w.source_id (citeable_sources u))) [
      | inl e ↦ ground (arith, e)
      | inr (ks, e) ↦ record {
        known = ground (arith, knows-citeable_sources u w.source_id, e);
        located = λ k m.
            carries-has w.locator ks k (ground (arith, missing_keys-carries w ks, e))
              (ground (arith, requires-citeable_sources u w.source_id k, e));
      }
    ]

    back : IsCiteable u (to_citation w) → accepted (citeable_sources u) w ≡ true
    back h = elim (Option-cases (lookup w.source_id (citeable_sources u))) [
      | inl e ↦ ground (arith, knows-citeable_sources u w.source_id, e, h.known)
      | inr (ks, e) ↦ rw e (
          missing_keys-carries w ks
          ∙ carries_of_has w.locator ks
              (λ k m. h.located k (sym (requires-citeable_sources u w.source_id k) ∙ rw e m)))
    ]

-- The reason that the log gives for a citation that is not accepted.
abbrev rejection_reason : Option (List Str) → WireCitation → Str
rejection_reason none w = codes "unknown source '" ++ w.source_id ++ codes "'"
rejection_reason (some required) w =
    codes "bad_locator: locator for "
    ++ w.source_id
    ++ codes " missing required keys "
    ++ join_quoted (missing_keys w required)

module _ (owner : Str) (allowed : Allowed) where
  abbrev pub rejection : WireCitation → Drop
  rejection w = record {
    kind = codes "citation";
    ref = owner;
    reason = rejection_reason (lookup w.source_id allowed) w;
  }

  judge_keys :
      (o : Option (List Str)) (w : WireCitation) (kept : List Citation) (drops : List Drop)
      → judge_citation owner o w (kept, drops) ≡ (
          if accepted_keys o w
          then (kept ++ to_citation w ∷ [], drops)
          else (kept, add_drop drops (codes "citation") owner (rejection_reason o w)))
  unfolding judge_citation judge_locator
  judge_keys none w kept drops = refl
  judge_keys (some required) w kept drops = ground arith

  filter_from_lem :
      (ws : List WireCitation) (kept : List Citation) (drops : List Drop)
      → filter_from owner allowed (kept, drops) ws ≡ (
        kept ++ map to_citation (select (accepted allowed) ws),
        drops ++ map rejection (select (λ w. not (accepted allowed w)) ws),
      )
  unfolding filter_from select
  filter_from_lem [] kept drops = ground (arith, append-nil kept, append-nil drops)
  filter_from_lem (w ∷ ws) kept drops = elim (Bool-cases (accepted allowed w)) [
    | inl e ↦ ground (
      arith,
      judge_keys (lookup w.source_id allowed) w kept drops,
      filter_from_lem ws (kept ++ to_citation w ∷ []) drops,
      append_assoc kept (to_citation w ∷ []) (map to_citation (select (accepted allowed) ws)),
    )
    | inr e ↦ ground (
      arith,
      judge_keys (lookup w.source_id allowed) w kept drops,
      filter_from_lem ws kept (drops ++ rejection w ∷ []),
      append_assoc drops (rejection w ∷ [])
          (map rejection (select (λ v. not (accepted allowed v)) ws)),
    )
  ]

  -- The accepted citations are kept in order, and each other one is logged once, in order.
  pub filter_citations_lem :
      (ws : List WireCitation) (drops : List Drop)
      → filter_citations ws allowed drops owner ≡ (
        map to_citation (select (accepted allowed) ws),
        drops ++ map rejection (select (λ w. not (accepted allowed w)) ws),
      )
  unfolding filter_citations
  filter_citations_lem ws drops = filter_from_lem ws [] drops

kept-IsCiteable :
    (u : WorkUnit) (ws : List WireCitation)
    → All (IsCiteable u) (map to_citation (select (accepted (citeable_sources u)) ws))
unfolding select
kept-IsCiteable u [] = tt
kept-IsCiteable u (w ∷ ws) = elim (Bool-cases (accepted (citeable_sources u) w)) [
  | inl e ↦ rw e ((accepted_iff u w).0 e, kept-IsCiteable u ws)
  | inr e ↦ rw e (kept-IsCiteable u ws)
]

-- Every citation that `filterCitations` keeps is citeable.
pub filter_citations-IsCiteable :
    (u : WorkUnit) (ws : List WireCitation) (drops : List Drop) (owner : Str)
    → All (IsCiteable u) (filter_citations ws (citeable_sources u) drops owner).0
filter_citations-IsCiteable u ws drops owner =
    rw (filter_citations_lem owner (citeable_sources u) ws drops) (kept-IsCiteable u ws)

accepted-is_citeable :
    (u : WorkUnit) (w : WireCitation)
    → accepted (citeable_sources u) w ≡ is_citeable u (to_citation w)
accepted-is_citeable u w = ground (
  arith,
  (accepted_iff u w).0,
  (accepted_iff u w).1,
  (is_citeable_iff u (to_citation w)).0,
  (is_citeable_iff u (to_citation w)).1,
)

-- `filterCitations` keeps, in order, the citations whose source the unit offers and whose locator
-- has every key that an offer of that source has; each other citation is logged, in order, after
-- what was logged before.
pub filter_citations-exact :
    (u : WorkUnit) (ws : List WireCitation) (drops : List Drop) (owner : Str)
    → let (kept, drops') = filter_citations ws (citeable_sources u) drops owner in
      (kept ≡ map to_citation (select (λ w. is_citeable u (to_citation w)) ws))
      × (drops'
          ≡ drops
            ++ map
                (rejection owner (citeable_sources u))
                (select (λ w. not (is_citeable u (to_citation w))) ws))
filter_citations-exact u ws drops owner =
    rw
      (
        filter_citations_lem owner (citeable_sources u) ws drops,
        select_ext (accepted (citeable_sources u)) (λ w. is_citeable u (to_citation w)) ws
            (accepted-is_citeable u),
        select_ext (λ w. not (accepted (citeable_sources u) w))
            (λ w. not (is_citeable u (to_citation w))) ws (λ w. ap not (accepted-is_citeable u w)),
      )
      (refl, refl)
