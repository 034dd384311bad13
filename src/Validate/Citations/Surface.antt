-- ===== src/Validate/Citations/Surface.antt =====
-- What `citeable_sources` computes, against the list of the reference and the candidates.
use fact_checker.Base.{
  List, [], ◌∷◌, ◌++◌, map, foldl, ◌≡◌, refl, Bool, true, false, ◌&&◌, ◌||◌, Str, ◌==◌, ==_iff,
  Option, none, some, has, has-append, keys, lookup, lookup-insert, is_key, arith, if◌then◌else◌,
}
use fact_checker.Extract.{AnyMap, Candidate, WorkUnit}
use fact_checker.Validate.Citations.{
  Allowed, or_empty, add_keys, add_source, add_candidate, citeable_sources,
}

-- A source with a locator that the unit offers for it.
abbrev pub Offer : Type 0
Offer = Str × AnyMap

abbrev candidate_offer : Candidate → Offer
candidate_offer c = (c.source_id, c.locator)

abbrev pub offers : WorkUnit → List Offer
offers u = (u.reference.source_id, u.reference.locator) ∷ map candidate_offer u.candidates

-- Some offer is of the source; some offer of the source has the key.
unfoldable pub offered : Str → List Offer → Bool
offered id [] = false
offered id ((s, l) ∷ os) = s == id || offered id os

unfoldable pub demanded : Str → Str → List Offer → Bool
demanded id k [] = false
demanded id k ((s, l) ∷ os) = (s == id && is_key k l) || demanded id k os

abbrev is_some : Option (List Str) → Bool
is_some none = false
is_some (some keys) = true

abbrev pub knows : Allowed → Str → Bool
knows allowed id = is_some (lookup id allowed)

abbrev pub requires : Allowed → Str → Str → Bool
requires allowed id k = has (or_empty (lookup id allowed)) k

has-add_keys :
    (l : AnyMap) (ks : List Str) (k : Str) → has (add_keys ks l) k ≡ (has ks k || is_key k l)
unfolding add_keys is_key has
has-add_keys [] ks k = ground arith
has-add_keys ((j, v) ∷ l) ks k = ground (
  arith,
  has-add_keys l (if has ks j then ks else ks ++ j ∷ []) k,
  has-append ks (j ∷ []) k,
  ==_iff j k,
)

module _ (allowed : Allowed) (id : Str) (l : AnyMap) (j : Str) where
  knows-add_source : knows (add_source allowed id l) j ≡ (id == j || knows allowed j)
  unfolding add_source
  knows-add_source =
      ground (arith, lookup-insert id j (add_keys (or_empty (lookup id allowed)) l) allowed)

  requires-add_source :
      (k : Str)
      → requires (add_source allowed id l) j k ≡ (requires allowed j k || ((id == j) && is_key k l))
  unfolding add_source
  requires-add_source k = ground (
    arith,
    lookup-insert id j (add_keys (or_empty (lookup id allowed)) l) allowed,
    has-add_keys l (or_empty (lookup id allowed)) k,
    ==_iff id j,
  )

knows-foldl :
    (cs : List Candidate) (allowed : Allowed) (j : Str)
    → knows (foldl add_candidate allowed cs) j
      ≡ (knows allowed j || offered j (map candidate_offer cs))
unfolding offered
knows-foldl [] allowed j = ground arith
knows-foldl (c ∷ cs) allowed j = ground (
  arith,
  knows-foldl cs (add_candidate allowed c) j,
  knows-add_source allowed c.source_id c.locator j,
)

requires-foldl :
    (cs : List Candidate) (allowed : Allowed) (j k : Str)
    → requires (foldl add_candidate allowed cs) j k
      ≡ (requires allowed j k || demanded j k (map candidate_offer cs))
unfolding demanded
requires-foldl [] allowed j k = ground arith
requires-foldl (c ∷ cs) allowed j k = ground (
  arith,
  requires-foldl cs (add_candidate allowed c) j k,
  requires-add_source allowed c.source_id c.locator j k,
)

-- A source is citeable exactly when the reference or a candidate is of it.
pub knows-citeable_sources :
    (u : WorkUnit) (id : Str) → knows (citeable_sources u) id ≡ offered id (offers u)
unfolding citeable_sources offered
knows-citeable_sources u id = ground (
  arith,
  knows-foldl u.candidates (add_source [] u.reference.source_id u.reference.locator) id,
  knows-add_source [] u.reference.source_id u.reference.locator id,
  lookup_nil id,
)
  where
    lookup_nil : (k : Str) → knows [] k ≡ false
    lookup_nil k = unfold lookup in refl

-- A key is required for a source exactly when some offer of the source has the key.
pub requires-citeable_sources :
    (u : WorkUnit) (id k : Str) → requires (citeable_sources u) id k ≡ demanded id k (offers u)
unfolding citeable_sources demanded
requires-citeable_sources u id k = ground (
  arith,
  requires-foldl u.candidates (add_source [] u.reference.source_id u.reference.locator) id k,
  requires-add_source [] u.reference.source_id u.reference.locator id k,
  lookup_nil id,
)
  where
    lookup_nil : (j : Str) → requires [] j k ≡ false
    lookup_nil j = unfold lookup has in refl
