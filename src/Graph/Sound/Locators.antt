-- ===== src/Graph/Sound/Locators.antt =====
-- The sources and their locator schemes: what a unit must offer, and that loading leaves them alone.
use fact_checker.Base.{
  List, [], ◌∷◌, map, any, all, ◌≡◌, refl, Bool, true, false, not, ◌||◌, Str, codes, ◌==◌, ==_sound,
  Bool-cases, inl, inr, All, All-append, Option, some, is_key, arith,
}
use fact_checker.Extract.{AnyMap, Citation, WorkUnit}
use fact_checker.Validate.Types.{EventRecord, ClaimRecord, Validated}
use fact_checker.Validate.Citations.Surface.{offers, offered, demanded}
use fact_checker.Validate.Citations.Citeable.{IsCiteable}
use fact_checker.Graph.Rows.{Row, source_row, Graph, key, begins_with}
use fact_checker.Graph.Load.{
  concat_map, entity_rows, event_itself, event_references, claim_rows, relationship_itself,
  contradiction_rows, rows_of, load_records, version_citations,
}
use fact_checker.Graph.Checks.{violates, bad_locator}
use fact_checker.Graph.Rows.Laws.{any-put_all_frame}
use fact_checker.Graph.Sound.Included.{All-every_row, All-every_rows}

-- Of each registered source that the unit offers, some offer carries each required key.
unfoldable pub covers_row : WorkUnit → Row → Bool
covers_row u (source_row id (some ks)) =
    not (offered id (offers u)) || all (λ k. demanded id k (offers u)) ks
covers_row u r = true

unfoldable pub covers : WorkUnit → Graph → Bool
unfolding covers_row
covers u g = all (covers_row u) g

all_of_all :
    (p q : Str → Bool) (ks : List Str)
    → ((k : Str) → p k ≡ true → q k ≡ true)
    → all p ks ≡ true
    → all q ks ≡ true
unfolding all
all_of_all p q [] keep h = refl
all_of_all p q (k ∷ ks) keep h = ground (arith, keep k, all_of_all p q ks keep)

module _ (u : WorkUnit) (c : Citation) (good : IsCiteable u c) where
  not_violated : (r : Row) → covers_row u r ≡ true → violates c.source_id (some c.locator) r ≡ false
  unfolding covers_row violates
  not_violated (source_row id (some ks)) h = elim (Bool-cases (id == c.source_id)) [
    | inl e ↦
        let same = ==_sound id c.source_id e in
        ground (
          arith,
          rw same at h,
          good.known,
          all_of_all (λ k. demanded c.source_id k (offers u)) (λ k. is_key k c.locator) ks
              good.located,
        )
    | inr e ↦ rw e
  ]
  not_violated r h = refl

  -- A citeable citation violates no scheme that the unit covers.
  pub IsCiteable-bad_locator :
      (g : Graph) → covers u g ≡ true → bad_locator c.source_id (some c.locator) g ≡ false
  unfolding covers bad_locator any all
  IsCiteable-bad_locator [] h = refl
  IsCiteable-bad_locator (r ∷ g) h = ground (arith, not_violated r, IsCiteable-bad_locator g)

violates-only :
    (source : Str) (locator : Option AnyMap) (r : Row)
    → violates source locator r ≡ true
    → begins_with (codes "sources" ∷ []) (key r) ≡ true
unfolding violates begins_with key ◌==◌
violates-only source locator (source_row id scheme) h = refl
violates-only source locator r h = cc

abbrev IsOther : Row → Type 0
IsOther r = begins_with (codes "sources" ∷ []) (key r) ≡ false

-- No row of a record is a source.
rows_of-IsOther : (v : Validated) → All IsOther (rows_of v)
unfolding rows_of begins_with key ◌==◌
rows_of-IsOther v =
    All-append IsOther (concat_map entity_rows v.entities) _
      (All-every_rows IsOther entity_rows (λ e. (refl, All-every_row IsOther _ (λ n. refl) e.names))
        v.entities)
      (All-append IsOther (map event_itself v.events) _
        (All-every_row IsOther event_itself (λ e. refl) v.events)
        (All-append IsOther (concat_map event_references v.events) _
          (All-every_rows IsOther event_references references v.events)
          (All-append IsOther (concat_map claim_rows v.claims) _
            (All-every_rows IsOther claim_rows claims v.claims)
            (All-append IsOther (map relationship_itself v.relationships) _
              (All-every_row IsOther relationship_itself (λ r. refl) v.relationships)
              (All-every_rows IsOther contradiction_rows (λ k. (refl, (refl, tt)))
                v.contradictions)))))
  where
    references : (e : EventRecord) → All IsOther (event_references e)
    references e =
        All-append IsOther (map _ e.participants) _
          (All-every_row IsOther _ (λ p. refl) e.participants)
          (All-append IsOther (map _ e.causes) _ (All-every_row IsOther _ (λ l. refl) e.causes) (
            All-append IsOther (map _ e.consequences) _
              (All-every_row IsOther _ (λ l. refl) e.consequences)
              (All-every_row IsOther _ (λ c. refl) e.sources)))

    claims : (c : ClaimRecord) → All IsOther (claim_rows c)
    claims c = (
      refl,
      All-append IsOther (map _ c.versions) _ (All-every_row IsOther _ (λ v. refl) c.versions) (
          All-append IsOther (map _ c.sources) _ (All-every_row IsOther _ (λ d. refl) c.sources) (
            All-every_rows IsOther (version_citations c.id)
              (λ v. All-every_row IsOther _ (λ d. refl) v.sources) c.versions)),
    )

-- Loading leaves the sources as they were.
pub bad_locator-load_records :
    (v : Validated) (g : Graph) (source : Str) (locator : Option AnyMap)
    → bad_locator source locator (load_records v g) ≡ bad_locator source locator g
unfolding bad_locator load_records
bad_locator-load_records v g source locator =
    any-put_all_frame (violates source locator) (codes "sources" ∷ [])
      (violates-only source locator) (rows_of v) g (rows_of-IsOther v)
