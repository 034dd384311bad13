-- ===== src/Validate/Claims/Laws.antt =====
-- What holds of the claims, the register and the log after `map_claims`.
use fact_checker.Base.{
  is_key-snoc, insert, suc, ◌+◌, List, [], ◌∷◌, ◌++◌, map, ◌≡◌, refl, sym, ◌∙◌, ap, false, Str, has,
  is_key, Distinct, Distinct-snoc, select, select-snoc, map-snoc, length-snoc, length, All,
  All-snoc, arith, Bool-cases, inl, inr,
}
use fact_checker.Wire.Types.{WireClaim, WireExtraction}
use fact_checker.Validate.Types.{
  Drop, EntityRecord, ClaimRecord, Validated, ValidationContext, needs_versions,
}
use fact_checker.Validate.Citations.{citeable_sources}
use fact_checker.Validate.Claims.{
  ClaimLoop, contradiction_entry, keep_claim, claim_round, claim_loop, map_claims,
}
use fact_checker.Validate.Claims.Outcome.{IsLoadable, rejected, accepted, claim_drops, with_drops}
use fact_checker.Validate.Claims.Round.{claim_round-Outcome}

abbrev pub claim_ids : List ClaimRecord → List Str
claim_ids cs = map (λ (c : ClaimRecord). c.id) cs

abbrev pub contested_claims : List ClaimRecord → List ClaimRecord
contested_claims cs = select (λ (c : ClaimRecord). needs_versions c.confidence) cs

-- The loop's invariant, for a result that had no claim before.
pub record Inv (payload : List (Str × EntityRecord)) (ctx : ValidationContext) (st : ClaimLoop)
    : Type 0 where
  pub loadable : All (IsLoadable payload ctx) st.result.claims
  pub distinct : Distinct (claim_ids st.result.claims)
  pub keyed : (k : Str) → is_key k st.by_id ≡ has (claim_ids st.result.claims) k
  pub register :
      st.result.contradictions ≡ map contradiction_entry (contested_claims st.result.claims)

keep_claim-claims :
    (st : ClaimLoop) (c : ClaimRecord)
    → (keep_claim st c).result.claims ≡ st.result.claims ++ c ∷ []
unfolding keep_claim
keep_claim-claims st c = ground arith

keep_claim-drops :
    (st : ClaimLoop) (c : ClaimRecord) → (keep_claim st c).result.drops ≡ st.result.drops
unfolding keep_claim
keep_claim-drops st c = ground arith

keep_claim-register :
    (st : ClaimLoop) (c : ClaimRecord)
    → st.result.contradictions ≡ map contradiction_entry (contested_claims st.result.claims)
    → (keep_claim st c).result.contradictions
      ≡ map contradiction_entry (contested_claims (st.result.claims ++ c ∷ []))
unfolding keep_claim
keep_claim-register st c h =
    rw (select-snoc (λ (d : ClaimRecord). needs_versions d.confidence) st.result.claims c)
      (elim (Bool-cases (needs_versions c.confidence)) [
        | inl e ↦ rw (e, map-snoc contradiction_entry) (ap (λ l. l ++ contradiction_entry c ∷ []) h)
        | inr e ↦ rw e h
      ])

-- The records of the other kinds are the same.
pub record SameOthers (r r' : Validated) : Type 0 where
  pub entities : r'.entities ≡ r.entities
  pub events : r'.events ≡ r.events
  pub relationships : r'.relationships ≡ r.relationships

keep_claim_frame :
    (st : ClaimLoop) (c : ClaimRecord) → SameOthers st.result (keep_claim st c).result
unfolding keep_claim
keep_claim_frame st c = ground arith

keep_claim-by_id :
    (st : ClaimLoop) (c : ClaimRecord) → (keep_claim st c).by_id ≡ insert c.id c st.by_id
unfolding keep_claim
keep_claim-by_id st c = refl

module _ (payload : List (Str × EntityRecord)) (ctx : ValidationContext) where
  keep_claim-Inv :
      (st : ClaimLoop) (c : ClaimRecord)
      → is_key c.id st.by_id ≡ false
      → IsLoadable payload ctx c
      → Inv payload ctx st
      → Inv payload ctx (keep_claim st c)
  keep_claim-Inv st c new good h =
      rw (keep_claim-claims st c, keep_claim-by_id st c, keep_claim-register st c h.register)
        (record {
          loadable = All-snoc (IsLoadable payload ctx) st.result.claims c h.loadable good;
          distinct = rw (map-snoc (λ (d : ClaimRecord). d.id) st.result.claims c) (
              Distinct-snoc (claim_ids st.result.claims) c.id h.distinct
                (sym (h.keyed c.id) ∙ new));
          keyed =
              rw (map-snoc (λ (d : ClaimRecord). d.id) st.result.claims c)
                (is_key-snoc c.id c st.by_id (claim_ids st.result.claims) h.keyed);
          register = refl;
        })

  round-Inv :
      (st : ClaimLoop) (claim : WireClaim)
      → Inv payload ctx st
      → Inv payload ctx (claim_round (citeable_sources ctx.unit) ctx payload st claim)
  round-Inv st claim h = elim (claim_round-Outcome ctx payload st claim) [
    | rejected ds e n ↦ rw e (with_drops-Inv st ds h)
    | accepted ds c e n i new good ↦
        rw e (keep_claim-Inv (with_drops st ds) c new good (with_drops-Inv st ds h))
  ]
    where
      with_drops-Inv :
          (s : ClaimLoop) (ds : List Drop) → Inv payload ctx s → Inv payload ctx (with_drops s ds)
      with_drops-Inv s ds h = record {
        loadable = h.loadable;
        distinct = h.distinct;
        keyed = h.keyed;
        register = h.register;
      }

  claim_loop-Inv :
      (st : ClaimLoop) (claims : List WireClaim)
      → Inv payload ctx st
      → Inv payload ctx (claim_loop (citeable_sources ctx.unit) ctx payload st claims)
  unfolding claim_loop
  claim_loop-Inv st [] h = h
  claim_loop-Inv st (claim ∷ claims) h =
      claim_loop-Inv (claim_round (citeable_sources ctx.unit) ctx payload st claim) claims
        (round-Inv st claim h)

  -- Each claim is kept or logged.
  round_count :
      (st : ClaimLoop) (claim : WireClaim)
      → let after = claim_round (citeable_sources ctx.unit) ctx payload st claim in
        length after.result.claims + claim_drops after.result.drops
        ≡ suc (length st.result.claims + claim_drops st.result.drops)
  round_count st claim = elim (claim_round-Outcome ctx payload st claim) [
    | rejected ds e n ↦ rw e (omega (arith, n))
    | accepted ds c e n i new good ↦
        rw (e, keep_claim-claims (with_drops st ds) c, keep_claim-drops (with_drops st ds) c)
          (omega (arith, n, length-snoc st.result.claims c))
  ]

  claim_loop_count :
      (st : ClaimLoop) (claims : List WireClaim)
      → let after = claim_loop (citeable_sources ctx.unit) ctx payload st claims in
        length after.result.claims + claim_drops after.result.drops
        ≡ length claims + (length st.result.claims + claim_drops st.result.drops)
  unfolding claim_loop
  claim_loop_count st [] = omega arith
  claim_loop_count st (claim ∷ claims) = omega (
    arith,
    claim_loop_count (claim_round (citeable_sources ctx.unit) ctx payload st claim) claims,
    round_count st claim,
  )

  round_frame :
      (st : ClaimLoop) (claim : WireClaim)
      → SameOthers st.result (claim_round (citeable_sources ctx.unit) ctx payload st claim).result
  round_frame st claim = elim (claim_round-Outcome ctx payload st claim) [
    | rejected ds e n ↦ rw e (record { entities = refl; events = refl; relationships = refl })
    | accepted ds c e n i new good ↦
        let f = keep_claim_frame (with_drops st ds) c in
        rw e (record { entities = f.entities; events = f.events; relationships = f.relationships })
  ]

  claim_loop_frame :
      (st : ClaimLoop) (claims : List WireClaim)
      → SameOthers st.result (claim_loop (citeable_sources ctx.unit) ctx payload st claims).result
  unfolding claim_loop
  claim_loop_frame st [] = record { entities = refl; events = refl; relationships = refl }
  claim_loop_frame st (claim ∷ claims) =
      let st' = claim_round (citeable_sources ctx.unit) ctx payload st claim in
      let here = round_frame st claim in
      let there = claim_loop_frame st' claims in
      record {
        entities = there.entities ∙ here.entities;
        events = there.events ∙ here.events;
        relationships = there.relationships ∙ here.relationships;
      }

module _ (wire : WireExtraction) (payload : List (Str × EntityRecord)) (ctx : ValidationContext)
    (result : Validated) where
  abbrev mapped : ClaimLoop
  mapped = map_claims wire (citeable_sources ctx.unit) payload ctx result

  -- From a result with no claim and an empty register, the invariant holds after `mapClaims`.
  pub map_claims-Inv : result.claims ≡ [] → result.contradictions ≡ [] → Inv payload ctx mapped
  unfolding map_claims
  map_claims-Inv none_yet no_entry =
      claim_loop-Inv payload ctx (record { by_id = []; result = result }) wire.claims
        (rw (none_yet, no_entry)
          (record {
            loadable = tt;
            distinct = tt;
            keyed = λ k. unfold is_key has in refl;
            register = unfold select in refl;
          }))

  -- Every claim of the payload is kept, or logged by exactly one entry of the kind "claim".
  pub map_claims-conservation :
      length mapped.result.claims + claim_drops mapped.result.drops
      ≡ length wire.claims + (length result.claims + claim_drops result.drops)
  unfolding map_claims
  map_claims-conservation =
      claim_loop_count payload ctx (record { by_id = []; result = result }) wire.claims

  pub map_claims_frame : SameOthers result mapped.result
  unfolding map_claims
  map_claims_frame =
      claim_loop_frame payload ctx (record { by_id = []; result = result }) wire.claims
