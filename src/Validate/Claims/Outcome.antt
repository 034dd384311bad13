-- ===== src/Validate/Claims/Outcome.antt =====
-- The outcomes of a round of the loop of `map_claims`, and what holds of a claim that is kept.
use fact_checker.Base.{ℕ, suc, List, [], ◌≡◌, ◌≢◌, ◌⊎◌, true, false, Str, codes, has, is_key, All}
use fact_checker.Wire.Types.{WireClaim}
use fact_checker.Validate.Types.{
  Drop, EntityRecord, ClaimVersionRecord, ClaimRecord, ValidationContext, is_slug, needs_versions,
  resolve_entity,
}
use fact_checker.Validate.Citations.Reason.{IsCited}
use fact_checker.Validate.Drops.{count_kind}
use fact_checker.Validate.Claims.{ClaimLoop, keep_claim}

abbrev pub claim_kind : Str
claim_kind = codes "claim"

abbrev pub claim_drops : List Drop → ℕ
claim_drops ds = count_kind claim_kind ds

abbrev pub with_drops : ClaimLoop → List Drop → ClaimLoop
with_drops st ds = record st { result = record (st.result) { drops = ds } }

-- What holds of every claim that is kept.
pub record IsLoadable (payload : List (Str × EntityRecord)) (ctx : ValidationContext)
    (c : ClaimRecord) : Type 0 where
  pub slug : is_slug c.id ≡ true
  pub fresh : has ctx.db_claim_ids c.id ≡ false
  pub cited : IsCited ctx.unit c.sources
  pub versions_cited : All (λ (v : ClaimVersionRecord). IsCited ctx.unit v.sources) c.versions
  pub versioned : needs_versions c.confidence ≡ true → c.versions ≢ []
  pub subject : resolve_entity c.subject_entity_id payload ctx ≡ true
  pub object : resolve_entity c.object_entity_id payload ctx ≡ true
  pub one_object : (c.object_entity_id ≡ []) ⊎ (c.object_value ≡ [])

pub data Outcome (payload : List (Str × EntityRecord)) (ctx : ValidationContext) (st : ClaimLoop)
    (claim : WireClaim) (after : ClaimLoop) : Type 0 where
  rejected :
      (ds : List Drop)
      → after ≡ with_drops st ds
      → claim_drops ds ≡ suc (claim_drops st.result.drops)
      → Outcome payload ctx st claim after
  accepted :
      (ds : List Drop) (c : ClaimRecord)
      → after ≡ keep_claim (with_drops st ds) c
      → claim_drops ds ≡ claim_drops st.result.drops
      → c.id ≡ claim.id
      → is_key c.id st.by_id ≡ false
      → IsLoadable payload ctx c
      → Outcome payload ctx st claim after
