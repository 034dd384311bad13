-- ===== src/Validate/Claims.antt =====
-- `mapClaims` of extract/validate.go.
pub mod Outcome
pub mod Round
pub mod Laws
use fact_checker.Base.{
  List, [], ◌∷◌, ◌++◌, Str, codes, not, ◌&&◌, ◌||◌, ◌==◌, has, insert, is_key, length, take, leb,
  eqb, if◌then◌else◌,
}
use fact_checker.Extract.{Citation}
use fact_checker.Wire.Types.{WireVersion, WireClaim, WireExtraction}
use fact_checker.Validate.Types.{
  Drop, ContradictionEntry, EntityRecord, ClaimVersionRecord, ClaimRecord, Validated,
  ValidationContext, is_slug, needs_versions, add_drop, log_drop, resolve_entity,
}
use fact_checker.Validate.Citations.{Allowed, filter_citations, citation_reason}

-- The variables of the loop over the claims.
pub record ClaimLoop : Type 0 where
  pub by_id : List (Str × ClaimRecord)
  pub result : Validated

-- The register row of a contested claim. A title longer than 120 bytes is cut.
unfoldable pub contradiction_entry : ClaimRecord → ContradictionEntry
contradiction_entry kept = record {
  id = kept.id ++ codes "-tradition";
  title = if leb (length kept.statement) 120 then kept.statement else take 120 kept.statement;
  description =
      codes
        "Auto-registered at extraction: traditions diverge on this claim; per-tradition versions preserved, never auto-resolved.";
  claim_id = kept.id;
}

-- The records that a kept claim is appended to.
pub keep_claim : ClaimLoop → ClaimRecord → ClaimLoop
unfolding contradiction_entry
keep_claim st kept =
    let claims = st.result.claims ++ kept ∷ [] in
    record {
      by_id = insert kept.id kept st.by_id;
      result =
          if needs_versions kept.confidence
          then record (st.result) {
            claims = claims;
            contradictions = st.result.contradictions ++ contradiction_entry kept ∷ [];
          }
          else record (st.result) { claims = claims };
    }

-- The loop over the two entity references: the first that does not resolve.
dangling_ref : List (Str × EntityRecord) → ValidationContext → List (Str × Str) → Str
dangling_ref payload ctx [] = []
dangling_ref payload ctx ((id, label) ∷ refs) =
    if not (id == []) && not (resolve_entity id payload ctx)
    then codes "dangling " ++ label ++ codes " entity ref '" ++ id ++ codes "'"
    else dangling_ref payload ctx refs

module _ (allowed : Allowed) (ctx : ValidationContext) where
  abbrev reason_of : List Citation → Str
  reason_of citations = citation_reason citations ctx.unit.policy ctx.unit.reference.source_id

  -- The body of the loop over the versions of a claim.
  version_round :
      Str → List ClaimVersionRecord × List Drop → WireVersion → List ClaimVersionRecord × List Drop
  version_round id (versions, drops) version =
      let name = id ++ codes "#" ++ version.label in
      let (citations, drops') =
        filter_citations version.sources allowed drops (codes "claim:" ++ name) in
      if not (reason_of citations == [])
      then (versions, add_drop drops' (codes "version") name (reason_of citations))
      else (
        versions
            ++ (record {
              label = version.label;
              statement = version.statement;
              sources = citations;
            })
              ∷ [],
        drops',
      )

  version_loop :
      Str
      → List ClaimVersionRecord × List Drop
      → List WireVersion
      → List ClaimVersionRecord × List Drop
  unfolding version_round
  version_loop id st [] = st
  version_loop id st (v ∷ vs) = version_loop id (version_round id st v) vs

  -- The end of the loop's body: the claim is logged with its reason, or kept.
  settle_claim :
      Str → ClaimLoop → WireClaim → List Citation → List ClaimVersionRecord → Str → ClaimLoop
  unfolding keep_claim
  settle_claim object_value st claim citations versions reason =
      if not (reason == [])
      then record st { result = log_drop st.result (codes "claim") claim.id reason }
      else keep_claim st (record {
        id = claim.id;
        statement = claim.statement;
        confidence = claim.confidence;
        subject_entity_id = claim.subject_entity_id;
        predicate = claim.predicate;
        object_entity_id = claim.object_entity_id;
        object_value = object_value;
        versions = versions;
        sources = citations;
      })

  -- A contested claim with no version that is left has a reason of its own.
  version_reason : Str → WireClaim → List ClaimVersionRecord → Str
  version_reason reason claim versions =
      if reason == [] && (needs_versions claim.confidence && eqb (length versions) 0)
      then codes "contested_without_versions"
      else reason

  -- From the citations on: the reason, and the versions if the claim itself is cited.
  cite_claim : Str → ClaimLoop → WireClaim → ClaimLoop
  unfolding version_loop version_reason settle_claim
  cite_claim object_value st claim =
      let (citations, drops) =
        filter_citations claim.sources allowed st.result.drops (codes "claim:" ++ claim.id) in
      let reason = reason_of citations in
      let (versions, drops') =
        if reason == [] then version_loop claim.id ([], drops) claim.versions else ([], drops) in
      settle_claim object_value (record st { result = record (st.result) { drops = drops' } }) claim
        citations versions (version_reason reason claim versions)

  -- An object entity wins over an object value.
  choose_object : WireClaim → List Drop → Str × List Drop
  choose_object claim drops =
      if not (claim.object_entity_id == []) && not (claim.object_value == [])
      then (
        [],
        add_drop drops (codes "claim_field") claim.id
            (codes "both object_entity_id and object_value; kept entity"),
      )
      else (claim.object_value, drops)

  -- From the object value on: the two entity references have to resolve.
  refer_claim : List (Str × EntityRecord) → ClaimLoop → WireClaim → ClaimLoop
  unfolding choose_object dangling_ref cite_claim
  refer_claim payload st claim =
      let (object_value, drops) = choose_object claim st.result.drops in
      let result = record (st.result) { drops = drops } in
      let dangling = dangling_ref payload ctx (
        (claim.subject_entity_id, codes "subject")
        ∷ (claim.object_entity_id, codes "object")
        ∷ []) in
      if not (dangling == [])
      then record st { result = log_drop result (codes "claim") claim.id dangling }
      else cite_claim object_value (record st { result = result }) claim

  unfoldable pub claim_round : List (Str × EntityRecord) → ClaimLoop → WireClaim → ClaimLoop
  unfolding refer_claim
  claim_round payload st claim =
      if not (is_slug claim.id)
      then record st {
        result =
            log_drop st.result (codes "claim") claim.id (codes "invalid id (use lowercase slugs)");
      }
      else if is_key claim.id st.by_id || has ctx.db_claim_ids claim.id
      then record st {
        result =
            log_drop st.result (codes "claim") claim.id
              (codes "duplicate or already-known claim id (merged)");
      }
      else refer_claim payload st claim

  claim_loop : List (Str × EntityRecord) → ClaimLoop → List WireClaim → ClaimLoop
  claim_loop payload st [] = st
  claim_loop payload st (claim ∷ claims) = claim_loop payload (claim_round payload st claim) claims

unfoldable pub map_claims :
    WireExtraction → Allowed → List (Str × EntityRecord) → ValidationContext → Validated → ClaimLoop
unfolding claim_loop
map_claims wire allowed payload ctx result =
    claim_loop allowed ctx payload (record { by_id = []; result = result }) wire.claims
