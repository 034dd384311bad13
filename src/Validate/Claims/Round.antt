-- ===== src/Validate/Claims/Round.antt =====
-- What one round of the loop of `map_claims` does: it logs one entry of the kind "claim", or it
-- keeps a claim that may be loaded.
use fact_checker.Base.{
  suc, List, [], ◌∷◌, ◌++◌, ◌≡◌, ◌≢◌, ◌⊎◌, inl, inr, refl, ◌∙◌, Bool, true, false, ◌||◌, Str, codes,
  ◌==◌, ==_iff, ==_sound, ==_refl, ap, has, is_key, All, All-snoc, arith, Bool-cases, ||-false,
  if◌then◌else◌,
}
use fact_checker.Extract.{Citation}
use fact_checker.Wire.Types.{WireVersion, WireClaim}
use fact_checker.Validate.Types.{
  Drop, EntityRecord, ClaimVersionRecord, ValidationContext, is_slug, needs_versions, add_drop,
  resolve_entity,
}
use fact_checker.Validate.Citations.{Allowed, citeable_sources, filter_citations}
use fact_checker.Validate.Citations.Reason.{IsCited, filter_citations-IsCited}
use fact_checker.Validate.Drops.{count_kind-add_drop, count_kind-filter_citations}
use fact_checker.Validate.Claims.{
  ClaimLoop, settle_claim, version_reason, choose_object, dangling_ref, reason_of, version_round,
  version_loop, cite_claim, refer_claim, claim_round,
}
use fact_checker.Validate.Claims.Outcome.{
  claim_kind, claim_drops, with_drops, Outcome, rejected, accepted,
}

module _ (ctx : ValidationContext) where
  abbrev allowed : Allowed
  allowed = citeable_sources ctx.unit

  abbrev VersionsCited : List ClaimVersionRecord → Type 0
  VersionsCited vs = All (λ (v : ClaimVersionRecord). IsCited ctx.unit v.sources) vs

  version_round-cited :
      (id : Str) (vs : List ClaimVersionRecord) (ds : List Drop) (v : WireVersion)
      → VersionsCited vs
      → VersionsCited (version_round allowed ctx id (vs, ds) v).0
  unfolding version_round
  version_round-cited id vs ds v h =
      let name = codes "claim:" ++ (id ++ codes "#" ++ v.label) in
      let cs = (filter_citations v.sources allowed ds name).0 in
      elim (Bool-cases (reason_of allowed ctx cs == [])) [
        | inl e ↦ rw e (
            All-snoc _ vs _ h
              (filter_citations-IsCited ctx.unit v.sources ds name (==_sound _ [] e)))
        | inr e ↦ rw e h
      ]

  version_round-drops :
      (id : Str) (vs : List ClaimVersionRecord) (ds : List Drop) (v : WireVersion)
      → claim_drops (version_round allowed ctx id (vs, ds) v).1 ≡ claim_drops ds
  unfolding version_round
  version_round-drops id vs ds v =
      let name = id ++ codes "#" ++ v.label in
      let (cs, ds') = filter_citations v.sources allowed ds (codes "claim:" ++ name) in
      ground (
        arith,
        count_kind-filter_citations claim_kind v.sources allowed ds (codes "claim:" ++ name)
            (unfold ◌==◌ in refl),
        count_kind-add_drop claim_kind ds' (codes "version") name (reason_of allowed ctx cs),
        version_kind,
      )
    where
      version_kind : (codes "version" == claim_kind) ≡ false
      version_kind = unfold ◌==◌ in refl

  version_loop_lem :
      (id : Str) (vs : List ClaimVersionRecord) (ds : List Drop) (ws : List WireVersion)
      → VersionsCited vs
      → VersionsCited (version_loop allowed ctx id (vs, ds) ws).0
        × (claim_drops (version_loop allowed ctx id (vs, ds) ws).1 ≡ claim_drops ds)
  unfolding version_loop
  version_loop_lem id vs ds [] h = (h, refl)
  version_loop_lem id vs ds (w ∷ ws) h =
      let (vs', ds') = version_round allowed ctx id (vs, ds) w in
      let (cited, same) = version_loop_lem id vs' ds' ws (version_round-cited id vs ds w h) in
      (cited, same ∙ version_round-drops id vs ds w)

  -- The versions and the log of a claim, when its citations satisfy the contract or not.
  abbrev versions_of : Bool → WireClaim → List Drop → List ClaimVersionRecord × List Drop
  versions_of cited claim ds =
      if cited then version_loop allowed ctx claim.id ([], ds) claim.versions else ([], ds)

  versions_of_lem :
      (cited : Bool) (claim : WireClaim) (ds : List Drop)
      → VersionsCited (versions_of cited claim ds).0
        × (claim_drops (versions_of cited claim ds).1 ≡ claim_drops ds)
  versions_of_lem true claim ds = version_loop_lem claim.id [] ds claim.versions tt
  versions_of_lem false claim ds = (tt, refl)

  -- What `claim_round` has checked when it comes to the citations.
  record IsChecked (payload : List (Str × EntityRecord)) (st : ClaimLoop) (claim : WireClaim)
      (object_value : Str) : Type 0 where
    slug : is_slug claim.id ≡ true
    new : is_key claim.id st.by_id ≡ false
    fresh : has ctx.db_claim_ids claim.id ≡ false
    subject : resolve_entity claim.subject_entity_id payload ctx ≡ true
    object : resolve_entity claim.object_entity_id payload ctx ≡ true
    one_object : (claim.object_entity_id ≡ []) ⊎ (object_value ≡ [])

  settle_claim-Outcome :
      (payload : List (Str × EntityRecord)) (object_value : Str) (st : ClaimLoop)
      (claim : WireClaim) (ds : List Drop) (cs : List Citation) (vs : List ClaimVersionRecord)
      (reason : Str)
      → IsChecked payload st claim object_value
      → claim_drops ds ≡ claim_drops st.result.drops
      → VersionsCited vs
      → (reason ≡ [] → IsCited ctx.unit cs × (needs_versions claim.confidence ≡ true → vs ≢ []))
      → Outcome payload ctx st claim
          (settle_claim allowed ctx object_value (with_drops st ds) claim cs vs reason)
  unfolding settle_claim
  settle_claim-Outcome payload object_value st claim ds cs vs reason ok same vcited good =
      elim (Bool-cases (reason == [])) [
        | inl e ↦
            let (cited, versioned) = good (==_sound reason [] e) in
            rw e (
              accepted ds _ refl same refl ok.new (record {
                slug = ok.slug;
                fresh = ok.fresh;
                cited = cited;
                versions_cited = vcited;
                versioned = versioned;
                subject = ok.subject;
                object = ok.object;
                one_object = ok.one_object;
              }))
        | inr e ↦ rw e (
            rejected (add_drop ds claim_kind claim.id reason) refl (
              count_kind-add_drop claim_kind ds claim_kind claim.id reason
              ∙ unfold ◌==◌ in ap suc same))
      ]

  version_reason-nil :
      (reason : Str) (claim : WireClaim) (vs : List ClaimVersionRecord)
      → version_reason allowed ctx reason claim vs ≡ []
      → (reason ≡ []) × (needs_versions claim.confidence ≡ true → vs ≢ [])
  unfolding version_reason
  version_reason-nil reason claim vs h = ground (arith, ==_refl reason)

  cite_claim-Outcome :
      (payload : List (Str × EntityRecord)) (object_value : Str) (st : ClaimLoop)
      (claim : WireClaim)
      → IsChecked payload st claim object_value
      → Outcome payload ctx st claim (cite_claim allowed ctx object_value st claim)
  unfolding cite_claim
  cite_claim-Outcome payload object_value st claim ok =
      let owner = codes "claim:" ++ claim.id in
      let (cs, ds) = filter_citations claim.sources allowed st.result.drops owner in
      let cited = reason_of allowed ctx cs == [] in
      let (vs, ds') = versions_of cited claim ds in
      let (vcited, same) = versions_of_lem cited claim ds in
      settle_claim-Outcome payload object_value st claim ds' cs vs _ ok
        (same
          ∙ count_kind-filter_citations claim_kind claim.sources allowed st.result.drops owner
              (unfold ◌==◌ in refl))
        vcited
        λ e.
          let (r, v) = version_reason-nil _ claim vs e in
          (filter_citations-IsCited ctx.unit claim.sources st.result.drops owner r, v)

  dangling_ref_lem :
      (payload : List (Str × EntityRecord)) (id₁ label₁ id₂ label₂ : Str)
      → dangling_ref payload ctx ((id₁, label₁) ∷ (id₂, label₂) ∷ []) ≡ []
      → (resolve_entity id₁ payload ctx ≡ true) × (resolve_entity id₂ payload ctx ≡ true)
  unfolding dangling_ref resolve_entity
  dangling_ref_lem payload id₁ label₁ id₂ label₂ h = ground arith

  Outcome_of_with_drops :
      (payload : List (Str × EntityRecord)) (st : ClaimLoop) (claim : WireClaim) (ds : List Drop)
      {after : ClaimLoop}
      → claim_drops ds ≡ claim_drops st.result.drops
      → Outcome payload ctx (with_drops st ds) claim after
      → Outcome payload ctx st claim after
  Outcome_of_with_drops payload st claim ds same (rejected ds' e n) =
      rejected ds' e (n ∙ ap suc same)
  Outcome_of_with_drops payload st claim ds same (accepted ds' c e n i k l) =
      accepted ds' c e (n ∙ same) i k l

  choose_object_lem :
      (claim : WireClaim) (ds : List Drop)
      → let (object_value, ds') = choose_object allowed ctx claim ds in
        ((claim.object_entity_id ≡ []) ⊎ (object_value ≡ [])) × (claim_drops ds' ≡ claim_drops ds)
  unfolding choose_object
  choose_object_lem claim ds = ground (
    arith,
    ==_iff claim.object_entity_id [],
    ==_iff claim.object_value [],
    count_kind-add_drop claim_kind ds (codes "claim_field") claim.id
        (codes "both object_entity_id and object_value; kept entity"),
    field_kind,
  )
    where
      field_kind : (codes "claim_field" == claim_kind) ≡ false
      field_kind = unfold ◌==◌ in refl

  refer_claim-Outcome :
      (payload : List (Str × EntityRecord)) (st : ClaimLoop) (claim : WireClaim)
      → is_slug claim.id ≡ true
      → is_key claim.id st.by_id ≡ false
      → has ctx.db_claim_ids claim.id ≡ false
      → Outcome payload ctx st claim (refer_claim allowed ctx payload st claim)
  unfolding refer_claim
  refer_claim-Outcome payload st claim slug new fresh =
      let (object_value, ds) = choose_object allowed ctx claim st.result.drops in
      let (one_object, same) = choose_object_lem claim st.result.drops in
      let dangling = dangling_ref payload ctx (
        (claim.subject_entity_id, codes "subject")
        ∷ (claim.object_entity_id, codes "object")
        ∷ []) in
      elim (Bool-cases (dangling == [])) [
        | inl e ↦
            let (subject, object) =
              dangling_ref_lem payload _ (codes "subject") _ (codes "object")
                (==_sound dangling [] e) in
            rw e (
              Outcome_of_with_drops payload st claim ds same (
                cite_claim-Outcome payload object_value (with_drops st ds) claim (record {
                  slug = slug;
                  new = new;
                  fresh = fresh;
                  subject = subject;
                  object = object;
                  one_object = one_object;
                })))
        | inr e ↦ rw e (
            rejected (add_drop ds claim_kind claim.id dangling) refl (
              count_kind-add_drop claim_kind ds claim_kind claim.id dangling
              ∙ unfold ◌==◌ in ap suc same))
      ]

  rejected_as :
      (payload : List (Str × EntityRecord)) (st : ClaimLoop) (claim : WireClaim) (reason : Str)
      → Outcome payload ctx st claim
          (with_drops st (add_drop st.result.drops claim_kind claim.id reason))
  rejected_as payload st claim reason =
      rejected (add_drop st.result.drops claim_kind claim.id reason) refl (
        count_kind-add_drop claim_kind st.result.drops claim_kind claim.id reason
        ∙ unfold ◌==◌ in refl)

  -- Each round rejects its claim with one entry of the log, or keeps it.
  pub claim_round-Outcome :
      (payload : List (Str × EntityRecord)) (st : ClaimLoop) (claim : WireClaim)
      → Outcome payload ctx st claim (claim_round allowed ctx payload st claim)
  unfolding claim_round
  claim_round-Outcome payload st claim = elim (Bool-cases (is_slug claim.id)) [
    | inr bad ↦ rw bad (rejected_as payload st claim _)
    | inl slug ↦ elim (Bool-cases (is_key claim.id st.by_id || has ctx.db_claim_ids claim.id)) [
      | inl dup ↦ rw (slug, dup) (rejected_as payload st claim _)
      | inr new ↦
          let (unseen, fresh) = ||-false _ _ new in
          rw (slug, new) (refer_claim-Outcome payload st claim slug unseen fresh)
    ]
  ]
