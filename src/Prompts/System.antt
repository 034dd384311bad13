-- ===== src/Prompts/System.antt =====
-- `BuildSystemPrompt` of extract/prompts.go, with the contract that it quotes.
use fact_checker.Base.{ℕ, suc, List, [], ◌∷◌, ◌++◌, Str, codes, if◌then◌else◌}
use fact_checker.Extract.{CitationPolicy, Citation}
use fact_checker.Prompts.{DomainBrief, Verbs, dash, newline, lines, marshalled}

pub wire_contract : Str
wire_contract = lines (
    codes "{"
    ∷ codes "  \"entities\": ["
    ∷ codes "    {\"id\": \"lowercase-slug\", \"kind\": \"adapter-ontology-kind\","
    ∷ codes "     \"canonical_name\": \"Canonical Name\","
    ∷ codes
        "     \"names\": [{\"name\": \"Variant\", \"name_kind\": \"variant|alias|translation|other\", \"language\": \"optional\"}],"
    ∷ codes "     \"attributes\": {}}"
    ∷ codes "  ],"
    ∷ codes "  \"events\": ["
    ∷ codes "    {\"id\": \"lowercase-slug\", \"kind\": \"adapter-ontology-kind\","
    ∷ codes
        "     \"summary\": \"one-sentence summary\", \"description\": \"short factual description or null\","
    ∷ codes "     \"dating\": {\"any adapter-defined dating fields, e.g. label\": \"...\"},"
    ∷ codes "     \"location_entity_id\": \"entity-id-or-null\","
    ∷ codes "     \"participants\": {\"entity-id\": \"role\"},"
    ∷ codes "     \"causes\": [\"id-of-an-earlier-event\"],"
    ∷ codes "     \"consequences\": [\"id-of-a-later-event\"],"
    ∷ codes "     \"sources\": [CITATION, ...]}"
    ∷ codes "  ],"
    ∷ codes "  \"claims\": ["
    ∷ codes "    {\"id\": \"lowercase-slug\", \"statement\": \"one atomic statement\","
    ∷ codes "     \"confidence\": \"established|derived_probable|contested|abandoned_version\","
    ∷ codes "     \"subject_entity_id\": \"entity-id\", \"predicate\": \"verb-phrase\","
    ∷ codes "     \"object_entity_id\": \"entity-id\", \"object_value\": null,"
    ∷ codes
        "     \"versions\": [{\"label\": \"tradition-label\", \"statement\": \"this tradition's phrasing\","
    ∷ codes "                   \"sources\": [CITATION, ...]}],"
    ∷ codes "     \"sources\": [CITATION, ...]}"
    ∷ codes "  ],"
    ∷ codes "  \"relationships\": ["
    ∷ codes "    {\"from_entity_id\": \"entity-id\", \"to_entity_id\": \"entity-id\","
    ∷ codes
        "     \"rel_type\": \"one-of-the-allowed-types\", \"claim_id\": \"optional-justifying-claim-id\"}"
    ∷ codes "  ]"
    ∷ codes "}"
    ∷ codes "CITATION = {\"source_id\": \"...\", \"locator\": {...}, \"note\": \"optional\"}"
    ∷ [])

-- The rest of the first paragraph, after its first line.
prime_directive : Str
prime_directive = lines (
    []
    ∷ (codes "PRIME DIRECTIVE "
        ++ dash
        ++ codes
            " EXTRACT AND CITE, NEVER DECIDE. You read the provided material and EXTRACT what it says, with citations. You never decide what is true from your own knowledge. Every fact you emit must be stated in or directly implied by the provided document text, and must be attributed to the primary sources listed as underlying it. Facts you know from elsewhere but that the document does not carry are FORBIDDEN. When the document and your knowledge disagree, the document wins or the record is omitted.")
    ∷ []
    ∷ [])

-- The part between the numbered rules and the contract.
instructions : Str
instructions = lines (
    codes "CONFIDENCE (claims only):"
    ∷ codes "- established: stated plainly by the primary tradition."
    ∷ codes "- derived_probable: inferred, e.g. the document synthesizes a dating or order."
    ∷ codes
        "- contested: the traditions disagree. Give per-tradition \"versions\", each with its own label, phrasing, and citations. Never pick a winner."
    ∷ codes
        "- abandoned_version: a version the sources later abandoned. Always pair it with the version that replaced it (as its own claim or a version)."
    ∷ []
    ∷ codes "ENTITY RULES:"
    ∷ codes
        "- Entities are the graph nodes of this domain (the kinds are listed in the task message or the candidate context)."
    ∷ codes
        "- ids are stable lowercase slugs (lowercase letters, digits, hyphens/underscores only), unique within your output; reuse an id for the same entity, never mint two ids for one entity."
    ∷ codes
        "- Only emit entities that your claims/events/relationships actually reference, plus those the document centrally documents."
    ∷ codes "- relationship rel_type MUST be one of the allowed types listed in the task message."
    ∷ []
    ∷ codes "RECORD HYGIENE:"
    ∷ codes "- Claims are ATOMIC: one fact each, no compound statements."
    ∷ (codes "- statements/summaries are your own factual phrasing of what the document says "
        ++ dash
        ++ codes " never copy sentences from it wholesale.")
    ∷ codes
        "- Cross-references (participants, causes, consequences, subject/object entity ids, claim_id, location) must reference ids defined in this same output or already-known ids given in the task message. Dangling references are dropped."
    ∷ []
    ∷ codes "OUTPUT FORMAT:"
    ∷ (codes "Return ONE JSON object and nothing else "
        ++ dash
        ++ codes " no prose, no markdown fences. Shape:")
    ∷ []
    ∷ [])

module _ (verbs : Verbs) where
  abbrev rule_line : ℕ → Str → Str
  rule_line n rule = verbs.decimal n ++ codes ". " ++ rule ++ newline

  abbrev reference_rule : Citation → Str
  reference_rule reference =
      codes "Every claim and every event MUST cite the reference document itself: {\"source_id\": "
      ++ verbs.quote reference.source_id
      ++ codes ", \"locator\": "
      ++ marshalled (verbs.marshal reference.locator)
      ++ codes "}."

  -- The numbered rules, which begin with those of the policy.
  unfoldable pub citation_rules : CitationPolicy → Citation → List Str
  citation_rules policy reference =
      (if policy.require_reference then reference_rule reference ∷ [] else [])
      ++ ((if policy.require_primary
            then codes
                "Every claim and every event MUST cite at least one PRIMARY source from the candidate list, using that candidate's given locator."
              ∷ []
            else [])
          ++ (codes
                "Omit any claim or event you cannot cite as required. Never invent a citation, never cite a source not in the candidate list."
              ∷ codes "Only cite candidates that actually underlie the statement."
              ∷ []))

  abbrev pub number_from : ℕ → List Str → Str
  number_from n [] = []
  number_from n (rule ∷ rules) = rule_line n rule ++ number_from (suc n) rules

  abbrev domain_lines : List Str → Str
  domain_lines [] = []
  domain_lines (rule ∷ rules) = newline ++ codes "- " ++ rule ++ domain_lines rules

  unfoldable pub build_system_prompt : DomainBrief → CitationPolicy → Citation → Str
  unfolding wire_contract prime_directive instructions citation_rules
  build_system_prompt brief policy reference =
      codes "You are the "
      ++ brief.role
      ++ codes " for "
      ++ brief.name
      ++ codes ": "
      ++ brief.mission
      ++ newline
      ++ prime_directive
      ++ newline
      ++ codes "CITATION RULES (hard requirements "
      ++ dash
      ++ codes " records violating them are discarded):"
      ++ newline
      ++ number_from 1 (citation_rules policy reference)
      ++ newline
      ++ instructions
      ++ wire_contract
      ++ newline
      ++ codes "Empty lists are fine. Emit nothing rather than something uncited."
      ++ domain_lines brief.domain_rules
