-- ===== src/Wire/Parse.antt =====
-- `salvageList` and `ParseExtraction` of extract/wire.go. encoding/json and the verb %q of fmt are
-- parameters. `print` stands for the verb %d.
pub mod Laws
use fact_checker.Base.{
  ℕ, suc, List, [], ◌∷◌, ◌++◌, Str, codes, ◌==◌, ◌||◌, is_empty, Option, none, some, Result, ok,
  err, ◌>>=◌, if◌then◌else◌,
}
use fact_checker.Wire.Types.{WireEntity, WireEvent, WireClaim, WireRelationship, WireExtraction}
use fact_checker.Wire.Required.{entity_problem, event_problem, claim_problem, relationship_problem}
use fact_checker.Wire.Block.{json_block}
use fact_checker.Wire.Block.Trim.{trim_space}

-- The records kept and the problems, both in order.
pub record Salvage (T : Type 0) : Type 0 where
  pub items : List T
  pub problems : List Str

-- What encoding/json does with an untyped text. The decoders of records refuse unknown fields.
pub record Json : Type 0 where
  pub decode_list : Str → Option (List Str)
  pub decode_fields : Str → Result (List (Str × Str))
  pub decode_entity : Str → Result WireEntity
  pub decode_event : Str → Result WireEvent
  pub decode_claim : Str → Result WireClaim
  pub decode_relationship : Str → Result WireRelationship

-- The tests on one record.
unfoldable pub check_record : {T : Type 0} → (Str → Result T) → (T → Str) → Str → Result T
check_record decode problem item =
    decode item >>= λ t. if problem t == [] then ok t else err (problem t)

module _ (print : ℕ → Str) where
  -- The prefix of a problem with one record.
  abbrev at_index : Str → ℕ → Str
  at_index kind i = kind ++ codes "[" ++ print i ++ codes "]: "

  unfoldable pub keep_record : {T : Type 0} → Str → ℕ → Result T → Salvage T → Salvage T
  keep_record kind i (ok record_) s = record {
    items = s.items ++ record_ ∷ [];
    problems = s.problems;
  }
  keep_record kind i (err e) s = record {
    items = s.items;
    problems = s.problems ++ (at_index kind i ++ e) ∷ [];
  }

  module _ {T : Type 0} (decode : Str → Result T) (problem : T → Str) where
    -- The loop over the array, from the index `i`.
    unfoldable pub salvage_loop : Str → ℕ → List Str → Salvage T → Salvage T
    unfolding check_record keep_record
    salvage_loop kind i [] s = s
    salvage_loop kind i (item ∷ arr) s =
        salvage_loop kind (suc i) arr (keep_record kind i (check_record decode problem item) s)

    unfoldable pub salvage_array : Str → Option (List Str) → List Str → Salvage T
    unfolding salvage_loop
    salvage_array kind none problems = record {
      items = [];
      problems = problems ++ (kind ++ codes ": not a list; skipped") ∷ [];
    }
    salvage_array kind (some arr) problems =
        salvage_loop kind 0 arr (record { items = []; problems = problems })

    unfoldable pub salvage_list : (Str → Option (List Str)) → Str → Str → List Str → Salvage T
    unfolding salvage_array
    salvage_list decode_list kind raw problems =
        if is_empty raw || trim_space raw == codes "null"
        then record { items = []; problems = problems }
        else salvage_array kind (decode_list raw) problems

-- A field of the object; a missing one is nil.
abbrev raw_field : List (Str × Str) → Str → Str
raw_field [] key = []
raw_field ((k, v) ∷ raw) key = if k == key then v else raw_field raw key

-- The decoder's error gets its prefix.
abbrev read_object {ℓ} : {A : Type ℓ} → Result A → Result A
read_object (ok raw) = ok raw
read_object (err e) = err (codes "invalid JSON: " ++ e)

module _ (json : Json) (print : ℕ → Str) (quote : Str → Str) where
  -- The four lists, whose problems go on in one list.
  unfoldable pub salvage_all : List (Str × Str) → WireExtraction × List Str
  unfolding salvage_list
  salvage_all raw =
      let entities =
        salvage_list print json.decode_entity entity_problem json.decode_list (codes "entities")
          (raw_field raw (codes "entities")) [] in
      let events =
        salvage_list print json.decode_event event_problem json.decode_list (codes "events")
          (raw_field raw (codes "events")) entities.problems in
      let claims =
        salvage_list print json.decode_claim (claim_problem quote) json.decode_list (codes "claims")
          (raw_field raw (codes "claims")) events.problems in
      let relationships =
        salvage_list print json.decode_relationship relationship_problem json.decode_list
          (codes "relationships") (raw_field raw (codes "relationships")) claims.problems in
      (
        record {
          entities = entities.items;
          events = events.items;
          claims = claims.items;
          relationships = relationships.items;
        },
        relationships.problems,
      )

  unfoldable pub parse_extraction : Str → Result (WireExtraction × List Str)
  unfolding salvage_all
  parse_extraction text = json_block text >>= λ block.
      read_object (json.decode_fields block) >>= λ raw. ok (salvage_all raw)
