-- ===== src/Tests/Replies.antt =====
-- The reading of a model reply, at small replies and with a decoder of fixed answers.
use fact_checker.Base.{
  ℕ, ◌+◌, List, [], ◌∷◌, ◌++◌, All, length, ◌≡◌, refl, Str, codes, is_empty, false, ◌||◌, ◌==◌,
  Option, some, Result, ok, err,
}
use fact_checker.Wire.Types.{WireEntity, WireExtraction}
use fact_checker.Wire.Required.{entity_problem}
use fact_checker.Wire.Block.{
  index_byte, last_index_byte, split_from, split_fences, first_fence, unfence, cut_object,
  json_block,
}
use fact_checker.Wire.Block.Trim.{strip, trim_right, trim_space}
use fact_checker.Wire.Block.Laws.{IsPart, json_block_lem}
use fact_checker.Wire.Parse.{
  Json, salvage_list, salvage_array, salvage_loop, keep_record, check_record, salvage_all,
  parse_extraction,
}
use fact_checker.Wire.Parse.Laws.{good, IsFine, salvage_list-exact, parse_extraction-IsFine}

-- A reply with prose before the object.
abbrev reply : Str
reply = codes "Here: {\"a\": {}} done"

json_block-reply : json_block reply ≡ ok (codes "{\"a\": {}}")
unfolding json_block unfence split_fences split_from first_fence cut_object index_byte
    last_index_byte trim_space trim_right strip
json_block-reply = refl

json_block_lem_example :
    IsPart (codes "{\"a\": {}}") reply
    × ((mid : Str) × (codes "{\"a\": {}}" ≡ b'{' ∷ (mid ++ b'}' ∷ [])))
json_block_lem_example = json_block_lem reply json_block-reply

abbrev print : ℕ → Str
print n = n ∷ []

abbrev entity : Str → WireEntity
entity id = record {
  id = id;
  kind = codes "person";
  canonical_name = codes "Galadriel";
  names = [];
  attributes = [];
}

-- Two elements, of which the second has no id.
abbrev array : List Str
array = codes "g" ∷ [] ∷ []

abbrev decode : Str → Result WireEntity
decode t = ok (entity t)

abbrev decode_list : Str → Option (List Str)
decode_list raw = some array

abbrev raw_list : Str
raw_list = codes "[{}]"

is_list : (is_empty raw_list || trim_space raw_list == codes "null") ≡ false
unfolding trim_space trim_right strip ◌==◌
is_list = refl

salvage_list-exact_example :
    let s = salvage_list print decode entity_problem decode_list (codes "entities") raw_list [] in
    (s.items ≡ good print decode entity_problem array)
    × (length s.items + length s.problems ≡ 0 + 2)
    × All (λ (e : WireEntity). entity_problem e ≡ []) s.items
salvage_list-exact_example =
    salvage_list-exact print decode entity_problem decode_list (codes "entities") raw_list [] array
      is_list refl

abbrev json : Json
json = record {
  decode_list = decode_list;
  decode_fields = λ block. ok ((codes "entities", raw_list) ∷ []);
  decode_entity = decode;
  decode_event = λ t. err (codes "no event");
  decode_claim = λ t. err (codes "no claim");
  decode_relationship = λ t. err (codes "no relationship");
}

abbrev wire : WireExtraction
wire = record { entities = entity (codes "g") ∷ []; events = []; claims = []; relationships = [] }

abbrev problems : List Str
problems = (codes "entities[" ++ 1 ∷ codes "]: id is required") ∷ []

parse_extraction-reply : parse_extraction json print (λ s. s) reply ≡ ok (wire, problems)
unfolding parse_extraction salvage_all salvage_list salvage_array salvage_loop keep_record
    check_record entity_problem json_block unfence split_fences split_from first_fence cut_object
    index_byte last_index_byte trim_space trim_right strip ◌==◌
parse_extraction-reply = refl

parse_extraction-IsFine_example : ((block : Str) × (json_block reply ≡ ok block)) × IsFine wire
parse_extraction-IsFine_example =
    parse_extraction-IsFine json print (λ s. s) reply wire problems parse_extraction-reply
