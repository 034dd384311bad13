-- ===== src/Wire/Parse/Laws.antt =====
-- `salvageList`: what is kept, what is reported, and that nothing else happens.
use fact_checker.Base.{
  All-map, ℕ, suc, ◌+◌, List, [], ◌∷◌, ◌++◌, Str, codes, Bool, true, false, ◌==◌, ==_sound,
  Bool-cases, append_assoc, append-nil, Option, some, Result, ok, err, ◌>>=◌, if◌then◌else◌, length,
  length-snoc, All, All-snoc, ◌≡◌, refl, subst, Option-cases, is_empty, ◌||◌, >>=-eq-ok, arith, inl,
  inr, sym, ◌∙◌,
}
use fact_checker.Wire.Types.{WireExtraction}
use fact_checker.Wire.Required.Laws.{
  IsEntity, IsEvent, IsClaim, IsRelationship, entity_problem-IsEntity, event_problem-IsEvent,
  claim_problem-IsClaim, relationship_problem-IsRelationship,
}
use fact_checker.Wire.Required.{entity_problem, event_problem, claim_problem, relationship_problem}
use fact_checker.Wire.Block.Trim.{trim_space}
use fact_checker.Wire.Block.{json_block}
use fact_checker.Wire.Parse.{
  Salvage, Json, at_index, check_record, keep_record, salvage_loop, salvage_array, salvage_list,
  salvage_all, parse_extraction, read_object,
}

-- One more record, unless it failed.
abbrev or_skip {ℓ} : {T : Type ℓ} → Result T → List T → List T
or_skip (ok t) ts = t ∷ ts
or_skip (err e) ts = ts

module _ (print : ℕ → Str) {T : Type 0} (decode : Str → Result T) (problem : T → Str) where
  -- The records of an array that pass, in its order.
  unfoldable pub good : List Str → List T
  unfolding check_record
  good [] = []
  good (item ∷ arr) = or_skip (check_record decode problem item) (good arr)

  -- A record that passes the tests has no problem.
  check_record-fine :
      (item : Str) (t : T) → check_record decode problem item ≡ ok t → problem t ≡ []
  unfolding check_record
  check_record-fine item t h = passed (decode item) h
    where
      tested :
          (b : Bool) (u : T)
          → (problem u == []) ≡ b
          → (if b then ok u else err (problem u)) ≡ ok t
          → problem t ≡ []
      tested true u e k =
          subst (λ v. problem v ≡ []) (ground (arith, k)) (==_sound (problem u) [] e)
      tested false u e k = cc

      passed :
          (m : Result T)
          → (m >>= λ u. if problem u == [] then ok u else err (problem u)) ≡ ok t
          → problem t ≡ []
      passed (ok u) k = tested (problem u == []) u refl k
      passed (err e) k = cc

  -- What the loop adds to the records and to the problems it starts with.
  pub record Salvaged (arr : List Str) (s t : Salvage T) : Type 0 where
    pub items_kept : t.items ≡ s.items ++ good arr
    pub all_counted :
        length t.items + length t.problems ≡ length s.items + (length s.problems + length arr)
    pub all_fine : All (λ (r : T). problem r ≡ []) s.items → All (λ (r : T). problem r ≡ []) t.items

  -- One round, and the rest of the loop.
  Salvaged-cons :
      (kind : Str) (i : ℕ) (item : Str) (arr : List Str) (s t : Salvage T) (m : Result T)
      → check_record decode problem item ≡ m
      → Salvaged arr (keep_record print kind i m s) t
      → Salvaged (item ∷ arr) s t
  unfolding keep_record good
  Salvaged-cons kind i item arr s t (ok r) e h = record {
    items_kept = h.items_kept ∙ rw e (append_assoc s.items (r ∷ []) (good arr));
    all_counted = omega (arith, h.all_counted, length-snoc s.items r);
    all_fine = λ fine. h.all_fine (All-snoc _ s.items r fine (check_record-fine item r e));
  }
  Salvaged-cons kind i item arr s t (err p) e h = record {
    items_kept = h.items_kept ∙ rw e refl;
    all_counted = omega (arith, h.all_counted, length-snoc s.problems (at_index print kind i ++ p));
    all_fine = h.all_fine;
  }

  salvage_loop-Salvaged :
      (kind : Str) (i : ℕ) (arr : List Str) (s : Salvage T)
      → Salvaged arr s (salvage_loop print decode problem kind i arr s)
  unfolding salvage_loop good
  salvage_loop-Salvaged kind i [] s = record {
    items_kept = sym (append-nil s.items);
    all_counted = omega arith;
    all_fine = λ h. h;
  }
  salvage_loop-Salvaged kind i (item ∷ arr) s =
      Salvaged-cons kind i item arr s _ (check_record decode problem item) refl (
        salvage_loop-Salvaged kind (suc i) arr
          (keep_record print kind i (check_record decode problem item) s))

  -- A text that decodes to an array keeps exactly the records that decode and have what they
  -- must have, in order. Each other record is one more problem, so that the records kept and the
  -- problems added are as many as the array has elements. Every record kept has its fields.
  pub salvage_list-exact :
      (decode_list : Str → Option (List Str)) (kind raw : Str) (problems arr : List Str)
      → (is_empty raw || trim_space raw == codes "null") ≡ false
      → decode_list raw ≡ some arr
      → let s = salvage_list print decode problem decode_list kind raw problems in
        (s.items ≡ good arr)
        × (length s.items + length s.problems ≡ length problems + length arr)
        × All (λ (r : T). problem r ≡ []) s.items
  unfolding salvage_list salvage_array
  salvage_list-exact decode_list kind raw problems arr given decoded =
      let done = salvage_loop-Salvaged kind 0 arr (record { items = []; problems = problems }) in
      rw (given, decoded) (done.items_kept, omega (arith, done.all_counted), done.all_fine tt)

  -- Whatever the text, every record kept has its fields.
  salvage_list-fine :
      (decode_list : Str → Option (List Str)) (kind raw : Str) (problems : List Str)
      → All
          (λ (r : T). problem r ≡ [])
          (salvage_list print decode problem decode_list kind raw problems).items
  unfolding salvage_list salvage_array
  salvage_list-fine decode_list kind raw problems =
      elim (Bool-cases (is_empty raw || trim_space raw == codes "null")) [
        | inl e ↦ rw e tt
        | inr e ↦ elim (Option-cases (decode_list raw)) [
          | inl u ↦ rw (e, u) tt
          | inr (arr, u) ↦ (salvage_list-exact decode_list kind raw problems arr e u).2
        ]
      ]

-- Each record has what its kind must have.
abbrev pub IsFine : WireExtraction → Type 0
IsFine wire =
    All IsEntity wire.entities
    × All IsEvent wire.events
    × All IsClaim wire.claims
    × All IsRelationship wire.relationships

salvage_all-IsFine :
    (json : Json) (print : ℕ → Str) (quote : Str → Str) (raw : List (Str × Str))
    → IsFine (salvage_all json print quote raw).0
unfolding salvage_all
salvage_all-IsFine json print quote raw = (
  All-map _ _ entity_problem-IsEntity _ (
      salvage_list-fine print json.decode_entity entity_problem json.decode_list (codes "entities")
        _ _),
  All-map _ _ event_problem-IsEvent _ (
      salvage_list-fine print json.decode_event event_problem json.decode_list (codes "events") _
        _),
  All-map _ _ (claim_problem-IsClaim quote) _ (
      salvage_list-fine print json.decode_claim (claim_problem quote) json.decode_list
        (codes "claims") _ _),
  All-map _ _ relationship_problem-IsRelationship _ (
      salvage_list-fine print json.decode_relationship relationship_problem json.decode_list
        (codes "relationships") _ _),
)

-- A reply that parses has a block that `json_block` finds. Whatever the model wrote and whatever
-- the decoder makes of it: every entity of the extraction has an id, a kind and a canonical name,
-- every event an id and a summary, every claim an id, a statement and one of the four confidences,
-- every version of it a label and a statement, and every relationship two ids and a type, none of
-- them empty; and each citation of these names a source.
pub parse_extraction-IsFine :
    (json : Json) (print : ℕ → Str) (quote : Str → Str) (text : Str) (wire : WireExtraction)
    (problems : List Str)
    → parse_extraction json print quote text ≡ ok (wire, problems)
    → ((block : Str) × (json_block text ≡ ok block)) × IsFine wire
unfolding parse_extraction
parse_extraction-IsFine json print quote text wire problems h =
    let (block, found, more) = >>=-eq-ok (json_block text) _ h in
    let (raw, read, result) = >>=-eq-ok (read_object (json.decode_fields block)) _ more in
    let same : (salvage_all json print quote raw).0 ≡ wire = ground (arith, result) in
    ((block, found), subst IsFine same (salvage_all-IsFine json print quote raw))
