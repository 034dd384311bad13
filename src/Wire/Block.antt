-- ===== src/Wire/Block.antt =====
-- `JSONBlock` of extract/wire.go, with the functions of `strings` that it calls.
pub mod Trim
mod Found
pub mod Laws
use fact_checker.Base.{
  ℕ, suc, ◌+◌, ◌-◌, List, [], ◌∷◌, ◌++◌, Bool, Str, codes, ◌==◌, ◌&&◌, leb, eqb, length, take, drop,
  Option, none, some, Result, ok, err, if◌then◌else◌,
}
use fact_checker.Wire.Block.Trim.{trim_space}

-- strings.IndexByte and strings.LastIndexByte; `none` is -1.
abbrev raise : Option ℕ → Option ℕ
raise none = none
raise (some i) = some (suc i)

unfoldable pub index_byte : Str → ℕ → Option ℕ
index_byte [] c = none
index_byte (x ∷ s) c = let rest = index_byte s c in if eqb x c then some 0 else raise rest

abbrev or_here : Bool → Option ℕ → Option ℕ
or_here here none = if here then some 0 else none
or_here here (some i) = some (suc i)

unfoldable pub last_index_byte : Str → ℕ → Option ℕ
last_index_byte [] c = none
last_index_byte (x ∷ s) c = or_here (eqb x c) (last_index_byte s c)

-- strings.Split(s, "```"): the current part, and the bytes to come.
unfoldable pub split_from : Str → Str → List Str
split_from cur (a ∷ b ∷ c ∷ s) =
    let split = cur ∷ split_from [] s in
    let go_on = split_from (cur ++ a ∷ []) (b ∷ c ∷ s) in
    if eqb a b'`' && eqb b b'`' && eqb c b'`' then split else go_on
split_from cur s = (cur ++ s) ∷ []

unfoldable pub split_fences : Str → List Str
unfolding split_from
split_fences s = split_from [] s

-- All parts but the first and the last.
abbrev without_last : List Str → List Str
without_last [] = []
without_last (x ∷ []) = []
without_last (x ∷ y ∷ xs) = x ∷ without_last (y ∷ xs)

abbrev inner_parts : List Str → List Str
inner_parts [] = []
inner_parts (x ∷ xs) = without_last xs

-- A fence without its first line, if it has more than one.
abbrev after_line : Str → Option ℕ → Str
after_line inner none = inner
after_line inner (some i) = trim_space (drop (i + 1) inner)

-- The loop over the fences: the content of the first that is not blank.
unfoldable pub first_fence : Str → List Str → Str
first_fence stripped [] = stripped
first_fence stripped (fence ∷ fences) =
    let inner = trim_space fence in
    if inner == [] then first_fence stripped fences else after_line inner (index_byte inner 10)

unfoldable pub unfence : Str → Str
unfolding split_fences first_fence
unfence stripped =
    let fences = split_fences stripped in
    if leb 3 (length fences) then first_fence stripped (inner_parts fences) else stripped

-- From the first `{` up to the last `}`.
unfoldable pub cut_object : Str → Option ℕ → Option ℕ → Result Str
cut_object s (some start) (some end) =
    if leb end start
    then err (codes "response contains no JSON object")
    else ok (take (suc (end - start)) (drop start s))
cut_object s _ _ = err (codes "response contains no JSON object")

unfoldable pub json_block : Str → Result Str
unfolding unfence index_byte last_index_byte cut_object
json_block content =
    let s = unfence (trim_space content) in
    cut_object s (index_byte s b'{') (last_index_byte s b'}')
