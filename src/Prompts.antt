-- ===== src/Prompts.antt =====
-- extract/prompts.go: the prompts of one unit. `%d`, `%q`, json.Marshal and the sorting of package
-- sort are parameters. A line of the prompts is an element of a list.
pub mod System
pub mod User
pub mod Laws
use fact_checker.Base.{ℕ, List, [], ◌∷◌, ◌++◌, Str, Result, ok, err}
use fact_checker.Extract.{AnyMap}

pub record DomainBrief : Type 0 where
  pub name : Str
  pub role : Str
  pub mission : Str
  pub domain_rules : List Str

-- The bytes of two characters that are not ASCII.
abbrev pub dash : Str
dash = 0xe2 ∷ 0x80 ∷ 0x94 ∷ []

abbrev pub ellipsis : Str
ellipsis = 0xe2 ∷ 0x80 ∷ 0xa6 ∷ []

abbrev pub newline : Str
newline = 10 ∷ []

-- The lines with a newline between.
abbrev pub join_with : Str → List Str → Str
join_with between [] = []
join_with between (s ∷ []) = s
join_with between (s ∷ t ∷ rest) = s ++ (between ++ join_with between (t ∷ rest))

abbrev pub lines : List Str → Str
lines ls = join_with newline ls

-- `%d`, `%q`, json.Marshal and sort.Strings.
pub record Verbs : Type 0 where
  pub decimal : ℕ → Str
  pub quote : Str → Str
  pub marshal : AnyMap → Result Str
  pub sort_strings : List Str → List Str

-- An error of json.Marshal is dropped.
abbrev pub marshalled : Result Str → Str
marshalled (ok s) = s
marshalled (err message) = []

abbrev pub line : Str → Str → Str
line label value = label ++ value ++ newline
