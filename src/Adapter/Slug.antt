-- ===== src/Adapter/Slug.antt =====
-- `latinFold` and `slugify` of adapters/arda/arda.go. `lower_runes` stands for strings.TrimSpace,
-- strings.ToLower and the decoding of the title into runes.
pub mod Laws
use fact_checker.Base.{
  ℕ, List, [], ◌∷◌, ◌++◌, Str, codes, Bool, true, false, not, ◌&&◌, ◌||◌, ◌==◌, leb, eqb, is_empty,
  if◌then◌else◌,
}
use mathlib.Core.List.{reverse}

abbrev one_of : ℕ → List ℕ → Bool
one_of r [] = false
one_of r (c ∷ cs) = eqb r c || one_of r cs

-- The accented letters by their code points, under the letter that they fold to.
unfoldable pub latin_fold : ℕ → ℕ
latin_fold r =
    if one_of r (225 ∷ 224 ∷ 226 ∷ 228 ∷ 227 ∷ 229 ∷ [])
    then b'a'
    else if one_of r (233 ∷ 232 ∷ 234 ∷ 235 ∷ [])
    then b'e'
    else if one_of r (237 ∷ 236 ∷ 238 ∷ 239 ∷ [])
    then b'i'
    else if one_of r (243 ∷ 242 ∷ 244 ∷ 246 ∷ 245 ∷ [])
    then b'o'
    else if one_of r (250 ∷ 249 ∷ 251 ∷ 252 ∷ [])
    then b'u'
    else if eqb r 241
    then b'n'
    else if eqb r 231
    then b'c'
    else if one_of r (253 ∷ 255 ∷ [])
    then b'y'
    else r

abbrev pub is_alnum : ℕ → Bool
is_alnum r = (leb b'a' r && leb r b'z') || (leb b'0' r && leb r b'9')

-- The builder, and whether the last rune was a delimiter.
pub record SlugLoop : Type 0 where
  pub slug : Str
  pub upper : Bool

unfoldable pub slug_round : SlugLoop → ℕ → SlugLoop
unfolding latin_fold
slug_round s rune =
    let r = latin_fold rune in
    if is_alnum r
    then record { slug = s.slug ++ r ∷ []; upper = false }
    else if not s.upper && not (is_empty s.slug)
    then record { slug = s.slug ++ b'-' ∷ []; upper = true }
    else s

unfoldable pub slug_loop : SlugLoop → List ℕ → SlugLoop
unfolding slug_round
slug_loop s [] = s
slug_loop s (rune ∷ runes) = slug_loop (slug_round s rune) runes

-- strings.Trim(s, "-")
unfoldable pub trim_dashes : Str → Str
trim_dashes [] = []
trim_dashes (c ∷ s) = if eqb c b'-' then trim_dashes s else c ∷ s

unfoldable pub or_untitled : Str → Str
or_untitled out = if out == [] then codes "untitled" else out

module _ (lower_runes : Str → List ℕ) where
  unfoldable pub slugify : Str → Str
  unfolding slug_loop trim_dashes or_untitled
  slugify title =
      let loop = slug_loop (record { slug = []; upper = false }) (lower_runes title) in
      or_untitled (reverse (trim_dashes (reverse (trim_dashes loop.slug))))
