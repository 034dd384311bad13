-- ===== src/Wire/Block/Trim.antt =====
-- strings.TrimSpace on UTF-8: the characters that unicode.IsSpace accepts are cut at both ends.
use mathlib.Core.List.{reverse}
use fact_checker.Base.{ℕ, [], ◌∷◌, Bool, ◌&&◌, ◌||◌, Str, leb, eqb, if◌then◌else◌}

-- The white space characters of one, two and three bytes.
abbrev pub space_1 : ℕ → Bool
space_1 a = (leb 9 a && leb a 13) || eqb a 32

abbrev pub space_2 : ℕ → ℕ → Bool
space_2 a b = eqb a 0xc2 && (eqb b 0x85 || eqb b 0xa0)

abbrev pub space_3 : ℕ → ℕ → ℕ → Bool
space_3 a b c =
    (eqb a 0xe1 && eqb b 0x9a && eqb c 0x80)
    || (eqb a 0xe2
        && eqb b 0x80
        && ((leb 0x80 c && leb c 0x8a) || eqb c 0xa8 || eqb c 0xa9 || eqb c 0xaf))
    || (eqb a 0xe2 && eqb b 0x81 && eqb c 0x9f)
    || (eqb a 0xe3 && eqb b 0x80 && eqb c 0x80)

-- Spaces at the front, for tests of the first two and three bytes.
module _ (pair : ℕ → ℕ → Bool) (triple : ℕ → ℕ → ℕ → Bool) where
  unfoldable pub strip : Str → Str
  strip [] = []
  strip (a ∷ []) = if space_1 a then [] else a ∷ []
  strip (a ∷ b ∷ []) =
      let one = strip (b ∷ []) in if space_1 a then one else if pair a b then [] else a ∷ b ∷ []
  strip (a ∷ b ∷ c ∷ s) =
      let one = strip (b ∷ c ∷ s) in
      let two = strip (c ∷ s) in
      let three = strip s in
      if space_1 a
      then one
      else if pair a b
      then two
      else if triple a b c
      then three
      else a ∷ b ∷ c ∷ s

-- At the back the bytes are read from the end.
unfoldable pub trim_right : Str → Str
unfolding strip
trim_right s = reverse (strip (λ b a. space_2 a b) (λ c b a. space_3 a b c) (reverse s))

unfoldable pub trim_space : Str → Str
unfolding strip trim_right
trim_space s = trim_right (strip space_2 space_3 s)
