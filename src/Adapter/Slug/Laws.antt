-- ===== src/Adapter/Slug/Laws.antt =====
-- What the key of a unit looks like, and when it is "untitled".
use fact_checker.Base.{
  ℕ, List, [], ◌∷◌, ◌++◌, Str, codes, Bool, true, false, not, ◌&&◌, ◌||◌, ◌==◌, eqb, All, All-snoc,
  is_empty, ◌≡◌, refl, sym, ap, ◌∙◌, subst, arith, Bool-cases, inl, inr,
}
use fact_checker.Validate.Types.{is_slug, slug_tail}
use mathlib.Core.List.{reverse, reverse-append, reverse-reverse}
use fact_checker.Adapter.Slug.{
  latin_fold, is_alnum, SlugLoop, slug_round, slug_loop, trim_dashes, or_untitled, slugify,
}

abbrev start : SlugLoop
start = record { slug = []; upper = false }

-- No rune of the title is, or folds to, an ASCII letter or digit.
unfoldable pub has_no_latin : List ℕ → Bool
has_no_latin [] = true
has_no_latin (r ∷ runes) = not (is_alnum (latin_fold r)) && has_no_latin runes

slug_round-empty :
    (r : ℕ)
    → is_alnum (latin_fold r) ≡ false
    → slug_round (record { slug = []; upper = false }) r ≡ record { slug = []; upper = false }
unfolding slug_round
slug_round-empty r e = ground arith

slug_loop-empty : (runes : List ℕ) → has_no_latin runes ≡ true → (slug_loop start runes).slug ≡ []
unfolding slug_loop has_no_latin
slug_loop-empty [] h = refl
slug_loop-empty (r ∷ runes) h =
    let same = slug_round-empty r (ground arith) in
    subst (λ s. (slug_loop s runes).slug ≡ []) (sym same) (slug_loop-empty runes (ground arith))

-- A rune of a key.
abbrev InKey : ℕ → Type 0
InKey c = (is_alnum c || eqb c b'-') ≡ true

-- A key so far begins with a letter or a digit.
abbrev Begun : Str → Type 0
Begun [] = Unit
Begun (c ∷ s) = (is_alnum c ≡ true) × All InKey s

Begun-snoc : (s : Str) (c : ℕ) → is_alnum c ≡ true → Begun s → Begun (s ++ c ∷ [])
Begun-snoc [] c h b = (h, tt)
Begun-snoc (x ∷ s) c h (k, b) = (k, All-snoc InKey s c b (ground arith))

Begun-dash : (s : Str) → is_empty s ≡ false → Begun s → Begun (s ++ b'-' ∷ [])
Begun-dash [] h b = cc
Begun-dash (x ∷ s) h (k, b) = (k, All-snoc InKey s b'-' b refl)

slug_round-Begun : (s : SlugLoop) (r : ℕ) → Begun s.slug → Begun (slug_round s r).slug
unfolding slug_round
slug_round-Begun s r b = elim (Bool-cases (is_alnum (latin_fold r))) [
  | inl e ↦ rw e (Begun-snoc s.slug (latin_fold r) e b)
  | inr e ↦ elim (Bool-cases (not s.upper && not (is_empty s.slug))) [
    | inl d ↦ rw (e, d) (Begun-dash s.slug (ground arith) b)
    | inr d ↦ rw (e, d) b
  ]
]

slug_loop-Begun : (s : SlugLoop) (runes : List ℕ) → Begun s.slug → Begun (slug_loop s runes).slug
unfolding slug_loop
slug_loop-Begun s [] b = b
slug_loop-Begun s (r ∷ runes) b = slug_loop-Begun (slug_round s r) runes (slug_round-Begun s r b)

-- What the trimming takes away is at the front.
trim_dashes-suffix : (s : Str) → (pre : Str) × (s ≡ pre ++ trim_dashes s)
unfolding trim_dashes
trim_dashes-suffix [] = ([], refl)
trim_dashes-suffix (c ∷ s) =
    let (pre, e) = trim_dashes-suffix s in
    elim (Bool-cases (eqb c b'-')) [
      | inl h ↦ rw h (c ∷ pre, ap (λ l. c ∷ l) e)
      | inr h ↦ rw h ([], refl)
    ]

trim_dashes-Begun : (s : Str) → Begun s → trim_dashes s ≡ s
unfolding trim_dashes
trim_dashes-Begun [] b = refl
trim_dashes-Begun (c ∷ s) (k, b) = let no : eqb c b'-' ≡ false = ground arith in rw no refl

Begun-prefix : (a b : Str) → Begun (a ++ b) → Begun a
Begun-prefix [] b h = tt
Begun-prefix (c ∷ a) b (k, h) = (k, All-prefix a b h)
  where
    All-prefix : (x y : Str) → All InKey (x ++ y) → All InKey x
    All-prefix [] y g = tt
    All-prefix (d ∷ x) y (g, gs) = (g, All-prefix x y gs)

trim_right-Begun : (s : Str) → Begun s → Begun (reverse (trim_dashes (reverse s)))
trim_right-Begun s b =
    let (pre, e) = trim_dashes-suffix (reverse s) in
    let cut : s ≡ reverse (trim_dashes (reverse s)) ++ reverse pre =
      sym (reverse-reverse s) ∙ ap reverse e ∙ reverse-append pre (trim_dashes (reverse s)) in
    Begun-prefix (reverse (trim_dashes (reverse s))) (reverse pre) (subst Begun cut b)

slug_tail-All : (s : Str) → All InKey s → slug_tail s ≡ true
slug_tail-All [] h = refl
slug_tail-All (c ∷ s) (k, h) = let rest = slug_tail-All s h in ground arith

or_untitled-is_slug : (s : Str) → Begun s → is_slug (or_untitled s) ≡ true
unfolding or_untitled is_slug ◌==◌
or_untitled-is_slug [] b = refl
or_untitled-is_slug (c ∷ s) (k, b) = let tail = slug_tail-All s b in ground arith

module _ (lower_runes : Str → List ℕ) where
  -- Every title without a rune that is or folds to an ASCII letter or digit, such as every title in
  -- another script, has the same key "untitled".
  pub slugify-untitled :
      (title : Str)
      → has_no_latin (lower_runes title) ≡ true
      → slugify lower_runes title ≡ codes "untitled"
  unfolding slugify trim_dashes or_untitled ◌==◌
  slugify-untitled title h = let empty = slug_loop-empty (lower_runes title) h in rw empty refl

  -- The key of every title is a slug in the sense of the ids of the wire contract.
  pub slugify-is_slug : (title : Str) → is_slug (slugify lower_runes title) ≡ true
  unfolding slugify
  slugify-is_slug title =
      let begun = slug_loop-Begun start (lower_runes title) tt in
      let loop = slug_loop start (lower_runes title) in
      or_untitled-is_slug _
        (trim_right-Begun (trim_dashes loop.slug) (rw (trim_dashes-Begun loop.slug begun) begun))
