-- ===== src/Wire/Block/Laws.antt =====
-- What `json_block` returns: a part of the response, from a `{` up to a `}`.
use mathlib.Core.List.{reverse, reverse-append, reverse-reverse}
use fact_checker.Base.{
  length, subst, All, ℕ, suc, ◌+◌, ◌-◌, ◌<◌, List, [], ◌∷◌, ◌++◌, append_assoc, append-nil, ◌≡◌,
  refl, sym, ◌∙◌, ap, Bool, true, false, ◌&&◌, ◌==◌, Str, leb, eqb, take, drop, take-append-drop,
  Option, none, some, ok, arith, if◌then◌else◌,
}
use fact_checker.Wire.Block.{
  split_from, split_fences, without_last, inner_parts, after_line, first_fence, index_byte,
  last_index_byte, cut_object, unfence, json_block,
}
use fact_checker.Wire.Block.Trim.{trim_space, trim_right, strip, space_1, space_2, space_3}
use fact_checker.Wire.Block.Found.{index_byte-found, last_index_byte-found, slice-found}

-- The text has the part, with something before and after it.
pub record IsPart (part whole : Str) : Type 0 where
  pub before : Str
  pub after : Str
  pub spells : whole ≡ before ++ (part ++ after)

IsPart-refl : (s : Str) → IsPart s s
IsPart-refl s = record { before = []; after = []; spells = sym (append-nil s) }

IsPart-trans : {a b c : Str} → IsPart a b → IsPart b c → IsPart a c
IsPart-trans {a} p q = record {
  before = q.before ++ p.before;
  after = p.after ++ q.after;
  spells = q.spells ∙ ap (λ m. q.before ++ (m ++ q.after)) p.spells ∙ simp append_assoc;
}

-- A cut that succeeds has found both braces, in order.
cut_object-eq-ok :
    (s : Str) (i j : Option ℕ) {block : Str}
    → cut_object s i j ≡ ok block
    → (m : ℕ) × (n : ℕ) × (i ≡ some m)
      × (j ≡ some n)
      × (m < n)
      × (block ≡ take (suc (n - m)) (drop m s))
unfolding cut_object
cut_object-eq-ok s (some m) (some n) h = (m, n, refl, refl, ground arith, ground arith)
cut_object-eq-ok s none j h = cc
cut_object-eq-ok s (some m) none h = cc

slice-IsPart : (s : Str) (m n : ℕ) → IsPart (take n (drop m s)) s
slice-IsPart s m n = record {
  before = take m s;
  after = drop n (drop m s);
  spells =
      sym (take-append-drop m s) ∙ ap (λ r. take m s ++ r) (sym (take-append-drop n (drop m s)));
}

append-IsPart : (a b : Str) → IsPart b (a ++ b)
append-IsPart a b = record {
  before = a;
  after = [];
  spells = ap (λ r. a ++ r) (sym (append-nil b));
}

drop-IsPart : (n : ℕ) (s : Str) → IsPart (drop n s) s
drop-IsPart n s = rw (take-append-drop n s) at (append-IsPart (take n s) (drop n s))

module _ (pair : ℕ → ℕ → Bool) (triple : ℕ → ℕ → ℕ → Bool) where
  -- What is stripped at the front is a prefix.
  abbrev IsSuffix : Str → Str → Type 0
  IsSuffix t s = (pre : Str) × (s ≡ pre ++ t)

  IsSuffix-cons : (x : ℕ) {t s : Str} → IsSuffix t s → IsSuffix t (x ∷ s)
  IsSuffix-cons x (pre, e) = (x ∷ pre, ap (λ r. x ∷ r) e)

  if-IsSuffix :
      (b : Bool) {t u s : Str} → IsSuffix t s → IsSuffix u s → IsSuffix (if b then t else u) s
  if-IsSuffix true p q = p
  if-IsSuffix false p q = q

  strip-IsSuffix : (s : Str) → IsSuffix (strip pair triple s) s
  unfolding strip
  strip-IsSuffix [] = ([], refl)
  strip-IsSuffix (a ∷ []) = if-IsSuffix (space_1 a) (a ∷ [], refl) ([], refl)
  strip-IsSuffix (a ∷ b ∷ []) =
      if-IsSuffix (space_1 a) (IsSuffix-cons a (strip-IsSuffix (b ∷ [])))
        (if-IsSuffix (pair a b) (a ∷ b ∷ [], refl) ([], refl))
  strip-IsSuffix (a ∷ b ∷ c ∷ s) =
      if-IsSuffix (space_1 a) (IsSuffix-cons a (strip-IsSuffix (b ∷ c ∷ s))) (
        if-IsSuffix (pair a b) (IsSuffix-cons a (IsSuffix-cons b (strip-IsSuffix (c ∷ s)))) (
          if-IsSuffix (triple a b c)
            (IsSuffix-cons a (IsSuffix-cons b (IsSuffix-cons c (strip-IsSuffix s)))) ([], refl)))

  strip-IsPart : (s : Str) → IsPart (strip pair triple s) s
  strip-IsPart s =
      let (pre, e) = strip-IsSuffix s in rw (← e) at (append-IsPart pre (strip pair triple s))

IsPart-reverse : {a b : Str} → IsPart a b → IsPart (reverse a) (reverse b)
IsPart-reverse {a} p = record {
  before = reverse p.after;
  after = reverse p.before;
  spells =
      ap reverse p.spells
      ∙ reverse-append p.before (a ++ p.after)
      ∙ ap (λ r. r ++ reverse p.before) (reverse-append a p.after)
      ∙ append_assoc (reverse p.after) (reverse a) (reverse p.before);
}

trim_right-IsPart : (s : Str) → IsPart (trim_right s) s
unfolding trim_right
trim_right-IsPart s =
    subst (λ t. IsPart (trim_right s) t) (reverse-reverse s)
      (IsPart-reverse (strip-IsPart (λ b a. space_2 a b) (λ c b a. space_3 a b c) (reverse s)))

trim_space-IsPart : (s : Str) → IsPart (trim_space s) s
unfolding trim_space
trim_space-IsPart s =
    IsPart-trans (trim_right-IsPart (strip space_2 space_3 s)) (strip-IsPart space_2 space_3 s)

split_from-IsPart :
    (whole cur s : Str)
    → IsPart (cur ++ s) whole
    → All (λ (t : Str). IsPart t whole) (split_from cur s)
unfolding split_from
split_from-IsPart whole cur [] p = (p, tt)
split_from-IsPart whole cur (a ∷ []) p = (p, tt)
split_from-IsPart whole cur (a ∷ b ∷ []) p = (p, tt)
split_from-IsPart whole cur (a ∷ b ∷ c ∷ s) p =
    if-All (eqb a b'`' && eqb b b'`' && eqb c b'`') _ _
      (
        IsPart-trans (prefix-IsPart cur (a ∷ b ∷ c ∷ s)) p,
        split_from-IsPart whole [] s (
            IsPart-trans (append-IsPart (cur ++ a ∷ b ∷ c ∷ []) s)
              (rw (append_assoc cur (a ∷ b ∷ c ∷ []) s) p)),
      )
      (split_from-IsPart whole (cur ++ a ∷ []) (b ∷ c ∷ s)
        (rw (append_assoc cur (a ∷ []) (b ∷ c ∷ s)) p))
  where
    if-All :
        (t : Bool) (xs ys : List Str)
        → All (λ (u : Str). IsPart u whole) xs
        → All (λ (u : Str). IsPart u whole) ys
        → All (λ (u : Str). IsPart u whole) (if t then xs else ys)
    if-All true xs ys hx hy = hx
    if-All false xs ys hx hy = hy

    prefix-IsPart : (x y : Str) → IsPart x (x ++ y)
    prefix-IsPart x y = record { before = []; after = y; spells = refl }

without_last-All : (P : Str → Type 0) (xs : List Str) → All P xs → All P (without_last xs)
without_last-All P [] h = tt
without_last-All P (x ∷ []) h = tt
without_last-All P (x ∷ y ∷ xs) (h, hs) = (h, without_last-All P (y ∷ xs) hs)

inner_parts-All : (P : Str → Type 0) (xs : List Str) → All P xs → All P (inner_parts xs)
inner_parts-All P [] h = tt
inner_parts-All P (x ∷ xs) (h, hs) = without_last-All P xs hs

after_line-IsPart : (inner : Str) (o : Option ℕ) → IsPart (after_line inner o) inner
after_line-IsPart inner none = IsPart-refl inner
after_line-IsPart inner (some i) =
    IsPart-trans (trim_space-IsPart (drop (i + 1) inner)) (drop-IsPart (i + 1) inner)

if-IsPart : (b : Bool) {x y s : Str} → IsPart x s → IsPart y s → IsPart (if b then x else y) s
if-IsPart true p q = p
if-IsPart false p q = q

first_fence-IsPart :
    (stripped : Str) (fences : List Str)
    → All (λ (t : Str). IsPart t stripped) fences
    → IsPart (first_fence stripped fences) stripped
unfolding first_fence
first_fence-IsPart stripped [] h = IsPart-refl stripped
first_fence-IsPart stripped (fence ∷ fences) (p, h) =
    if-IsPart (trim_space fence == []) (first_fence-IsPart stripped fences h) (
      IsPart-trans (after_line-IsPart (trim_space fence) (index_byte (trim_space fence) 10))
        (IsPart-trans (trim_space-IsPart fence) p))

unfence-IsPart : (s : Str) → IsPart (unfence s) s
unfolding unfence split_fences
unfence-IsPart s =
    if-IsPart (leb 3 (length (split_fences s)))
      (first_fence-IsPart s (inner_parts (split_fences s)) (
        inner_parts-All (λ (t : Str). IsPart t s) (split_fences s)
          (split_from-IsPart s [] s (IsPart-refl s))))
      (IsPart-refl s)

-- What `JSONBlock` returns is a contiguous part of the response, which begins with a `{` and ends
-- with a `}`.
pub json_block_lem :
    (content : Str) {block : Str}
    → json_block content ≡ ok block
    → IsPart block content × ((mid : Str) × (block ≡ b'{' ∷ (mid ++ b'}' ∷ [])))
unfolding json_block
json_block_lem content h =
    let s = unfence (trim_space content) in
    let (m, n, open_at, close_at, order, cut) =
      cut_object-eq-ok s (index_byte s b'{') (last_index_byte s b'}') h in
    let (mid, slice) =
      slice-found s m n b'{' b'}' (index_byte-found s b'{' m open_at)
        (last_index_byte-found s b'}' n close_at) order in
    (
      rw cut (
          IsPart-trans (slice-IsPart s m (suc (n - m)))
            (IsPart-trans (unfence-IsPart (trim_space content)) (trim_space-IsPart content))),
      (mid, cut ∙ slice),
    )
