-- ===== src/Base/Parts.antt =====
-- A text that stands in another one.
use mathlib.Core.Path.{◌≡◌, sym, ap, ◌∙◌}
use mathlib.Core.List.{[], ◌++◌, append-nil, append_assoc}
use fact_checker.Base.Text.{Str}

-- The part stands in the text.
pub record Contains (whole part : Str) : Type 0 where
  pub front : Str
  pub back : Str
  pub split : whole ≡ front ++ (part ++ back)

pub Contains-before :
    {whole part : Str} (s : Str) → Contains whole part → Contains (s ++ whole) part
Contains-before {whole} {part} s c = record {
  front = s ++ c.front;
  back = c.back;
  split = ap (λ w. s ++ w) c.split ∙ sym (append_assoc s c.front (part ++ c.back));
}

pub Contains-after : {whole part : Str} (s : Str) → Contains whole part → Contains (whole ++ s) part
Contains-after {whole} {part} s c = record {
  front = c.front;
  back = c.back ++ s;
  split =
      ap (λ w. w ++ s) c.split
      ∙ append_assoc c.front (part ++ c.back) s
      ∙ ap (λ w. c.front ++ w) (append_assoc part c.back s);
}

pub Contains-trans :
    {whole part piece : Str} → Contains whole part → Contains part piece → Contains whole piece
Contains-trans {whole} {part} {piece} c d =
    let inner : Contains (c.front ++ (part ++ c.back)) piece =
      Contains-before c.front (Contains-after c.back d) in
    record { front = inner.front; back = inner.back; split = c.split ∙ inner.split }

pub Contains-self : (s : Str) → Contains s s
Contains-self s = record { front = []; back = []; split = sym (append-nil s) }
