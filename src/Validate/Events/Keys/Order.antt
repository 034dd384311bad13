-- ===== src/Validate/Events/Keys/Order.antt =====
-- `str_lt` is a strict total order.
use fact_checker.Base.{[], ◌∷◌, ◌≡◌, refl, true, false, Str, str_lt, arith}

pub str_lt_asymm : (s t : Str) → str_lt s t ≡ true → str_lt t s ≡ false
unfolding str_lt
str_lt_asymm [] [] h = refl
str_lt_asymm [] (y ∷ ys) h = refl
str_lt_asymm (x ∷ xs) [] h = cc
str_lt_asymm (x ∷ xs) (y ∷ ys) h = ground (arith, str_lt_asymm xs ys)

pub str_lt_total : (s t : Str) → str_lt s t ≡ false → str_lt t s ≡ false → s ≡ t
unfolding str_lt
str_lt_total [] [] h k = refl
str_lt_total [] (y ∷ ys) h k = cc
str_lt_total (x ∷ xs) [] h k = cc
str_lt_total (x ∷ xs) (y ∷ ys) h k = ground (arith, str_lt_total xs ys)

-- What is less than `u` is less than what is not.
pub str_lt_cotrans : (s t u : Str) → str_lt s u ≡ true → str_lt t u ≡ false → str_lt s t ≡ true
unfolding str_lt
str_lt_cotrans [] [] [] h k = cc
str_lt_cotrans [] [] (z ∷ zs) h k = cc
str_lt_cotrans [] (y ∷ ys) u h k = refl
str_lt_cotrans (x ∷ xs) t [] h k = cc
str_lt_cotrans (x ∷ xs) [] (z ∷ zs) h k = cc
str_lt_cotrans (x ∷ xs) (y ∷ ys) (z ∷ zs) h k = ground (arith, str_lt_cotrans xs ys zs)
