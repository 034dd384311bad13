-- ===== src/Validate/Events/Keys.antt =====
-- `sortedKeys` of extract/validate.go: an insertion sort in place.
mod Order
pub mod Sorted
use fact_checker.Base.{List, [], ◌∷◌, Str, str_lt, if◌then◌else◌}
use mathlib.Core.List.{reverse}

-- The inner loop: `keys[i]` moves left past the greater keys. The list is `keys[0..i]` read from
-- its end, so `x` stands first.
unfoldable pub sift : Str → List Str → List Str
sift x [] = x ∷ []
sift x (y ∷ before) = if str_lt x y then y ∷ sift x before else x ∷ y ∷ before

-- The outer loop: the sorted part, read from its end, and the keys to come.
unfoldable pub sort_loop : List Str → List Str → List Str
sort_loop sorted [] = sorted
sort_loop sorted (k ∷ ks) = sort_loop (sift k sorted) ks

-- The keys come in the order in which Go ranges over the map.
unfoldable pub sorted_keys : List Str → List Str
unfolding sift sort_loop
sorted_keys ks = reverse (sort_loop [] ks)
