-- ===== src/Validate/Events/Keys/Sorted.antt =====
-- `sorted_keys` sorts, and does not depend on the order in which Go ranges over the map.
use mathlib.Core.Logic.{∥∥₁_elim}
use mathlib.Core.List.Perm
use mathlib.Core.List.{reverse, Perm, Permᴰ, perm_middle, reverse_perm, reverse-append}
use native.Mathlib.Nat.{ℕ_set}
use fact_checker.Base.{
  List, [], ◌∷◌, ◌++◌, ◌≡◌, refl, ◌∙◌, ap, ap₂, append-nil, All, All-map, All-snoc, Bool-cases, inl,
  inr, false, Str, str_lt, arith,
}
use fact_checker.Validate.Events.Keys.{sift, sort_loop, sorted_keys}
use fact_checker.Validate.Events.Keys.Order.{str_lt_asymm, str_lt_total, str_lt_cotrans}

sift_comm : (x y : Str) (l : List Str) → sift x (sift y l) ≡ sift y (sift x l)
unfolding sift
sift_comm x y [] = ground (arith, str_lt_asymm x y, str_lt_total x y)
sift_comm x y (z ∷ l) = ground (
  arith,
  sift_comm x y l,
  str_lt_asymm x y,
  str_lt_total x y,
  str_lt_cotrans x y z,
  str_lt_cotrans y x z,
)

sort_loop-perm :
    {ks js : List Str} (sorted : List Str) → Permᴰ ks js → sort_loop sorted ks ≡ sort_loop sorted js
unfolding sort_loop
sort_loop-perm sorted Permᴰ.nil = refl
sort_loop-perm sorted (Permᴰ.cons {a = a} {l₁ = l} e p) =
    ap (λ k. sort_loop (sift k sorted) l) e ∙ sort_loop-perm (sift _ sorted) p
sort_loop-perm sorted (Permᴰ.swap {a = a} {b = b} {l = l} e f) =
    ap (λ s. sort_loop s l) (sift_comm b a sorted)
    ∙ ap₂ (λ x y. sort_loop (sift y (sift x sorted)) l) f e
sort_loop-perm sorted (Permᴰ.trans p q) = sort_loop-perm sorted p ∙ sort_loop-perm sorted q

-- The order in which Go ranges over the map does not matter: whatever two orders of the same keys,
-- `sortedKeys` gives the same list.
pub sorted_keys-perm : (ks js : List Str) → Perm ks js → sorted_keys ks ≡ sorted_keys js
unfolding sorted_keys
sorted_keys-perm ks js p = ∥∥₁_elim p (keys-set _ _) (λ d. ap reverse (sort_loop-perm [] d))
  where
    keys-set : IsSet (List Str)
    keys-set = hlevel ℕ_set

sift-perm : (x : Str) (l : List Str) → Perm (sift x l) (x ∷ l)
unfolding sift
sift-perm x [] = Perm.rfl
sift-perm x (y ∷ l) = elim (Bool-cases (str_lt x y)) [
  | inl e ↦ rw e (Perm.trans (Perm.cons y (sift-perm x l)) (Perm.swap x y l))
  | inr e ↦ rw e Perm.rfl
]

sort_loop_perm : (sorted ks : List Str) → Perm (sort_loop sorted ks) (ks ++ sorted)
unfolding sort_loop
sort_loop_perm sorted [] = Perm.rfl
sort_loop_perm sorted (k ∷ ks) =
    Perm.trans (sort_loop_perm (sift k sorted) ks)
      (Perm.trans (Perm.append_left ks (sift-perm k sorted)) (perm_middle ks sorted))

-- No key is less than one that stands before it.
abbrev pub Ascends : List Str → Type 0
Ascends [] = Unit
Ascends (k ∷ ks) = All (λ (j : Str). str_lt j k ≡ false) ks × Ascends ks

abbrev Descends : List Str → Type 0
Descends [] = Unit
Descends (k ∷ ks) = All (λ (j : Str). str_lt k j ≡ false) ks × Descends ks

All-sift : (P : Str → Type 0) (x : Str) (l : List Str) → P x → All P l → All P (sift x l)
unfolding sift
All-sift P x [] h hs = (h, tt)
All-sift P x (y ∷ l) h (hy, hs) = elim (Bool-cases (str_lt x y)) [
  | inl e ↦ rw e (hy, All-sift P x l h hs)
  | inr e ↦ rw e (h, (hy, hs))
]

not_lt_trans : (x y z : Str) → str_lt x y ≡ false → str_lt y z ≡ false → str_lt x z ≡ false
not_lt_trans x y z h k = ground (arith, str_lt_cotrans x y z)

sift-Descends : (x : Str) (l : List Str) → Descends l → Descends (sift x l)
unfolding sift
sift-Descends x [] d = (tt, tt)
sift-Descends x (y ∷ l) (above, d) = elim (Bool-cases (str_lt x y)) [
  | inl e ↦
      rw e (All-sift (λ z. str_lt y z ≡ false) x l (str_lt_asymm x y e) above, sift-Descends x l d)
  | inr e ↦ rw e (
    (
      e,
      All-map (λ z. str_lt y z ≡ false) (λ z. str_lt x z ≡ false) (λ z. not_lt_trans x y z e) l
          above,
    ),
    (above, d),
  )
]

sort_loop-Descends : (sorted ks : List Str) → Descends sorted → Descends (sort_loop sorted ks)
unfolding sort_loop
sort_loop-Descends sorted [] d = d
sort_loop-Descends sorted (k ∷ ks) d =
    sort_loop-Descends (sift k sorted) ks (sift-Descends k sorted d)

Ascends-snoc :
    (l : List Str) (x : Str)
    → Ascends l
    → All (λ (y : Str). str_lt x y ≡ false) l
    → Ascends (l ++ x ∷ [])
Ascends-snoc [] x a h = (tt, tt)
Ascends-snoc (y ∷ l) x (above, a) (h, hs) =
    (All-snoc (λ (z : Str). str_lt z y ≡ false) l x above h, Ascends-snoc l x a hs)

All-reverse : (P : Str → Type 0) (l : List Str) → All P l → All P (reverse l)
All-reverse P [] h = tt
All-reverse P (x ∷ l) (h, hs) =
    rw (reverse-append (x ∷ []) l) (All-snoc P (reverse l) x (All-reverse P l hs) h)

Ascends-reverse : (l : List Str) → Descends l → Ascends (reverse l)
Ascends-reverse [] d = tt
Ascends-reverse (x ∷ l) (above, d) =
    rw (reverse-append (x ∷ []) l)
      (Ascends-snoc (reverse l) x (Ascends-reverse l d) (All-reverse _ l above))

-- `sortedKeys` gives the keys, each as often as it was given, in ascending order.
pub sorted_keys-Ascends : (ks : List Str) → Ascends (sorted_keys ks) × Perm (sorted_keys ks) ks
unfolding sorted_keys
sorted_keys-Ascends ks = (
  Ascends-reverse (sort_loop [] ks) (sort_loop-Descends [] ks tt),
  Perm.trans (reverse_perm (sort_loop [] ks)) (rw (append-nil ks) at (sort_loop_perm [] ks)),
)
