-- ===== src/Base/Dict.antt =====
-- Go maps with string keys as association lists, and `map[string]bool` as the list of its keys.
-- A statement about every list holds for every order in which Go may range over the map.
use mathlib.Core.Path.{◌≡◌, refl}
use mathlib.Core.Bool.{Bool, true, false, ◌||◌}
use mathlib.Core.Option.{Option, none, some}
use mathlib.Core.List.{List, [], ◌∷◌, ◌++◌}
use native.Mathlib.Omega.{arith}
use fact_checker.Base.Tests.{if◌then◌else◌}
use fact_checker.Base.Text.{Str, ◌==◌, ==_iff, ==_refl}

unfoldable pub has : List Str → Str → Bool
has [] k = false
has (j ∷ js) k = (j == k) || has js k

pub has-append : (xs ys : List Str) (k : Str) → has (xs ++ ys) k ≡ (has xs k || has ys k)
unfolding has
has-append [] ys k = refl
has-append (x ∷ xs) ys k = ground (arith, has-append xs ys k)

pub has-snoc_self : (xs : List Str) (k : Str) → has (xs ++ k ∷ []) k ≡ true
unfolding has
has-snoc_self xs k = ground (arith, has-append xs (k ∷ []) k, ==_refl k)

-- No string stands twice in the list.
abbrev pub Distinct : List Str → Type 0
Distinct [] = Unit
Distinct (k ∷ ks) = (has ks k ≡ false) × Distinct ks

pub Distinct-snoc :
    (ks : List Str) (k : Str) → Distinct ks → has ks k ≡ false → Distinct (ks ++ k ∷ [])
Distinct-snoc [] k d h = (unfold has in refl, tt)
Distinct-snoc (j ∷ js) k d h = (other j js k d.0 h, Distinct-snoc js k d.1 (later j js k h))
  where
    other :
        (i : Str) (is : List Str) (x : Str)
        → has is i ≡ false
        → has (i ∷ is) x ≡ false
        → has (is ++ x ∷ []) i ≡ false
    other i is x old new =
        unfold has in ground (arith, has-append is (x ∷ []) i, ==_iff x i, ==_iff i x)

    later : (i : Str) (is : List Str) (x : Str) → has (i ∷ is) x ≡ false → has is x ≡ false
    later i is x new = unfold has in ground arith

module _ {ℓ} {V : Type ℓ} where
  abbrev pub keys : List (Str × V) → List Str
  keys [] = []
  keys ((j, v) ∷ m) = j ∷ keys m

  unfoldable pub lookup : Str → List (Str × V) → Option V
  lookup key [] = none
  lookup key ((other, value) ∷ rest) = if other == key then some value else lookup key rest

  -- `m[key] = new`
  unfoldable pub insert : Str → V → List (Str × V) → List (Str × V)
  insert key new ((other, value) ∷ rest) =
      if other == key then (key, new) ∷ rest else (other, value) ∷ insert key new rest
  insert key new [] = (key, new) ∷ []

  -- `_, ok := m[k]`
  unfoldable pub is_key : Str → List (Str × V) → Bool
  is_key k m = has (keys m) k

  pub lookup-insert :
      (key asked : Str) (new : V) (m : List (Str × V))
      → lookup asked (insert key new m) ≡ (if key == asked then some new else lookup asked m)
  unfolding lookup insert
  lookup-insert key asked new [] = refl
  lookup-insert key asked new ((other, value) ∷ m) =
      ground (
        arith,
        ==_iff key asked,
        ==_iff other key,
        ==_iff other asked,
        lookup-insert key asked new m,
      )

  pub is_key-insert :
      (k j : Str) (v : V) (m : List (Str × V)) → is_key j (insert k v m) ≡ ((k == j) || is_key j m)
  unfolding is_key insert has
  is_key-insert k j v [] = refl
  is_key-insert k j v ((i, w) ∷ m) =
      ground (arith, ==_iff k j, ==_iff i k, ==_iff i j, is_key-insert k j v m)

  -- A map whose keys are those of a list, after one more key.
  pub is_key-snoc :
      (id : Str) (v : V) (m : List (Str × V)) (ks : List Str)
      → ((k : Str) → is_key k m ≡ has ks k)
      → (k : Str) → is_key k (insert id v m) ≡ has (ks ++ id ∷ []) k
  unfolding has
  is_key-snoc id v m ks h k = ground (arith, is_key-insert id k v m, has-append ks (id ∷ []) k, h k)
