-- ===== src/Wire/Block/Found.antt =====
-- The positions that `index_byte` and `last_index_byte` find, and the bytes between two positions.
use fact_checker.Base.{
  ◌⊎◌, ℕ, zero, suc, ◌-◌, ◌<◌, [], ◌∷◌, ◌++◌, ◌≡◌, refl, ap, Bool, true, false, Str, eqb, take,
  drop, get_elem?, Option, none, some, Bool-cases, inl, inr, arith,
}
use fact_checker.Wire.Block.{index_byte, last_index_byte, raise, or_here}

raise-eq-some : (o : Option ℕ) (i : ℕ) → raise o ≡ some i → (j : ℕ) × (o ≡ some j) × (i ≡ suc j)
raise-eq-some none i h = cc
raise-eq-some (some j) i h = (j, refl, cc)

pub index_byte-found : (s : Str) (c i : ℕ) → index_byte s c ≡ some i → get_elem? s i ≡ some c
unfolding index_byte
index_byte-found [] c i h = cc
index_byte-found (x ∷ s) c i h = elim (Bool-cases (eqb x c)) [
  | inl e ↦ ground arith
  | inr e ↦
      let (j, found, next) = raise-eq-some (index_byte s c) i (rw e at h) in
      rw next (index_byte-found s c j found)
]

or_here-eq-some :
    (b : Bool) (o : Option ℕ) (i : ℕ)
    → or_here b o ≡ some i
    → ((j : ℕ) × (o ≡ some j) × (i ≡ suc j)) ⊎ ((b ≡ true) × (i ≡ 0))
or_here-eq-some true none i h = inr (refl, cc)
or_here-eq-some false none i h = cc
or_here-eq-some b (some j) i h = inl (j, refl, cc)

pub last_index_byte-found :
    (s : Str) (c i : ℕ) → last_index_byte s c ≡ some i → get_elem? s i ≡ some c
unfolding last_index_byte
last_index_byte-found [] c i h = cc
last_index_byte-found (x ∷ s) c i h = elim (or_here-eq-some (eqb x c) (last_index_byte s c) i h) [
  | inl (j, found, next) ↦ rw next (last_index_byte-found s c j found)
  | inr (e, z) ↦ rw z (ground arith)
]

-- The bytes from position `i` up to position `j`.
take-found :
    (s : Str) (j b : ℕ) → get_elem? s j ≡ some b → (mid : Str) × (take (suc j) s ≡ mid ++ b ∷ [])
take-found [] j b h = cc
take-found (x ∷ s) zero b h = ([], ground arith)
take-found (x ∷ s) (suc j) b h = let (mid, e) = take-found s j b h in (x ∷ mid, rw e)

pub slice-found :
    (s : Str) (i j a b : ℕ)
    → get_elem? s i ≡ some a
    → get_elem? s j ≡ some b
    → i < j
    → (mid : Str) × (take (suc (j - i)) (drop i s) ≡ a ∷ (mid ++ b ∷ []))
slice-found [] i j a b h k lt = cc
slice-found (x ∷ s) zero zero a b h k lt = absurd (omega arith)
slice-found (x ∷ s) zero (suc j) a b h k lt =
    let (mid, e) = take-found s j b k in
    let n : suc j - 0 ≡ suc j = omega arith in
    let x_a : x ≡ a = ground arith in (mid, rw (n, e) (ap (λ y. y ∷ (mid ++ b ∷ [])) x_a))
slice-found (x ∷ s) (suc i) zero a b h k lt = absurd (omega arith)
slice-found (x ∷ s) (suc i) (suc j) a b h k lt =
    let (mid, e) = slice-found s i j a b h k (omega arith) in
    let n : suc j - suc i ≡ j - i = omega arith in (mid, rw n e)
