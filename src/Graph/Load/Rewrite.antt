-- ===== src/Graph/Load/Rewrite.antt =====
-- What a list of rows does to the rows that are there.
use fact_checker.Base.{
  ||-false, ||-false, List, [], ◌∷◌, ◌++◌, map, ◌≡◌, refl, sym, ap₂, Bool, true, false, ◌&&◌, ◌||◌,
  inl, inr, Bool-cases, &&-true, ==_refl, All, arith, if◌then◌else◌,
}
use fact_checker.Graph.Rows.{
  Row, version_row, Graph, Key, key, same_key, conflicts, on_conflict, put,
}

abbrev pub is_version : Row → Bool
is_version (version_row claim label statement) = true
is_version row = false

-- What a row does to an old one of the same key.
abbrev pub rewrite_one : Row → Row → Row
rewrite_one row old = if is_version row && same_key (key row) (key old) then row else old

abbrev pub rewrite : List Row → Row → Row
rewrite [] old = old
rewrite (row ∷ rows) old = rewrite rows (rewrite_one row old)

-- Some version has the key.
abbrev pub hits : Key → List Row → Bool
hits k [] = false
hits k (row ∷ rows) = (is_version row && same_key (key row) k) || hits k rows

pub same_key_refl : (k : Key) → same_key k k ≡ true
unfolding same_key
same_key_refl [] = refl
same_key_refl (x ∷ k) = ground (arith, ==_refl x, same_key_refl k)

pub map_of_same : (f : Row → Row) (g : Graph) → All (λ r. f r ≡ r) g → map f g ≡ g
map_of_same f [] h = refl
map_of_same f (r ∷ g) h = ap₂ (λ x xs. x ∷ xs) h.0 (map_of_same f g h.1)

on_conflict-map : (row : Row) (g : Graph) → on_conflict row g ≡ map (rewrite_one row) g
on_conflict-map (version_row claim label statement) g = refl
on_conflict-map row g = sym (map_of_same (rewrite_one row) g (same g))
  where
    same : (rs : Graph) → All (λ r. r ≡ r) rs
    same [] = tt
    same (r ∷ rs) = (refl, same rs)

pub put-there :
    (row : Row) (g : Graph) → conflicts row g ≡ true → put row g ≡ map (rewrite_one row) g
unfolding put
put-there row g h = rw h (on_conflict-map row g)

pub put-fresh : (row : Row) (g : Graph) → conflicts row g ≡ false → put row g ≡ g ++ row ∷ []
unfolding put
put-fresh row g h = rw h

pub rewrite_one-hit :
    (row old : Row)
    → is_version row ≡ true
    → same_key (key row) (key old) ≡ true
    → rewrite_one row old ≡ row
rewrite_one-hit row old v h = rw (v, h)

pub rewrite_one-miss :
    (row old : Row)
    → (is_version row && same_key (key row) (key old)) ≡ false
    → rewrite_one row old ≡ old
rewrite_one-miss row old h = rw h

-- Old rows of one key that some version overwrites become the same row.
pub rewrite-hit :
    (k : Key) (rows : List Row) (a b : Row)
    → key a ≡ k
    → key b ≡ k
    → hits k rows ≡ true
    → rewrite rows a ≡ rewrite rows b
rewrite-hit k [] a b ea eb h = cc
rewrite-hit k (row ∷ rows) a b ea eb h =
    elim (Bool-cases (is_version row && same_key (key row) k)) [
      | inl e ↦
          let (v, s) = &&-true (is_version row) (same_key (key row) k) e in
          rw (rewrite_one-hit row a v (rw ea s), rewrite_one-hit row b v (rw eb s))
      | inr e ↦
          rw (rewrite_one-miss row a (rw ea e), rewrite_one-miss row b (rw eb e))
            (rewrite-hit k rows a b ea eb (rw e at h))
    ]

-- An old row that no version overwrites stays.
pub rewrite-miss :
    (k : Key) (rows : List Row) (a : Row) → key a ≡ k → hits k rows ≡ false → rewrite rows a ≡ a
rewrite-miss k [] a ea h = refl
rewrite-miss k (row ∷ rows) a ea h =
    let (miss, later) = ||-false (is_version row && same_key (key row) k) (hits k rows) h in
    rw (rewrite_one-miss row a (rw ea miss)) (rewrite-miss k rows a ea later)

-- Every row of the key is the given one.
