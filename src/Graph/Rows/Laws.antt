-- ===== src/Graph/Rows/Laws.antt =====
-- What inserted rows do to the keys and to the rows of a graph.
use fact_checker.Base.{
  List, [], ◌∷◌, ◌++◌, map, any, ◌≡◌, refl, ◌∙◌, ap, ◌⊎◌, inl, inr, true, false, ◌||◌, Str, ◌==◌,
  ==_sound, ==_iff, ==_refl, has, has-append, Bool, Bool-cases, &&-true, All, All-snoc, arith,
}
use fact_checker.Graph.Rows.{
  Row, Graph, Key, key, same_key, begins_with, exists_at, conflicts, overwrite, on_conflict, put,
  put_all, id_in, id_set, version_row,
}

pub any-append {ℓ} :
    {A : Type ℓ} (p : A → Bool) (xs ys : List A) → any p (xs ++ ys) ≡ (any p xs || any p ys)
unfolding any
any-append p [] ys = refl
any-append p (x ∷ xs) ys = ground (arith, any-append p xs ys)

pub same_key_sound : (k l : Key) → same_key k l ≡ true → k ≡ l
unfolding same_key
same_key_sound [] [] h = refl
same_key_sound [] (y ∷ ys) h = cc
same_key_sound (x ∷ xs) [] h = cc
same_key_sound (x ∷ xs) (y ∷ ys) h =
    let (head, tail) = &&-true (x == y) (same_key xs ys) h in
    rw (==_sound x y head, same_key_sound xs ys tail)

on_conflict-cases :
    (row : Row) (g : Graph) → (on_conflict row g ≡ g) ⊎ (on_conflict row g ≡ map (overwrite row) g)
on_conflict-cases (version_row claim label statement) g = inr refl
on_conflict-cases row g = inl refl

-- The cases of an insertion: the row is appended, or its key is there and the graph is kept or has
-- the row in place of the old one.
put-cases :
    (row : Row) (g : Graph)
    → (put row g ≡ g ++ row ∷ [])
      ⊎ ((conflicts row g ≡ true) × ((put row g ≡ g) ⊎ (put row g ≡ map (overwrite row) g)))
unfolding put
put-cases row g = elim (Bool-cases (conflicts row g)) [
  | inl e ↦ rw e (inr (refl, on_conflict-cases row g))
  | inr e ↦ rw e (inl refl)
]

-- A test that only reads keys.
module _ (p : Key → Bool) where
  abbrev on_key : Row → Bool
  on_key r = p (key r)

  on_key-overwrite : (row old : Row) → on_key (overwrite row old) ≡ on_key old
  on_key-overwrite row old = elim (Bool-cases (same_key (key row) (key old))) [
    | inl e ↦ rw e (ap p (same_key_sound (key row) (key old) e))
    | inr e ↦ rw e
  ]

  any-overwrite : (row : Row) (g : Graph) → any on_key (map (overwrite row) g) ≡ any on_key g
  unfolding any
  any-overwrite row [] = refl
  any-overwrite row (r ∷ g) = ground (arith, on_key-overwrite row r, any-overwrite row g)

  any-conflicts :
      (row : Row) (g : Graph) → conflicts row g ≡ true → any on_key g ≡ (any on_key g || on_key row)
  unfolding any
  any-conflicts row [] h = cc
  any-conflicts row (r ∷ g) h = elim (Bool-cases (same_key (key row) (key r))) [
    | inl e ↦ ground (arith, ap p (same_key_sound (key row) (key r) e))
    | inr e ↦ ground (arith, any-conflicts row g (ground arith))
  ]

  pub any-put : (row : Row) (g : Graph) → any on_key (put row g) ≡ (any on_key g || on_key row)
  any-put row g = elim (put-cases row g) [
    | inl e ↦ rw (e, any-append on_key g (row ∷ [])) (unfold any in ground arith)
    | inr (c, inl e) ↦ rw e (any-conflicts row g c)
    | inr (c, inr e) ↦ rw (e, any-overwrite row g) (any-conflicts row g c)
  ]

  any-put_all :
      (rows : List Row) (g : Graph)
      → any on_key (put_all rows g) ≡ (any on_key g || any on_key rows)
  unfolding put_all any
  any-put_all [] g = ground arith
  any-put_all (row ∷ rows) g = ground (arith, any-put_all rows (put row g), any-put row g)

-- After an insertion, the keys are those of the rows and those that were there.
pub exists_at-put_all :
    (first : Key) (rows : List Row) (g : Graph)
    → exists_at first (put_all rows g) ≡ (exists_at first g || exists_at first rows)
unfolding exists_at
exists_at-put_all first rows g = any-put_all (λ k. begins_with first k) rows g

-- What holds of the rows of a graph and of those inserted holds of all rows after.
module _ {ℓ} (P : Row → Type ℓ) where
  All-overwrite : (row : Row) (g : Graph) → P row → All P g → All P (map (overwrite row) g)
  All-overwrite row [] new old = tt
  All-overwrite row (r ∷ g) new old = (
    elim (Bool-cases (same_key (key row) (key r))) [ inl e ↦ rw e new | inr e ↦ rw e (old.0) ],
    All-overwrite row g new old.1,
  )

  All-put : (row : Row) (g : Graph) → P row → All P g → All P (put row g)
  All-put row g new old = elim (put-cases row g) [
    | inl e ↦ rw e (All-snoc P g row old new)
    | inr (c, inl e) ↦ rw e old
    | inr (c, inr e) ↦ rw e (All-overwrite row g new old)
  ]

  pub All-put_all : (rows : List Row) (g : Graph) → All P rows → All P g → All P (put_all rows g)
  unfolding put_all
  All-put_all [] g new old = old
  All-put_all (row ∷ rows) g new old = All-put_all rows (put row g) new.1 (All-put row g new.0 old)

-- A test that only rows of another table pass gives the same after an insertion.
module _ (p : Row → Bool) (table : Key)
    (only : (r : Row) → p r ≡ true → begins_with table (key r) ≡ true) where
  frame-row : (row old : Row) → begins_with table (key row) ≡ false → p (overwrite row old) ≡ p old
  frame-row row old h = elim (Bool-cases (same_key (key row) (key old))) [
    | inl e ↦ rw e (
        ground (
          arith,
          only row,
          only old,
          ap (λ k. begins_with table k) (same_key_sound (key row) (key old) e),
        ))
    | inr e ↦ rw e
  ]

  frame-overwrite :
      (row : Row) (g : Graph)
      → begins_with table (key row) ≡ false
      → any p (map (overwrite row) g) ≡ any p g
  unfolding any
  frame-overwrite row [] h = refl
  frame-overwrite row (r ∷ g) h = ground (arith, frame-row row r h, frame-overwrite row g h)

  frame-put :
      (row : Row) (g : Graph) → begins_with table (key row) ≡ false → any p (put row g) ≡ any p g
  frame-put row g h = elim (put-cases row g) [
    | inl e ↦ rw (e, any-append p g (row ∷ [])) (unfold any in ground (arith, only row))
    | inr (c, inl e) ↦ rw e
    | inr (c, inr e) ↦ rw e (frame-overwrite row g h)
  ]

  pub any-put_all_frame :
      (rows : List Row) (g : Graph)
      → All (λ r. begins_with table (key r) ≡ false) rows
      → any p (put_all rows g) ≡ any p g
  unfolding put_all
  any-put_all_frame [] g h = refl
  any-put_all_frame (row ∷ rows) g h = any-put_all_frame rows (put row g) h.1 ∙ frame-put row g h.0

-- A key begins with its own first columns.
pub begins_with-append : (k rest : Key) → begins_with k (k ++ rest) ≡ true
unfolding begins_with
begins_with-append [] rest = refl
begins_with-append (x ∷ k) rest = ground (arith, ==_refl x, begins_with-append k rest)

-- The set of ids of a table has the ids whose key is there.
has-id_in : (table id : Str) (k : Key) → has (id_in table k) id ≡ begins_with (table ∷ id ∷ []) k
unfolding has begins_with
has-id_in table id [] = refl
has-id_in table id (t ∷ []) = ground arith
has-id_in table id (t ∷ i ∷ rest) =
    ground (arith, ==_iff t table, ==_iff table t, ==_iff i id, ==_iff id i)

pub has-id_set :
    (table id : Str) (g : Graph) → has (id_set table g) id ≡ exists_at (table ∷ id ∷ []) g
unfolding id_set exists_at any has
has-id_set table id [] = refl
has-id_set table id (r ∷ g) = ground (
  arith,
  has-append (id_in table (key r)) (id_set table g) id,
  has-id_in table id (key r),
  has-id_set table id g,
)
