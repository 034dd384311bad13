-- ===== src/Graph/Sound/Included.antt =====
-- That every key of some rows is in a graph, for the parts of the rows that `LoadRecords` inserts.
use fact_checker.Base.{
  ◌==◌, ||-true, List, [], ◌∷◌, ◌++◌, map, ◌≡◌, true, Str, has, any, All, All-append, ==_sound, inl,
  inr, ◌==◌, ||-true, subst, arith,
}
use fact_checker.Graph.Rows.{Row, Graph, Key, key, begins_with, exists_at}
use fact_checker.Graph.Rows.Laws.{any-append}
use fact_checker.Graph.Load.{concat_map}

-- Every key of the rows is in the graph.
abbrev pub Included : List Row → Graph → Type 0
Included rows g = (k : Key) → exists_at k rows ≡ true → exists_at k g ≡ true

module _ (g : Graph) where
  pub Included-front : (xs ys : List Row) → Included (xs ++ ys) g → Included xs g
  unfolding exists_at
  Included-front xs ys h k e = h k (ground (arith, any-append (λ r. begins_with k (key r)) xs ys))

  pub Included-back : (xs ys : List Row) → Included (xs ++ ys) g → Included ys g
  unfolding exists_at
  Included-back xs ys h k e = h k (ground (arith, any-append (λ r. begins_with k (key r)) xs ys))

  pub Included-first :
      (r : Row) (rows : List Row)
      → Included (r ∷ rows) g
      → (k : Key) → begins_with k (key r) ≡ true
      → exists_at k g ≡ true
  unfolding exists_at any
  Included-first r rows h k e = h k (ground arith)

  pub Included-rest : (r : Row) (rows : List Row) → Included (r ∷ rows) g → Included rows g
  unfolding exists_at any
  Included-rest r rows h k e = h k (ground arith)

  pub Included-map {ℓ} :
      {A : Type ℓ} (f : A → Row) (xs : List A)
      → Included (map f xs) g
      → All (λ x. (k : Key) → begins_with k (key (f x)) ≡ true → exists_at k g ≡ true) xs
  Included-map f [] h = tt
  Included-map f (x ∷ xs) h =
      (Included-first (f x) (map f xs) h, Included-map f xs (Included-rest (f x) (map f xs) h))

  pub Included-concat_map {ℓ} :
      {A : Type ℓ} (f : A → List Row) (xs : List A)
      → Included (concat_map f xs) g
      → All (λ x. Included (f x) g) xs
  Included-concat_map f [] h = tt
  Included-concat_map f (x ∷ xs) h = (
    Included-front (f x) (concat_map f xs) h,
    Included-concat_map f xs (Included-back (f x) (concat_map f xs) h),
  )

-- What holds of the id of every element holds of every string in the list of the ids.
pub has-All {ℓ κ} :
    {A : Type ℓ} (P : Str → Type κ) (id_of : A → Str) (xs : List A) (id : Str)
    → All (λ x. P (id_of x)) xs
    → has (map id_of xs) id ≡ true
    → P id
unfolding has
has-All P id_of [] id h m = cc
has-All P id_of (x ∷ xs) id h m = elim (||-true (id_of x == id) (has (map id_of xs) id) m) [
  | inl e ↦ subst P (==_sound (id_of x) id e) (h.0)
  | inr e ↦ has-All P id_of xs id h.1 e
]

-- What holds of the rows of every element holds of all rows.
pub All-concat_map {ℓ κ μ} :
    {A : Type ℓ} {B : Type κ} (P : B → Type μ) (Q : A → Type μ) (f : A → List B)
    → ((x : A) → Q x → All P (f x))
    → (xs : List A) → All Q xs
    → All P (concat_map f xs)
All-concat_map P Q f keep [] h = tt
All-concat_map P Q f keep (x ∷ xs) h =
    All-append P (f x) (concat_map f xs) (keep x h.0) (All-concat_map P Q f keep xs h.1)

-- What holds of the row, or the rows, that any element gives.
pub All-every_row {ℓ κ μ} :
    {A : Type ℓ} {B : Type κ} (P : B → Type μ) (f : A → B)
    → ((x : A) → P (f x))
    → (xs : List A) → All P (map f xs)
All-every_row P f h [] = tt
All-every_row P f h (x ∷ xs) = (h x, All-every_row P f h xs)

pub All-every_rows {ℓ κ μ} :
    {A : Type ℓ} {B : Type κ} (P : B → Type μ) (f : A → List B)
    → ((x : A) → All P (f x))
    → (xs : List A) → All P (concat_map f xs)
All-every_rows P f h [] = tt
All-every_rows P f h (x ∷ xs) = All-append P (f x) (concat_map f xs) (h x) (All-every_rows P f h xs)
