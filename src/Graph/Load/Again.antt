-- ===== src/Graph/Load/Again.antt =====
-- Loading records a second time.
use fact_checker.Base.{
  All-every, All-both, All-of_map, ||-false, ||-false, List, [], ◌∷◌, map, any, ◌≡◌, refl, sym, ◌∙◌,
  ap, true, false, ◌&&◌, ◌||◌, inl, inr, Bool-cases, &&-true, All, All-map, All-snoc, arith,
}
use fact_checker.Validate.Types.{Validated}
use fact_checker.Graph.Rows.{Row, Graph, key, same_key, conflicts, put, put_all}
use fact_checker.Graph.Rows.Laws.{same_key_sound, any-put}
use fact_checker.Graph.Load.{rows_of, load_records}
use fact_checker.Graph.Load.Rewrite.{
  is_version, rewrite_one, rewrite, hits, same_key_refl, map_of_same, put-there, put-fresh,
  rewrite_one-hit, rewrite_one-miss, rewrite-hit, rewrite-miss,
}

abbrev IsOnly : Row → Row → Type 0
IsOnly x r = key r ≡ key x → r ≡ x

module _ (x : Row) where
  rewrite_one-IsOnly :
      (row r : Row)
      → (is_version row && same_key (key row) (key x)) ≡ false
      → IsOnly x r
      → IsOnly x (rewrite_one row r)
  rewrite_one-IsOnly row r miss only =
      elim (Bool-cases (is_version row && same_key (key row) (key r))) [
        | inl e ↦
            rw e (λ same.
              absurd (hit (&&-true (is_version row) (same_key (key row) (key r)) e).0 same))
        | inr e ↦ rw e only
      ]
    where
      hit : is_version row ≡ true → key row ≡ key x → ⊥
      hit v same = ground (arith, ap (λ k. same_key k (key x)) same, same_key_refl (key x))

  put-IsOnly :
      (row : Row) (g : Graph)
      → conflicts x g ≡ true
      → (is_version row && same_key (key row) (key x)) ≡ false
      → All (IsOnly x) g
      → All (IsOnly x) (put row g)
  put-IsOnly row g there miss only = elim (Bool-cases (conflicts row g)) [
    | inl e ↦ rw (put-there row g e) (
        All-of_map (IsOnly x) (IsOnly x) (rewrite_one row) (λ r o. rewrite_one-IsOnly row r miss o)
          g only)
    | inr e ↦
        rw (put-fresh row g e) (All-snoc (IsOnly x) g row only (λ same. absurd (fresh e same)))
  ]
    where
      fresh : conflicts row g ≡ false → key row ≡ key x → ⊥
      fresh e same = ground (arith, ap (λ k. any (λ r. same_key k (key r)) g) same)

  rows-IsOnly :
      (rows : List Row) (g : Graph)
      → conflicts x g ≡ true
      → hits (key x) rows ≡ false
      → All (IsOnly x) g
      → All (IsOnly x) (put_all rows g)
  unfolding put_all
  rows-IsOnly [] g there h only = only
  rows-IsOnly (row ∷ rows) g there h only =
      let (miss, later) =
        ||-false (is_version row && same_key (key row) (key x)) (hits (key x) rows) h in
      rows-IsOnly rows (put row g) (ground (arith, any-put (λ k. same_key (key x) k) row g)) later
        (put-IsOnly row g there miss only)

-- After a version is put, it is the only row of its key.
module _ (x : Row) (v : is_version x ≡ true) where
  differs : (r : Row) → same_key (key x) (key r) ≡ false → key r ≡ key x → ⊥
  differs r e same = ground (arith, ap (λ k. same_key (key x) k) same, same_key_refl (key x))

  overwritten_one : (r : Row) → IsOnly x (rewrite_one x r)
  overwritten_one r = elim (Bool-cases (same_key (key x) (key r))) [
    | inl e ↦ rw (rewrite_one-hit x r v e) (λ same. refl)
    | inr e ↦ rw (v, e) (λ same. absurd (differs r e same))
  ]

  overwritten : (g : Graph) → All (IsOnly x) (map (rewrite_one x) g)
  overwritten [] = tt
  overwritten (r ∷ g) = (overwritten_one r, overwritten g)

  none_there : (g : Graph) → conflicts x g ≡ false → All (IsOnly x) g
  unfolding any
  none_there [] e = tt
  none_there (r ∷ g) e =
      let (here, later) = ||-false (same_key (key x) (key r)) (conflicts x g) e in
      ((λ same. absurd (differs r here same)), none_there g later)

  put_self : (g : Graph) → All (IsOnly x) (put x g)
  put_self g = elim (Bool-cases (conflicts x g)) [
    | inl e ↦ rw (put-there x g e) (overwritten g)
    | inr e ↦ rw (put-fresh x g e) (All-snoc (IsOnly x) g x (none_there g e) (λ same. refl))
  ]

conflicts-put :
    (x row : Row) (g : Graph)
    → conflicts x (put row g) ≡ (conflicts x g || same_key (key x) (key row))
conflicts-put x row g = any-put (λ k. same_key (key x) k) row g

-- A row is settled under rows that do not change it.
abbrev IsSettled : List Row → Row → Type 0
IsSettled rows r = rewrite rows r ≡ r

IsSettled-one :
    (x : Row) (rows : List Row) (r : Row)
    → (hits (key x) rows ≡ false → is_version x ≡ true → IsOnly x r)
    → IsSettled rows r
    → IsSettled (x ∷ rows) r
IsSettled-one x rows r only h = elim (Bool-cases (is_version x && same_key (key x) (key r))) [
  | inl e ↦
      let (v, s) = &&-true (is_version x) (same_key (key x) (key r)) e in
      rw (rewrite_one-hit x r v s) (same v (same_key_sound (key x) (key r) s))
  | inr e ↦ rw (rewrite_one-miss x r e) h
]
  where
    same : is_version x ≡ true → key x ≡ key r → rewrite rows x ≡ r
    same v k = elim (Bool-cases (hits (key x) rows)) [
      | inl m ↦ rewrite-hit (key x) rows x r refl (sym k) m ∙ h
      | inr m ↦ rewrite-miss (key x) rows x refl m ∙ sym (only m v (sym k))
    ]

IsOnly-one :
    (x : Row) (rows : List Row) (g : Graph)
    → All
        (λ r. hits (key x) rows ≡ false → is_version x ≡ true → IsOnly x r)
        (put_all rows (put x g))
IsOnly-one x rows g = elim (Bool-cases (hits (key x) rows)) [
  | inl m ↦ All-every _ (λ r n. cc) (put_all rows (put x g))
  | inr m ↦ elim (Bool-cases (is_version x)) [
    | inl v ↦
        All-map (IsOnly x) _ (λ r o n w. o) (put_all rows (put x g))
          (rows-IsOnly x rows (put x g) (ground (arith, conflicts-put x x g, same_key_refl (key x)))
            m (put_self x v g))
    | inr v ↦ All-every _ (λ r n w. cc) (put_all rows (put x g))
  ]
]

-- After rows are put, putting them again changes no row.
put_all-IsSettled : (rows : List Row) (g : Graph) → All (IsSettled rows) (put_all rows g)
unfolding put_all
put_all-IsSettled [] g = All-every (IsSettled []) (λ r. refl) g
put_all-IsSettled (x ∷ rows) g =
    All-map (λ r. (hits (key x) rows ≡ false → is_version x ≡ true → IsOnly x r) × IsSettled rows r)
      (IsSettled (x ∷ rows)) (λ r h. IsSettled-one x rows r h.0 h.1) (put_all rows (put x g))
      (All-both _ (IsSettled rows) (put_all rows (put x g)) (IsOnly-one x rows g)
        (put_all-IsSettled rows (put x g)))

conflicts-put_all :
    (x : Row) (rows : List Row) (g : Graph)
    → conflicts x g ≡ true
    → conflicts x (put_all rows g) ≡ true
unfolding put_all
conflicts-put_all x [] g h = h
conflicts-put_all x (row ∷ rows) g h =
    conflicts-put_all x rows (put row g) (ground (arith, conflicts-put x row g))

put_all-conflicts :
    (rows : List Row) (g : Graph) → All (λ r. conflicts r (put_all rows g) ≡ true) rows
unfolding put_all
put_all-conflicts [] g = tt
put_all-conflicts (x ∷ rows) g = (
  conflicts-put_all x rows (put x g) (ground (arith, conflicts-put x x g, same_key_refl (key x))),
  put_all-conflicts rows (put x g),
)

map-map : (f h : Row → Row) (g : Graph) → map f (map h g) ≡ map (λ r. f (h r)) g
map-map f h [] = refl
map-map f h (r ∷ g) = ap (λ xs. f (h r) ∷ xs) (map-map f h g)

-- Where every key is there, rows only rewrite.
put_all-there :
    (rows : List Row) (g : Graph)
    → All (λ r. conflicts r g ≡ true) rows
    → put_all rows g ≡ map (rewrite rows) g
unfolding put_all
put_all-there [] g h = sym (map_of_same (rewrite []) g (All-every _ (λ r. refl) g))
put_all-there (x ∷ rows) g h =
    put_all-there rows (put x g)
      (All-map _ _ (λ r c. ground (arith, conflicts-put r x g, c)) rows h.1)
    ∙ ap (map (rewrite rows)) (put-there x g h.0)
    ∙ map-map (rewrite rows) (rewrite_one x) g

-- Loading the same records a second time leaves every row of every table as it is.
pub load_records-again :
    (v : Validated) (g : Graph) → load_records v (load_records v g) ≡ load_records v g
unfolding load_records
load_records-again v g =
    put_all-there (rows_of v) (put_all (rows_of v) g) (put_all-conflicts (rows_of v) g)
    ∙ map_of_same (rewrite (rows_of v)) (put_all (rows_of v) g) (put_all-IsSettled (rows_of v) g)
