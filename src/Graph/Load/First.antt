-- ===== src/Graph/Load/First.antt =====
-- The first write wins: the rows that were there before.
use fact_checker.Base.{
  List, [], ◌∷◌, ◌++◌, map, select, select-append, append-nil, append_assoc, ◌≡◌, refl, sym, ◌∙◌,
  ap, true, not, ◌&&◌, inl, inr, Bool, Bool-cases, &&-true, ◌==◌,
}
use fact_checker.Validate.Types.{Validated}
use fact_checker.Graph.Rows.{Row, version_row, Graph, key, same_key, conflicts, put, put_all}
use fact_checker.Graph.Load.{rows_of, load_records}
use fact_checker.Graph.Load.Rewrite.{is_version, rewrite_one, put-there, put-fresh}

-- A version conflicts only with a version.
same_key-is_version :
    (row old : Row)
    → is_version row ≡ true
    → same_key (key row) (key old) ≡ true
    → is_version old ≡ true
unfolding same_key key ◌==◌
same_key-is_version (version_row claim label statement) (version_row claim' label' statement') v h =
    refl
same_key-is_version (version_row claim label statement) old v h = cc
same_key-is_version row old v h = cc

-- The rows of all tables but the claim versions.
abbrev pub is_fixed : Row → Bool
is_fixed row = not (is_version row)

fixed-rewrite_one :
    (row : Row) (g : Graph) → select is_fixed (map (rewrite_one row) g) ≡ select is_fixed g
unfolding select
fixed-rewrite_one row [] = refl
fixed-rewrite_one row (old ∷ g) =
    elim (Bool-cases (is_version row && same_key (key row) (key old))) [
      | inl e ↦
          let (v, s) = &&-true (is_version row) (same_key (key row) (key old)) e in
          rw (e, v, same_key-is_version row old v s) (fixed-rewrite_one row g)
      | inr e ↦ rw (e, fixed-rewrite_one row g)
    ]

fixed-put :
    (row : Row) (g : Graph)
    → (new : Graph) × (select is_fixed (put row g) ≡ select is_fixed g ++ new)
fixed-put row g = elim (Bool-cases (conflicts row g)) [
  | inl e ↦ (
    [],
    ap (select is_fixed) (put-there row g e)
        ∙ fixed-rewrite_one row g
        ∙ sym (append-nil (select is_fixed g)),
  )
  | inr e ↦ (
    select is_fixed (row ∷ []),
    ap (select is_fixed) (put-fresh row g e) ∙ select-append is_fixed g (row ∷ []),
  )
]

fixed-put_all :
    (rows : List Row) (g : Graph)
    → (new : Graph) × (select is_fixed (put_all rows g) ≡ select is_fixed g ++ new)
unfolding put_all
fixed-put_all [] g = ([], sym (append-nil (select is_fixed g)))
fixed-put_all (row ∷ rows) g =
    let (new, put_one) = fixed-put row g in
    let (more, put_rest) = fixed-put_all rows (put row g) in
    (
      new ++ more,
      put_rest ∙ ap (λ rs. rs ++ more) put_one ∙ append_assoc (select is_fixed g) new more,
    )

-- The first write wins: of all tables but the claim versions, the rows that were there before the
-- records are loaded stay as they were and in their order, and new rows come after them.
pub load_records-first_wins :
    (v : Validated) (g : Graph)
    → (new : Graph) × (select is_fixed (load_records v g) ≡ select is_fixed g ++ new)
unfolding load_records
load_records-first_wins v g = fixed-put_all (rows_of v) g
