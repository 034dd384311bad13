-- ===== src/Validate/Drops.antt =====
-- How many entries of a kind the drop log holds.
use fact_checker.Base.{
  ℕ, suc, ◌+◌, List, [], ◌∷◌, ◌++◌, map, ◌≡◌, refl, false, Str, ◌==◌, codes, arith, if◌then◌else◌,
}
use fact_checker.Wire.Types.{WireCitation}
use fact_checker.Validate.Types.{Drop, add_drop}
use fact_checker.Validate.Citations.{Allowed, filter_citations}
use fact_checker.Validate.Citations.Contract.{rejection, filter_citations_lem}

unfoldable pub count_kind : Str → List Drop → ℕ
count_kind k [] = 0
count_kind k (d ∷ ds) = let n = count_kind k ds in if d.kind == k then suc n else n

pub count_kind-append :
    (k : Str) (ds es : List Drop) → count_kind k (ds ++ es) ≡ count_kind k ds + count_kind k es
unfolding count_kind
count_kind-append k [] es = omega arith
count_kind-append k (d ∷ ds) es = ground (arith, count_kind-append k ds es)

pub count_kind-add_drop :
    (k : Str) (ds : List Drop) (kind ref reason : Str)
    → count_kind k (add_drop ds kind ref reason)
      ≡ (if kind == k then suc (count_kind k ds) else count_kind k ds)
unfolding count_kind
count_kind-add_drop k ds kind ref reason =
    ground
      (arith, count_kind-append k ds ((record { kind = kind; ref = ref; reason = reason }) ∷ []))

count_kind-rejections :
    (k owner : Str) (allowed : Allowed) (ws : List WireCitation)
    → (codes "citation" == k) ≡ false
    → count_kind k (map (rejection owner allowed) ws) ≡ 0
unfolding count_kind
count_kind-rejections k owner allowed [] h = refl
count_kind-rejections k owner allowed (w ∷ ws) h = rw h (count_kind-rejections k owner allowed ws h)

-- The entries of `filterCitations` are all of the kind "citation".
pub count_kind-filter_citations :
    (k : Str) (ws : List WireCitation) (allowed : Allowed) (ds : List Drop) (owner : Str)
    → (codes "citation" == k) ≡ false
    → count_kind k (filter_citations ws allowed ds owner).1 ≡ count_kind k ds
count_kind-filter_citations k ws allowed ds owner h =
    rw (filter_citations_lem owner allowed ws ds) (
      omega (
        arith,
        count_kind-append k ds (map (rejection owner allowed) _),
        count_kind-rejections k owner allowed _ h,
      ))
