-- ===== src/Validate/Citations/Citeable.antt =====
-- A citation whose source a unit offers, with every locator key that the offers demand.
use fact_checker.Base.{
  List, [], ◌∷◌, ◌≡◌, ◌↔◌, refl, Bool, true, not, ◌&&◌, ◌||◌, Str, ◌==◌, ==_iff, has, keys, is_key,
  all, arith, Bool-cases, inl, inr,
}
use fact_checker.Extract.{AnyMap, Citation, WorkUnit}
use fact_checker.Validate.Citations.Surface.{Offer, offers, offered, demanded}

-- The citation's source is offered by the unit, and its locator has every key that an offer of
-- that source has.
pub record IsCiteable (u : WorkUnit) (c : Citation) : Type 0 where
  pub known : offered c.source_id (offers u) ≡ true
  pub located : (k : Str) → demanded c.source_id k (offers u) ≡ true → is_key k c.locator ≡ true

-- The same as a test over the offers.
abbrev pub carries : AnyMap → List Str → Bool
carries locator ks = all (λ k. is_key k locator) ks

abbrev fits : Citation → Offer → Bool
fits c (s, l) = not (s == c.source_id) || carries c.locator (keys l)

pub is_citeable : WorkUnit → Citation → Bool
is_citeable u c = offered c.source_id (offers u) && all (fits c) (offers u)

pub carries-has :
    (locator : AnyMap) (ks : List Str) (k : Str)
    → carries locator ks ≡ true
    → has ks k ≡ true
    → is_key k locator ≡ true
unfolding all has
carries-has locator [] k h m = cc
carries-has locator (j ∷ ks) k h m = ground (arith, carries-has locator ks k, ==_iff j k)

pub carries_of_has :
    (locator : AnyMap) (ks : List Str)
    → ((k : Str) → has ks k ≡ true → is_key k locator ≡ true)
    → carries locator ks ≡ true
unfolding all has
carries_of_has locator [] h = refl
carries_of_has locator (j ∷ ks) h =
    ground (arith, h j, ==_iff j j, carries_of_has locator ks (λ k m. h k (ground (arith, m))))

all-fits-demanded :
    (c : Citation) (os : List Offer) (k : Str)
    → all (fits c) os ≡ true
    → demanded c.source_id k os ≡ true
    → is_key k c.locator ≡ true
unfolding all demanded is_key
all-fits-demanded c [] k h m = cc
all-fits-demanded c ((s, l) ∷ os) k h m =
    ground (arith, all-fits-demanded c os k, carries-has c.locator (keys l) k)

demanded_later :
    (id k : Str) (o : Offer) (os : List Offer)
    → demanded id k os ≡ true
    → demanded id k (o ∷ os) ≡ true
unfolding demanded
demanded_later id k (s, l) os m = ground arith

demanded_here :
    (id k : Str) (l : AnyMap) (s : Str) (os : List Offer)
    → (s == id) ≡ true
    → has (keys l) k ≡ true
    → demanded id k ((s, l) ∷ os) ≡ true
unfolding demanded is_key
demanded_here id k l s os e m = ground arith

fits_of_carries :
    (c : Citation) (s : Str) (l : AnyMap)
    → ((s == c.source_id) ≡ true → carries c.locator (keys l) ≡ true)
    → fits c (s, l) ≡ true
fits_of_carries c s l h = elim (Bool-cases (s == c.source_id)) [ inl e ↦ rw e (h e) | inr e ↦ rw e ]

all-fits_of_demanded :
    (c : Citation) (os : List Offer)
    → ((k : Str) → demanded c.source_id k os ≡ true → is_key k c.locator ≡ true)
    → all (fits c) os ≡ true
unfolding all
all-fits_of_demanded c [] h = refl
all-fits_of_demanded c ((s, l) ∷ os) h = ground (
  arith,
  all-fits_of_demanded c os (λ k m. h k (demanded_later c.source_id k (s, l) os m)),
  fits_of_carries c s l (λ e.
      carries_of_has c.locator (keys l) (λ k m. h k (demanded_here c.source_id k l s os e m))),
)

pub is_citeable_iff : (u : WorkUnit) (c : Citation) → (is_citeable u c ≡ true) ↔ IsCiteable u c
unfolding is_citeable
is_citeable_iff u c = (forth, back)
  where
    forth : is_citeable u c ≡ true → IsCiteable u c
    forth h = record {
      known = ground arith;
      located = λ k m. all-fits-demanded c (offers u) k (ground arith) m;
    }

    back : IsCiteable u c → is_citeable u c ≡ true
    back h = ground (arith, h.known, all-fits_of_demanded c (offers u) h.located)
