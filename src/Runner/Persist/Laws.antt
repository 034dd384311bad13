-- ===== src/Runner/Persist/Laws.antt =====
-- What an outcome does to the statistics, and what an error leaves as it was.
use fact_checker.Base.{
  sym, ap, codes, ℕ, suc, ◌+◌, List, [], ◌∷◌, ◌++◌, length, select, Str, Bool, Option, none, some,
  ◌≡◌, refl, ◌∙◌, arith, if◌then◌else◌,
}
use fact_checker.Wire.Types.{WireExtraction}
use fact_checker.Validate.Types.{Validated, Drop}
use fact_checker.Llm.Cost.{CostTracker}
use fact_checker.Runner.Types.{
  Stats, UnitOutcome, bump, record_drop, record_drops, add_count, counts_as_dropped,
}
use fact_checker.Runner.Persist.{
  Database, KnownIds, persist_outcome, after_outputs, persist_wire, end_done, end_failed,
  count_done, bump_problems, store_done, store_failed, judge,
}

-- The sum of the counts.
abbrev pub total : List (Str × ℕ) → ℕ
total [] = 0
total ((k, n) ∷ counts) = n + total counts

add_count-total :
    (counts : List (Str × ℕ)) (key : Str) (n : ℕ)
    → total (add_count counts key n) ≡ total counts + n
unfolding add_count
add_count-total [] key n = omega arith
add_count-total ((k, m) ∷ counts) key n = ground (arith, add_count-total counts key n)

length-select_cons :
    (p : Drop → Bool) (d : Drop) (drops : List Drop)
    → length (select p (d ∷ drops))
      ≡ (if p d then suc (length (select p drops)) else length (select p drops))
unfolding select
length-select_cons p d drops = ground arith

dropped_one :
    (s : Stats) (d : Drop) (n : ℕ)
    → (record_drop s d).dropped_records + n
      ≡ s.dropped_records + (if counts_as_dropped d then suc n else n)
unfolding record_drop bump
dropped_one s d n = ground arith

-- Each drop is one entry of the log, and the dropped records are the drops of a claim, an event or
-- a relationship.
pub record_drops-total :
    (s : Stats) (drops : List Drop)
    → let t = record_drops s drops in
      (total t.drop_log ≡ total s.drop_log + length drops)
      × (t.dropped_records ≡ s.dropped_records + length (select counts_as_dropped drops))
      × (t.units_done ≡ s.units_done)
      × (t.units_failed ≡ s.units_failed)
unfolding record_drops record_drop bump select
record_drops-total s [] = (omega arith, omega arith, refl, refl)
record_drops-total s (d ∷ drops) =
    let (logged, dropped, done, failed) = record_drops-total (record_drop s d) drops in
    (
      omega (arith, logged, add_count-total s.drop_log (d.kind ++ codes ":" ++ d.reason) 1),
      dropped
          ∙ dropped_one s d (length (select counts_as_dropped drops))
          ∙ ap (λ n. s.dropped_records + n) (sym (length-select_cons counts_as_dropped d drops)),
      done,
      failed,
    )

bump_problems-frame :
    (s : Stats) (problems : List Str)
    → let t = bump_problems s problems in
      (t.units_done ≡ s.units_done) × (t.units_failed ≡ s.units_failed)
unfolding bump
bump_problems-frame s [] = (refl, refl)
bump_problems-frame s (p ∷ problems) = bump_problems-frame (bump s (codes "parse:" ++ p)) problems

-- The accounts of one outcome: it is done or failed when it is persisted, and otherwise nothing has
-- changed for the units that come.
pub record Accounts (before after : Stats) (known later : KnownIds) (error : Option Str)
    : Type 0 where
  pub persisted :
      error ≡ none
      → after.units_done + after.units_failed ≡ suc (before.units_done + before.units_failed)
  pub broken :
      (e : Str)
      → error ≡ some e
      → (after.units_done ≡ before.units_done)
        × (after.units_failed ≡ before.units_failed)
        × (later ≡ known)

count_done-frame :
    (s : Stats) (v : Validated)
    → ((count_done s v).units_done ≡ suc s.units_done)
      × ((count_done s v).units_failed ≡ s.units_failed)
unfolding count_done
count_done-frame s v =
    let (logged, dropped, done, failed) = record_drops-total _ v.drops in (done, failed)

end_failed-Accounts :
    {F W : Type 0} (s : Stats) (t : CostTracker F) (known : KnownIds) (p : Option Str × W)
    → let r = end_failed s t known p in Accounts s r.stats known r.known r.error
end_failed-Accounts s t known (none, w) = record {
  persisted = λ h. omega arith;
  broken = λ e h. cc;
}
end_failed-Accounts s t known (some e, w) = record {
  persisted = λ h. cc;
  broken = λ m h. (refl, refl, refl);
}

end_done-Accounts :
    {F W : Type 0} (s : Stats) (t : CostTracker F) (known : KnownIds) (v : Validated)
    (p : Option Str × W)
    → let r = end_done s t known v p in Accounts s r.stats known r.known r.error
end_done-Accounts s t known v (none, w) =
    let (done, failed) = count_done-frame s v in
    record { persisted = λ h. omega (arith, done, failed); broken = λ e h. cc }
end_done-Accounts s t known v (some e, w) = record {
  persisted = λ h. cc;
  broken = λ m h. (refl, refl, refl);
}

Accounts-from :
    {before start after : Stats} {known later : KnownIds} {error : Option Str}
    → start.units_done ≡ before.units_done
    → start.units_failed ≡ before.units_failed
    → Accounts start after known later error
    → Accounts before after known later error
Accounts-from d f a = record {
  persisted = λ h. omega (arith, a.persisted h, d, f);
  broken = λ e h. let (done, failed, same) = a.broken e h in (done ∙ d, failed ∙ f, same);
}

module _ {F W : Type 0} (db : Database W) where
  persist_wire-Accounts :
      (o : UnitOutcome) (s : Stats) (t : CostTracker F) (known : KnownIds)
      (wire : Option WireExtraction) (w : W)
      → let r = persist_wire db o s t known wire w in Accounts s r.stats known r.known r.error
  persist_wire-Accounts o s t known none w = end_failed-Accounts s t known (store_failed db o w)
  persist_wire-Accounts o s t known (some wire) w =
      let (done, failed) = bump_problems-frame s o.problems in
      let v = judge o known wire in
      Accounts-from done failed
        (end_done-Accounts (bump_problems s o.problems) t known v (store_done db o v w))

  after_outputs-Accounts :
      (o : UnitOutcome) (s : Stats) (known : KnownIds) (p : CostTracker F × (Option Str × W))
      → let r = after_outputs db o s known p in Accounts s r.stats known r.known r.error
  after_outputs-Accounts o s known (t, (none, w)) = persist_wire-Accounts o s t known o.wire w
  after_outputs-Accounts o s known (t, (some e, w)) = record {
    persisted = λ h. cc;
    broken = λ m h. (refl, refl, refl);
  }

  -- An outcome that is persisted counts as one unit more, done or failed. When an operation of the
  -- database fails, no unit is counted as done or as failed, and the known ids, against which
  -- later units resolve their references, stay as they were.
  pub persist_outcome-Accounts :
      (s : Stats) (t : CostTracker F) (known : KnownIds) (o : UnitOutcome) (w : W)
      → let r = persist_outcome db s t known o w in Accounts s r.stats known r.known r.error
  unfolding persist_outcome
  persist_outcome-Accounts s t known o w =
      Accounts-from refl refl (after_outputs-Accounts o _ known _)
