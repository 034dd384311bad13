-- ===== src/Runner/Persist/Ledgered.antt =====
-- What an outcome that is persisted leaves in the ledger. The database is known by what its
-- operations do to the table extraction_units.
use fact_checker.Base.{
  List, [], ◌∷◌, ◌≡◌, refl, sym, ◌∙◌, ap, Str, codes, ◌==◌, Option, none, some, ℕ, lookup,
  if◌then◌else◌,
}
use fact_checker.Extract.{WorkUnit}
use fact_checker.Wire.Types.{WireExtraction}
use fact_checker.Validate.Types.{Validated, Drop, record_counts}
use fact_checker.Llm.Types.{Response}
use fact_checker.Llm.Cost.{CostTracker}
use fact_checker.Runner.Types.{Stats, UnitOutcome}
use fact_checker.Runner.Plan.{LedgerRow}
use fact_checker.Runner.Persist.{
  Database, KnownIds, judge, persist_outcome, after_outputs, persist_wire, end_done, end_failed,
  write_outputs, store_done, store_failed, bump_problems, ◌and_then◌,
}
use fact_checker.Runner.Persist.Keeps.{and_then-none}
use fact_checker.Ledger.{Table, finish_ledger_row, ledger_state}
use fact_checker.Ledger.Laws.{after, finish_ledger_row-state}

-- The ledger that a transaction sees, and what the operations do to it when they succeed.
pub record HasLedger (W : Type 0) (db : Database W) : Type 0 where
  pub ledger : W → Table
  pub now : W → ℕ
  pub begin : (w : W) → ledger (db.begin w).1 ≡ ledger w
  pub write_model_output :
      (u : WorkUnit) (r : Response) (w : W) → ledger (db.write_model_output u r w).1 ≡ ledger w
  pub load_records : (v : Validated) (w : W) → ledger (db.load_records v w).1 ≡ ledger w
  pub commit : (w : W) → ledger (db.commit w).1 ≡ ledger w
  pub finish :
      (u : WorkUnit) (status : Str) (counts : List (Str × ℕ)) (drops : List Drop) (e : Str) (w : W)
      → (db.finish_ledger_row u status counts drops e w).0 ≡ none
      → ledger (db.finish_ledger_row u status counts drops e w).1
        ≡ finish_ledger_row u status counts drops e (now w) (ledger w)

-- The status of a unit, by the extraction of its outcome.
abbrev pub status_of : Option WireExtraction → Str
status_of none = codes "failed"
status_of (some wire) = codes "done"

-- The entry of a key after the unit has the status.
abbrev pub with_status : WorkUnit → Str → Str → Option LedgerRow → Option LedgerRow
with_status unit status k entry =
    if unit.unit_key == k
    then after (λ (row : LedgerRow). record row { status = status }) entry
    else entry

module _ {W : Type 0} (db : Database W) (seen : HasLedger W db) (k : Str) where
  abbrev entry : W → Option LedgerRow
  entry w = lookup k (ledger_state (seen.ledger w))

  committed :
      (p : Option Str × W)
      → (p and_then db.commit).0 ≡ none
      → (p.0 ≡ none) × (entry (p and_then db.commit).1 ≡ entry p.1)
  committed p h =
      let (done, same) = and_then-none p db.commit h in
      (done, ap (λ q. entry q.1) same ∙ ap (λ t. lookup k (ledger_state t)) (seen.commit p.1))

  finished :
      (u : WorkUnit) (status : Str) (counts : List (Str × ℕ)) (drops : List Drop) (e : Str) (w : W)
      → (db.finish_ledger_row u status counts drops e w).0 ≡ none
      → entry (db.finish_ledger_row u status counts drops e w).1 ≡ with_status u status k (entry w)
  finished u status counts drops e w h =
      ap (λ t. lookup k (ledger_state t)) (seen.finish u status counts drops e w h)
      ∙ finish_ledger_row-state u status counts drops e (seen.now w) (seen.ledger w) k

  failed :
      (o : UnitOutcome) (w : W)
      → (store_failed db o w).0 ≡ none
      → entry (store_failed db o w).1 ≡ with_status o.job.unit (codes "failed") k (entry w)
  failed o w h =
      let finish = db.finish_ledger_row o.job.unit (codes "failed") [] [] o.error w in
      let (done, same) = committed finish h in
      same ∙ finished o.job.unit (codes "failed") [] [] o.error w done

  stored :
      (o : UnitOutcome) (v : Validated) (w : W)
      → (store_done db o v w).0 ≡ none
      → entry (store_done db o v w).1 ≡ with_status o.job.unit (codes "done") k (entry w)
  stored o v w h =
      let finish = db.finish_ledger_row o.job.unit (codes "done") (record_counts v) v.drops [] in
      let loaded = db.load_records v w in
      let (both, same) = committed (loaded and_then finish) h in
      let (one, two) = and_then-none loaded finish both in
      same
      ∙ ap (λ q. entry q.1) two
      ∙ finished o.job.unit (codes "done") (record_counts v) v.drops [] loaded.1
          (sym (ap (λ q. q.0) two) ∙ both)
      ∙ ap (λ t. with_status o.job.unit (codes "done") k (lookup k (ledger_state t)))
          (seen.load_records v w)

  module _ {F : Type 0} where
    outputs_written :
        (u : WorkUnit) (rs : List Response) (t : CostTracker F) (p : Option Str × W)
        → entry (write_outputs db u rs t p).1.1 ≡ entry p.1
    outputs_written u rs t (some e, w) = refl
    outputs_written u [] t (none, w) = refl
    outputs_written u (r ∷ rs) t (none, w) =
        outputs_written u rs _ (db.write_model_output u r w)
        ∙ ap (λ l. lookup k (ledger_state l)) (seen.write_model_output u r w)

    failed_end :
        (s : Stats) (t : CostTracker F) (known : KnownIds) (p : Option Str × W)
        → let r = end_failed s t known p in (r.error ≡ p.0) × (r.world ≡ p.1)
    failed_end s t known (none, w) = (refl, refl)
    failed_end s t known (some e, w) = (refl, refl)

    done_end :
        (s : Stats) (t : CostTracker F) (known : KnownIds) (v : Validated) (p : Option Str × W)
        → let r = end_done s t known v p in (r.error ≡ p.0) × (r.world ≡ p.1)
    done_end s t known v (none, w) = (refl, refl)
    done_end s t known v (some e, w) = (refl, refl)

    wire_ledgered :
        (o : UnitOutcome) (s : Stats) (t : CostTracker F) (known : KnownIds)
        (wire : Option WireExtraction) (w : W)
        → let r = persist_wire db o s t known wire w in
          r.error ≡ none → entry r.world ≡ with_status o.job.unit (status_of wire) k (entry w)
    wire_ledgered o s t known none w h =
        let (e, there) = failed_end s t known (store_failed db o w) in
        ap entry there ∙ failed o w (sym e ∙ h)
    wire_ledgered o s t known (some wire) w h =
        let v = judge o known wire in
        let (e, there) = done_end (bump_problems s o.problems) t known v (store_done db o v w) in
        ap entry there ∙ stored o v w (sym e ∙ h)

    after_ledgered :
        (o : UnitOutcome) (s : Stats) (known : KnownIds) (p : CostTracker F × (Option Str × W))
        → let r = after_outputs db o s known p in
          r.error ≡ none → entry r.world ≡ with_status o.job.unit (status_of o.wire) k (entry p.1.1)
    after_ledgered o s known (t, (none, w)) h = wire_ledgered o s t known o.wire w h
    after_ledgered o s known (t, (some e, w)) h = cc

    -- When an outcome is persisted, its unit has the status "done" in the ledger with an
    -- extraction and "failed" without one, if the ledger has the unit, and no other unit's entry
    -- changes.
    pub persist_outcome-status :
        (s : Stats) (t : CostTracker F) (known : KnownIds) (o : UnitOutcome) (w : W)
        → let r = persist_outcome db s t known o w in
          r.error ≡ none → entry r.world ≡ with_status o.job.unit (status_of o.wire) k (entry w)
    unfolding persist_outcome
    persist_outcome-status s t known o w h =
        after_ledgered o _ known _ h
        ∙ ap (with_status o.job.unit (status_of o.wire) k) (
            outputs_written o.job.unit o.responses t (db.begin w)
            ∙ ap (λ l. lookup k (ledger_state l)) (seen.begin w))
