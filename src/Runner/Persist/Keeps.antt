-- ===== src/Runner/Persist/Keeps.antt =====
-- The outcomes of a run, persisted one after the other into a graph: extract/runner.go over
-- extract/loader.go. The database is known by what its operations do to the tables.
use fact_checker.Base.{
  List, [], ◌∷◌, map, ◌≡◌, refl, ◌∙◌, true, Str, codes, has, has-append, Option, none, some, ℕ,
  arith,
}
use fact_checker.Extract.{WorkUnit}
use fact_checker.Wire.Types.{WireExtraction}
use fact_checker.Validate.Types.{Validated, Drop, record_counts}
use fact_checker.Validate.Whole.{validate}
use fact_checker.Llm.Types.{Response}
use fact_checker.Llm.Cost.{CostTracker}
use fact_checker.Runner.Types.{Stats, UnitOutcome}
use fact_checker.Runner.Persist.{
  Database, KnownIds, context_of, learn, judge, persist_outcome, after_outputs, persist_wire,
  end_done, end_failed, write_outputs, store_done, store_failed, bump_problems, ◌and_then◌,
}
use fact_checker.Graph.Rows.{Graph, id_set}
use fact_checker.Graph.Rows.Laws.{has-id_set}
use fact_checker.Graph.Load.{load_records}
use fact_checker.Graph.Sound.Findings.{HasNoFinding}
use fact_checker.Graph.Sound.Locators.{covers}
use fact_checker.Graph.Sound.Present.{entity_there, event_there, claim_there}
use fact_checker.Graph.Sound.Kept.{HasNames, IsOf, load_records-Holds, load_records-HasNoFinding}

-- The graph's tables that a transaction sees, and what the operations do to them when they succeed.
pub record HasTables (W : Type 0) (db : Database W) : Type 0 where
  pub tables : W → Graph
  pub begin : (w : W) → tables (db.begin w).1 ≡ tables w
  pub write_model_output :
      (u : WorkUnit) (r : Response) (w : W) → tables (db.write_model_output u r w).1 ≡ tables w
  pub finish_ledger_row :
      (u : WorkUnit) (status : Str) (counts : List (Str × ℕ)) (drops : List Drop) (e : Str) (w : W)
      → tables (db.finish_ledger_row u status counts drops e w).1 ≡ tables w
  pub commit : (w : W) → tables (db.commit w).1 ≡ tables w
  pub load_records :
      (v : Validated) (w : W)
      → (db.load_records v w).0 ≡ none
      → tables (db.load_records v w).1 ≡ load_records v (tables w)

pub and_then-none :
    {W : Type 0} (p : Option Str × W) (f : W → Option Str × W)
    → (p and_then f).0 ≡ none
    → (p.0 ≡ none) × ((p and_then f) ≡ f p.1)
and_then-none (none, w) f h = (refl, refl)
and_then-none (some e, w) f h = cc

-- The graph has no finding, and the known ids are of its rows.
pub record IsKept (g : Graph) (known : KnownIds) : Type 0 where
  pub clean : HasNoFinding g
  pub entities :
      (id : Str) → has known.entities id ≡ true → has (id_set (codes "entities") g) id ≡ true
  pub events : (id : Str) → has known.events id ≡ true → has (id_set (codes "events") g) id ≡ true
  pub claims : (id : Str) → has known.claims id ≡ true → has (id_set (codes "claims") g) id ≡ true

-- The extraction of an outcome, if there is one, leaves no reference to the empty id.
abbrev pub HasNamesIf : UnitOutcome → KnownIds → Option WireExtraction → Type 0
HasNamesIf o known none = Unit
HasNamesIf o known (some wire) = HasNames (judge o known wire)

learn-IsKept :
    (u : WorkUnit) (known : KnownIds) (wire : WireExtraction) (g : Graph)
    → covers u g ≡ true
    → HasNames (validate wire (context_of u known))
    → IsKept g known
    → IsKept
        (load_records (validate wire (context_of u known)) g)
        (learn known (validate wire (context_of u known)))
unfolding learn
learn-IsKept u known wire g covered names kept =
    let ctx = context_of u known in
    let v = validate wire ctx in
    let is_of : IsOf g ctx = record {
      entities = kept.entities;
      events = kept.events;
      claims = kept.claims;
    } in
    let holds = load_records-Holds ctx v g is_of covered in
    record {
      clean = load_records-HasNoFinding wire ctx g is_of covered names kept.clean;
      entities = λ id h. ground (
        arith,
        has-id_set (codes "entities") id (load_records v g),
        has-append known.entities (map (λ e. e.id) v.entities) id,
        holds.entities id,
        entity_there ctx v (load_records v g) holds id,
      );
      events = λ id h. ground (
        arith,
        has-id_set (codes "events") id (load_records v g),
        has-append known.events (map (λ e. e.id) v.events) id,
        holds.events id,
        event_there ctx v (load_records v g) holds id,
      );
      claims = λ id h. ground (
        arith,
        has-id_set (codes "claims") id (load_records v g),
        has-append known.claims (map (λ c. c.id) v.claims) id,
        holds.claims id,
        claim_there ctx v (load_records v g) holds id,
      );
    }

module _ {W : Type 0} (db : Database W) (seen : HasTables W db) where
  and_then-tables :
      (p : Option Str × W) (f : W → Option Str × W)
      → ((w : W) → seen.tables (f w).1 ≡ seen.tables w)
      → seen.tables (p and_then f).1 ≡ seen.tables p.1
  and_then-tables (none, w) f frame = frame w
  and_then-tables (some e, w) f frame = refl

  tables_of_failed : (o : UnitOutcome) (w : W) → seen.tables (store_failed db o w).1 ≡ seen.tables w
  tables_of_failed o w =
      and_then-tables (db.finish_ledger_row o.job.unit (codes "failed") [] [] o.error w) db.commit
        seen.commit
      ∙ seen.finish_ledger_row o.job.unit (codes "failed") [] [] o.error w

  tables_of_done :
      (o : UnitOutcome) (v : Validated) (w : W)
      → (store_done db o v w).0 ≡ none
      → seen.tables (store_done db o v w).1 ≡ load_records v (seen.tables w)
  tables_of_done o v w h =
      let finish = db.finish_ledger_row o.job.unit (codes "done") (record_counts v) v.drops [] in
      let (ok, same) = and_then-none (db.load_records v w and_then finish) db.commit h in
      let (loaded, same') = and_then-none (db.load_records v w) finish ok in
      and_then-tables (db.load_records v w and_then finish) db.commit seen.commit
      ∙ and_then-tables (db.load_records v w) finish
          (seen.finish_ledger_row o.job.unit (codes "done") (record_counts v) v.drops [])
      ∙ seen.load_records v w loaded

  module _ {F : Type 0} where
    tables_of_outputs :
        (u : WorkUnit) (rs : List Response) (t : CostTracker F) (p : Option Str × W)
        → seen.tables (write_outputs db u rs t p).1.1 ≡ seen.tables p.1
    tables_of_outputs u rs t (some e, w) = refl
    tables_of_outputs u [] t (none, w) = refl
    tables_of_outputs u (r ∷ rs) t (none, w) =
        tables_of_outputs u rs _ (db.write_model_output u r w) ∙ seen.write_model_output u r w

    end_failed-IsKept :
        (s : Stats) (t : CostTracker F) (known : KnownIds) (p : Option Str × W)
        → let r = end_failed s t known p in (r.known ≡ known) × (r.world ≡ p.1)
    end_failed-IsKept s t known (none, w) = (refl, refl)
    end_failed-IsKept s t known (some e, w) = (refl, refl)

    end_done-IsKept :
        (s : Stats) (t : CostTracker F) (known : KnownIds) (v : Validated) (p : Option Str × W)
        → let r = end_done s t known v p in
          r.error ≡ none → (p.0 ≡ none) × (r.known ≡ learn known v) × (r.world ≡ p.1)
    end_done-IsKept s t known v (none, w) h = (refl, refl, refl)
    end_done-IsKept s t known v (some e, w) h = cc

    wire-IsKept :
        (o : UnitOutcome) (s : Stats) (t : CostTracker F) (known : KnownIds)
        (wire : Option WireExtraction) (w : W)
        → let r = persist_wire db o s t known wire w in
          r.error ≡ none
          → covers o.job.unit (seen.tables w) ≡ true
          → HasNamesIf o known wire
          → IsKept (seen.tables w) known
          → IsKept (seen.tables r.world) r.known
    wire-IsKept o s t known none w h covered names kept =
        let (same, there) = end_failed-IsKept s t known (store_failed db o w) in
        rw (same, there, tables_of_failed o w) kept
    wire-IsKept o s t known (some wire) w h covered names kept =
        let v = judge o known wire in
        let (ok, same, there) =
          end_done-IsKept (bump_problems s o.problems) t known v (store_done db o v w) h in
        rw (same, there, tables_of_done o v w ok)
          (learn-IsKept o.job.unit known wire (seen.tables w) covered names kept)

    outputs-IsKept :
        (o : UnitOutcome) (s : Stats) (known : KnownIds) (p : CostTracker F × (Option Str × W))
        → let r = after_outputs db o s known p in
          r.error ≡ none
          → covers o.job.unit (seen.tables p.1.1) ≡ true
          → HasNamesIf o known o.wire
          → IsKept (seen.tables p.1.1) known
          → IsKept (seen.tables r.world) r.known
    outputs-IsKept o s known (t, (none, w)) h covered names kept =
        wire-IsKept o s t known o.wire w h covered names kept
    outputs-IsKept o s known (t, (some e, w)) h covered names kept = cc

    -- An outcome that is persisted.
    outcome-IsKept :
        (s : Stats) (t : CostTracker F) (known : KnownIds) (o : UnitOutcome) (w : W)
        → let r = persist_outcome db s t known o w in
          r.error ≡ none
          → covers o.job.unit (seen.tables w) ≡ true
          → HasNamesIf o known o.wire
          → IsKept (seen.tables w) known
          → IsKept (seen.tables r.world) r.known
    unfolding persist_outcome
    outcome-IsKept s t known o w h covered names kept =
        let same = tables_of_outputs o.job.unit o.responses t (db.begin w) ∙ seen.begin w in
        outputs-IsKept o _ known _ h (rw same covered) names (rw same kept)

    -- The outcomes that a run persists, each with what `persistOutcome` makes of the statistics,
    -- the tracker, the known ids and the world that the one before left.
    pub data Persists : Stats → CostTracker F → KnownIds → W → KnownIds → W → Type 0 where
      nothing_more :
          {s : Stats} {t : CostTracker F} {known : KnownIds} {w : W} → Persists s t known w known w
      outcome_then :
          {s : Stats} {t : CostTracker F} {known known' : KnownIds} {w w' : W} (o : UnitOutcome)
          → (persist_outcome db s t known o w).error ≡ none
          → Persists
              (persist_outcome db s t known o w).stats
              (persist_outcome db s t known o w).tracker
              (persist_outcome db s t known o w).known
              (persist_outcome db s t known o w).world
              known'
              w'
          → Persists s t known w known' w'

    -- Each unit covers the schemes of the sources, and no outcome refers to the empty id.
    abbrev pub IsFit :
        {s : Stats} {t : CostTracker F} {known known' : KnownIds} {w w' : W}
        → Persists s t known w known' w'
        → Type 0
    IsFit nothing_more = Unit
    IsFit {known = known} {w = w} (outcome_then o ok more) =
        (covers o.job.unit (seen.tables w) ≡ true) × HasNamesIf o known o.wire × IsFit more

    -- However many outcomes a run persists, in whatever order they arrive: the six checks find
    -- nothing in the graph and the known ids are of its rows, if that was so at the start, where
    -- each outcome's unit offers the required locator keys of the registered sources that it
    -- offers, and leaves no reference to the empty id.
    pub Persists-IsKept :
        {s : Stats} {t : CostTracker F} {known known' : KnownIds} {w w' : W}
        (run : Persists s t known w known' w')
        → IsFit run
        → IsKept (seen.tables w) known
        → IsKept (seen.tables w') known'
    Persists-IsKept nothing_more fit kept = kept
    Persists-IsKept {s} {t} {known} {w = w} (outcome_then o ok more) fit kept =
        let (covered, names, later) = fit in
        Persists-IsKept more later (outcome-IsKept s t known o w ok covered names kept)
