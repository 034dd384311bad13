-- ===== src/Ledger/Resume.antt =====
-- Resuming: the ledger as a small state machine for each unit, and what the next run finds to do.
use fact_checker.Base.{
  false, any, Bool, ℕ, List, [], ◌∷◌, ◌++◌, ◌||◌, any, false, none, foldl, not, ◌≡◌, refl, ◌∙◌, ap,
  Str, codes, true, ◌==◌, ==_sound, ==_refl, inl, inr, Bool-cases, Option, some, lookup, All,
  All-map, All-both, All-select, All_of_select, select-none, if◌then◌else◌, arith,
}
use fact_checker.Extract.{WorkUnit}
use fact_checker.Validate.Types.{Drop}
use fact_checker.Runner.Plan.{LedgerRow, is_done, same_input}
use fact_checker.Runner.Plan.Laws.{undone}
use fact_checker.Ledger.{Table, upsert_ledger_row, finish_ledger_row, ledger_state}
use fact_checker.Ledger.Laws.{after, upsert_ledger_row-state, finish_ledger_row-state}

-- What a run writes: a unit is submitted, or its outcome is persisted.
pub data Write : Type 0 where
  submit : WorkUnit → Str → ℕ → Write
  finish : WorkUnit → Str → List (Str × ℕ) → List Drop → Str → ℕ → Write

module _ (input_hash : WorkUnit → Str) where
  abbrev pub write : Table → Write → Table
  write table (submit unit model run_id) =
      upsert_ledger_row unit model (input_hash unit) run_id table
  write table (finish unit status counts dropped last_error now) =
      finish_ledger_row unit status counts dropped last_error now table

  -- One unit's entry of the ledger: only the writes of its key move it.
  abbrev pub move : Str → Option LedgerRow → Write → Option LedgerRow
  move k entry (submit unit model run_id) =
      if unit.unit_key == k
      then some (record { status = codes "pending"; input_hash = input_hash unit })
      else entry
  move k entry (finish unit status counts dropped last_error now) =
      if unit.unit_key == k
      then after (λ (row : LedgerRow). record row { status = status }) entry
      else entry

  write-move :
      (table : Table) (w : Write) (k : Str)
      → lookup k (ledger_state (write table w)) ≡ move k (lookup k (ledger_state table)) w
  write-move table (submit unit model run_id) k =
      upsert_ledger_row-state unit model (input_hash unit) run_id table k
  write-move table (finish unit status counts dropped last_error now) k =
      finish_ledger_row-state unit status counts dropped last_error now table k

  -- The ledger refines one small state machine for each unit: whatever the order in which a run
  -- writes, `LedgerState` gives for a key what the key's own writes make of what it gave before.
  pub write-refines :
      (ws : List Write) (table : Table) (k : Str)
      → lookup k (ledger_state (foldl write table ws))
        ≡ foldl (move k) (lookup k (ledger_state table)) ws
  write-refines [] table k = refl
  write-refines (w ∷ ws) table k =
      write-refines ws (write table w) k
      ∙ ap (λ entry. foldl (move k) entry ws) (write-move table w k)

  -- The units of one key have one hash.
  abbrev pub Agrees : (Str → Str) → WorkUnit → Type 0
  Agrees hash_of u = input_hash u ≡ hash_of u.unit_key

  abbrev has_key : Str → List WorkUnit → Bool
  has_key k us = any (λ (u : WorkUnit). u.unit_key == k) us

  has_key-append :
      (k : Str) (us vs : List WorkUnit) → has_key k (us ++ vs) ≡ (has_key k us || has_key k vs)
  unfolding any
  has_key-append k [] vs = refl
  has_key-append k (u ∷ us) vs = ground (arith, has_key-append k us vs)

  -- One key, while a run goes on: its entry has its hash while a unit of it is in flight, and is
  -- done when no unit of it waits or is in flight.
  record Settles (k hash : Str) (entry : Option LedgerRow) (waiting flight : List WorkUnit)
      : Type 0 where
    in_flight :
        has_key k flight ≡ true
        → (status : Str) × (entry ≡ some (record { status = status; input_hash = hash }))
    settled :
        has_key k waiting ≡ false
        → has_key k flight ≡ false
        → entry ≡ some (record { status = codes "done"; input_hash = hash })

  module _ (hash_of : Str → Str) (k : Str) where
    submit-Settles :
        (u : WorkUnit) (waiting flight : List WorkUnit) (model : Str) (run_id : ℕ)
        (entry : Option LedgerRow)
        → Agrees hash_of u
        → Settles k (hash_of k) entry (u ∷ waiting) flight
        → Settles k (hash_of k) (move k entry (submit u model run_id)) waiting (u ∷ flight)
    unfolding any
    submit-Settles u waiting flight model run_id entry agree s =
        elim (Bool-cases (u.unit_key == k)) [
          | inl e ↦ rw e (record {
            in_flight = λ h. (codes "pending", rw (agree, ==_sound u.unit_key k e));
            settled = λ w f. absurd (ground (arith, e));
          })
          | inr e ↦ rw e (record {
            in_flight = λ h. s.in_flight (ground (arith, e));
            settled = λ w f. s.settled (ground (arith, e)) (ground (arith, e));
          })
        ]

    finish-Settles :
        (u : WorkUnit) (waiting front back : List WorkUnit) (counts : List (Str × ℕ))
        (dropped : List Drop) (last_error : Str) (now : ℕ) (entry : Option LedgerRow)
        → Settles k (hash_of k) entry waiting (front ++ u ∷ back)
        → Settles k
            (hash_of k)
            (move k entry (finish u (codes "done") counts dropped last_error now))
            waiting
            (front ++ back)
    unfolding any
    finish-Settles u waiting front back counts dropped last_error now entry s =
        elim (Bool-cases (u.unit_key == k)) [
          | inl e ↦
              let (status, here) =
                s.in_flight (ground (arith, e, has_key-append k front (u ∷ back))) in
              rw (e, here) (record { in_flight = λ h. (codes "done", refl); settled = λ w f. refl })
          | inr e ↦
              let same : has_key k (front ++ u ∷ back) ≡ has_key k (front ++ back) =
                ground (arith, e, has_key-append k front (u ∷ back), has_key-append k front back) in
              rw e (record {
                in_flight = λ h. s.in_flight (same ∙ h);
                settled = λ w f. s.settled w (same ∙ f);
              })
        ]

  -- What a run writes when every unit comes out done: each unit that waits is submitted in its
  -- turn, and at any time any unit in flight may be finished.
  pub data Resolves : List WorkUnit → List WorkUnit → List Write → Type 0 where
    at_end : Resolves [] [] []
    submitted :
        {u : WorkUnit} {waiting flight : List WorkUnit} {ws : List Write} (model : Str) (run_id : ℕ)
        → Resolves waiting (u ∷ flight) ws
        → Resolves (u ∷ waiting) flight (submit u model run_id ∷ ws)
    finished :
        {u : WorkUnit} {waiting : List WorkUnit} {ws : List Write} (front back : List WorkUnit)
        (counts : List (Str × ℕ)) (dropped : List Drop) (last_error : Str) (now : ℕ)
        → Resolves waiting (front ++ back) ws
        → Resolves waiting
            (front ++ u ∷ back)
            (finish u (codes "done") counts dropped last_error now ∷ ws)

  module _ (hash_of : Str → Str) where
    Resolves-done :
        (k : Str) {waiting flight : List WorkUnit} {ws : List Write} (entry : Option LedgerRow)
        → Resolves waiting flight ws
        → All (Agrees hash_of) waiting
        → Settles k (hash_of k) entry waiting flight
        → foldl (move k) entry ws ≡ some (record { status = codes "done"; input_hash = hash_of k })
    unfolding any
    Resolves-done k entry at_end agree s = s.settled refl refl
    Resolves-done k entry (submitted {u} {waiting} {flight} model run_id r) agree s =
        Resolves-done k _ r agree.1
          (submit-Settles hash_of k u waiting flight model run_id entry agree.0 s)
    Resolves-done k entry (finished {u} {waiting} front back counts dropped last_error now r) agree
          s =
        Resolves-done k _ r agree
          (finish-Settles hash_of k u waiting front back counts dropped last_error now entry s)

    abbrev IsDone : Table → WorkUnit → Type 0
    IsDone table u = is_done input_hash (ledger_state table) u ≡ true

    has_key_self : (us : List WorkUnit) → All (λ (u : WorkUnit). has_key u.unit_key us ≡ true) us
    unfolding any
    has_key_self [] = tt
    has_key_self (u ∷ us) = (
      ground (arith, ==_refl u.unit_key),
      All-map _ _ (λ v h. ground (arith, h)) us (has_key_self us),
    )

    -- A unit whose key waits, or that is done, begins well.
    begins :
        (u : WorkUnit) (table : Table) (todo : List WorkUnit)
        → Agrees hash_of u
        → (has_key u.unit_key todo ≡ false → IsDone table u)
        → Settles u.unit_key (hash_of u.unit_key) (lookup u.unit_key (ledger_state table)) todo []
    unfolding any is_done
    begins u table todo agree h = record {
      in_flight = λ f. cc;
      settled = λ w f. entry_done (lookup u.unit_key (ledger_state table)) (h w);
    }
      where
        entry_done :
            (entry : Option LedgerRow)
            → same_input input_hash u entry ≡ true
            → entry ≡ some (record { status = codes "done"; input_hash = hash_of u.unit_key })
        entry_done none e = cc
        entry_done (some row) e =
            let status : row.status ≡ codes "done" =
              ==_sound row.status (codes "done") (ground arith) in
            let hash : row.input_hash ≡ input_hash u =
              ==_sound row.input_hash (input_hash u) (ground arith) in
            cc

    Resolves-IsDone :
        (u : WorkUnit) (table : Table) {todo : List WorkUnit} {ws : List Write}
        → Resolves todo [] ws
        → All (Agrees hash_of) todo
        → Agrees hash_of u
        → (has_key u.unit_key todo ≡ false → IsDone table u)
        → IsDone (foldl write table ws) u
    unfolding is_done
    Resolves-IsDone u table {todo} {ws} r agree_todo agree h =
        rw
          (
            write-refines ws table u.unit_key,
            Resolves-done u.unit_key _ r agree_todo (begins u table todo agree h),
            agree,
            ==_refl (codes "done"),
          )
          (==_refl (hash_of u.unit_key))

    -- After a run in which every unit that was not done comes out done, the next run over the same
    -- units has nothing to do, where the units of one key have one input. The units are submitted
    -- in order, and each is finished at any time after that, however many are in flight.
    pub undone-settled :
        (units : List WorkUnit) (table : Table) (ws : List Write)
        → All (Agrees hash_of) units
        → Resolves (undone input_hash (ledger_state table) units) [] ws
        → undone input_hash (ledger_state (foldl write table ws)) units ≡ []
    undone-settled units table ws agree r =
        let todo = undone input_hash (ledger_state table) units in
        let new = λ (u : WorkUnit). not (is_done input_hash (ledger_state table) u) in
        let agree_todo = All-select new (Agrees hash_of) units agree in
        select-none (λ u. not (is_done input_hash (ledger_state (foldl write table ws)) u)) units
          (All-map _ _
            (λ u h.
              let done =
                Resolves-IsDone u table r agree_todo h.0 (λ out. ground (arith, h.1, out)) in
              ground (arith, done))
            units
            (All-both _ _ units agree (
              All_of_select new (λ (u : WorkUnit). has_key u.unit_key todo ≡ true) units
                (has_key_self todo))))
