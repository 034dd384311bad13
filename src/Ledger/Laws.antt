-- ===== src/Ledger/Laws.antt =====
-- What the ledger says of a unit after it is written.
use fact_checker.Base.{
  ℕ, List, [], ◌∷◌, ◌++◌, map, any, ◌≡◌, refl, sym, ◌∙◌, Str, codes, true, false, ◌&&◌, ◌==◌,
  ==_sound, ==_refl, ==_iff, inl, inr, Bool-cases, Option, none, some, lookup, insert,
  lookup-insert, if◌then◌else◌, arith,
}
use fact_checker.Extract.{WorkUnit}
use fact_checker.Validate.Types.{Drop}
use fact_checker.Runner.Plan.{LedgerRow}
use fact_checker.Ledger.{
  UnitRow, Table, prompt_version, is_of, mark_pending, new_row, upsert_ledger_row, mark_finished,
  finish_ledger_row, state_loop, ledger_state,
}

abbrev pub seen_as : UnitRow → LedgerRow
seen_as row = record { status = row.status; input_hash = row.input_hash }

-- The last row of the key under the prompt version, or else the given one.
abbrev last_of : Str → Option LedgerRow → Table → Option LedgerRow
last_of k found [] = found
last_of k found (row ∷ table) =
    last_of k
      (if row.version == prompt_version && row.unit_key == k then some (seen_as row) else found)
      table

state_loop_lem :
    (k : Str) (state : List (Str × LedgerRow)) (table : Table)
    → lookup k (state_loop state table) ≡ last_of k (lookup k state) table
unfolding state_loop
state_loop_lem k state [] = refl
state_loop_lem k state (row ∷ table) = elim (Bool-cases (row.version == prompt_version)) [
  | inl e ↦ rw (
    e,
    state_loop_lem k (insert row.unit_key (seen_as row) state) table,
    lookup-insert row.unit_key k (seen_as row) state,
  )
  | inr e ↦ rw (e, state_loop_lem k state table)
]

ledger_state_lem : (k : Str) (table : Table) → lookup k (ledger_state table) ≡ last_of k none table
unfolding ledger_state lookup
ledger_state_lem k table = state_loop_lem k [] table

last_of-append :
    (k : Str) (found : Option LedgerRow) (table : Table) (row : UnitRow)
    → last_of k found (table ++ row ∷ []) ≡ (
        if row.version == prompt_version && row.unit_key == k
        then some (seen_as row)
        else last_of k found table)
last_of-append k found [] row = refl
last_of-append k found (r ∷ table) row =
    last_of-append k
      (if r.version == prompt_version && r.unit_key == k then some (seen_as r) else found) table row

last_of-found :
    (k : Str) (r : LedgerRow) (table : Table)
    → (s : LedgerRow) × (last_of k (some r) table ≡ some s)
last_of-found k r [] = (r, refl)
last_of-found k r (row ∷ table) =
    elim (Bool-cases (row.version == prompt_version && row.unit_key == k)) [
      | inl e ↦ rw e (last_of-found k (seen_as row) table)
      | inr e ↦ rw e (last_of-found k r table)
    ]

last_of-there :
    (unit : WorkUnit) (found : Option LedgerRow) (table : Table)
    → any (is_of unit) table ≡ true
    → (s : LedgerRow) × (last_of unit.unit_key found table ≡ some s)
unfolding any
last_of-there unit found [] h = cc
last_of-there unit found (row ∷ table) h = elim (Bool-cases (is_of unit row)) [
  | inl e ↦ rw (matches e) (last_of-found unit.unit_key (seen_as row) table)
  | inr e ↦
      last_of-there unit
        (if row.version == prompt_version && row.unit_key == unit.unit_key
          then some (seen_as row)
          else found)
        table (rw e at h)
]
  where
    matches :
        is_of unit row ≡ true
        → (row.version == prompt_version && row.unit_key == unit.unit_key) ≡ true
    matches e = ground arith

abbrev pub after {ℓ} : {A : Type ℓ} → (A → A) → Option A → Option A
after g none = none
after g (some a) = some (g a)

-- A change of the rows of one unit, which keeps their keys.
module _ (unit : WorkUnit) (f : UnitRow → UnitRow) (g : LedgerRow → LedgerRow)
    (key_kept : (row : UnitRow) → (f row).unit_key ≡ row.unit_key)
    (version_kept : (row : UnitRow) → (f row).version ≡ row.version)
    (changed : (row : UnitRow) → is_of unit row ≡ true → seen_as (f row) ≡ g (seen_as row))
    (same : (row : UnitRow) → is_of unit row ≡ false → f row ≡ row) where
  last_of-changed :
      (found : Option LedgerRow) (table : Table)
      → last_of unit.unit_key (after g found) (map f table)
        ≡ after g (last_of unit.unit_key found table)
  last_of-changed found [] = refl
  last_of-changed found (row ∷ table) =
      elim (Bool-cases (row.version == prompt_version && row.unit_key == unit.unit_key)) [
        | inl e ↦
            rw (version_kept row, key_kept row, e, changed row (ground arith))
              (last_of-changed (some (seen_as row)) table)
        | inr e ↦ rw (version_kept row, key_kept row, e) (last_of-changed found table)
      ]

  last_of-other :
      (k : Str) (found : Option LedgerRow) (table : Table)
      → (unit.unit_key == k) ≡ false
      → last_of k found (map f table) ≡ last_of k found table
  last_of-other k found [] h = refl
  last_of-other k found (row ∷ table) h =
      elim (Bool-cases (row.version == prompt_version && row.unit_key == k)) [
        | inl e ↦
            rw (version_kept row, key_kept row, e, same row (other e))
              (last_of-other k (some (seen_as row)) table h)
        | inr e ↦ rw (version_kept row, key_kept row, e) (last_of-other k found table h)
      ]
    where
      other : (row.version == prompt_version && row.unit_key == k) ≡ true → is_of unit row ≡ false
      other e =
          ground (
            arith,
            ==_iff row.unit_key k,
            ==_iff row.unit_key unit.unit_key,
            ==_iff unit.unit_key k,
          )

  map-state :
      (table : Table) (k : Str)
      → lookup k (ledger_state (map f table)) ≡ (
          if unit.unit_key == k
          then after g (lookup k (ledger_state table))
          else lookup k (ledger_state table))
  map-state table k = elim (Bool-cases (unit.unit_key == k)) [
    | inl e ↦
        rw
          (
            e,
            sym (==_sound unit.unit_key k e),
            ledger_state_lem unit.unit_key (map f table),
            ledger_state_lem unit.unit_key table,
          )
          (last_of-changed none table)
    | inr e ↦
        rw (e, ledger_state_lem k (map f table), ledger_state_lem k table)
          (last_of-other k none table e)
  ]

module _ (unit : WorkUnit) where
  module _ (model hash : Str) (run_id : ℕ) where
    abbrev mark : UnitRow → UnitRow
    mark = mark_pending unit model hash run_id

    abbrev pending : LedgerRow
    pending = record { status = codes "pending"; input_hash = hash }

    mark-state :
        (table : Table) (k : Str)
        → lookup k (ledger_state (map mark table)) ≡ (
            if unit.unit_key == k
            then after (λ row. pending) (lookup k (ledger_state table))
            else lookup k (ledger_state table))
    mark-state =
        map-state unit mark (λ row. pending) (λ row. ground arith) (λ row. ground arith)
          (λ row e. rw e) (λ row e. rw e)

    new-state :
        (table : Table) (k : Str)
        → lookup k (ledger_state (table ++ new_row unit model hash run_id ∷ []))
          ≡ (if unit.unit_key == k then some pending else lookup k (ledger_state table))
    new-state table k =
        rw
          (
            ledger_state_lem k (table ++ new_row unit model hash run_id ∷ []),
            ledger_state_lem k table,
          )
          (last_of-append k none table (new_row unit model hash run_id)
            ∙ ground (arith, ==_refl prompt_version))

    -- After a unit is marked pending, the ledger has it as pending with its hash, and each other
    -- unit as before.
    pub upsert_ledger_row-state :
        (table : Table) (k : Str)
        → lookup k (ledger_state (upsert_ledger_row unit model hash run_id table))
          ≡ (if unit.unit_key == k then some pending else lookup k (ledger_state table))
    unfolding upsert_ledger_row
    upsert_ledger_row-state table k = elim (Bool-cases (any (is_of unit) table)) [
      | inl e ↦ rw e (mark-state table k ∙ there e)
      | inr e ↦ rw e (new-state table k)
    ]
      where
        there :
            any (is_of unit) table ≡ true
            → (if unit.unit_key == k
                then after (λ row. pending) (lookup k (ledger_state table))
                else lookup k (ledger_state table))
              ≡ (if unit.unit_key == k then some pending else lookup k (ledger_state table))
        there e = elim (Bool-cases (unit.unit_key == k)) [
          | inl m ↦
              let (s, found) = last_of-there unit none table e in
              rw (m, sym (==_sound unit.unit_key k m), ledger_state_lem unit.unit_key table, found)
          | inr m ↦ rw m
        ]

  -- After a unit is finished, the ledger has it with the new status, if it had it, and each other
  -- unit as before.
  pub finish_ledger_row-state :
      (status : Str) (counts : List (Str × ℕ)) (dropped : List Drop) (e : Str) (now : ℕ)
      (table : Table) (k : Str)
      → lookup k (ledger_state (finish_ledger_row unit status counts dropped e now table)) ≡ (
          if unit.unit_key == k
          then after
              (λ (row : LedgerRow). record row { status = status })
              (lookup k (ledger_state table))
          else lookup k (ledger_state table))
  unfolding finish_ledger_row
  finish_ledger_row-state status counts dropped e now table k =
      map-state unit (mark_finished unit status counts dropped e now)
        (λ (row : LedgerRow). record row { status = status }) (λ row. ground arith)
        (λ row. ground arith) (λ row m. rw m) (λ row m. rw m) table k
