-- ===== src/WorkItems/Store/Updates.antt =====
-- What an update of the store leaves in the database, for the item and for the other items.
use gooseherd.Prelude.{
  ℕ, String, ◌≡◌, refl, subst, ◌≢◌, inl, inr, none, some, arith, eq_iff, if◌then◌else◌,
  Option-cases, ◌==◌, String-Eq, Nat-Eq, ==_refl, ok, map_option,
}
use gooseherd.WorkItems.Types.{WorkItemRecord, UpdateWorkItemStateInput}
use gooseherd.WorkItems.Table.{WorkItemTable}
use gooseherd.WorkItems.Store.{get_work_item, update_state, updated_row, row_to_record}
use gooseherd.WorkItems.Workflow.{assert_state_transition_allowed}

-- The record that an allowed update makes of the record that it reads.
unfoldable pub updated_record : WorkItemRecord → UpdateWorkItemStateInput → ℕ → WorkItemRecord
unfolding updated_row
updated_record current input now = updated_row current input now current

module _ (table : WorkItemTable) where
  open table use {Db, find, find-set}

  pub get-set :
      (i j : String) (f : WorkItemRecord → WorkItemRecord) (db : Db)
      → ((r : WorkItemRecord) → (f r).id ≡ r.id)
      → get_work_item table j (table.set i f db) ≡ (
          if i == j
          then map_option (λ r. row_to_record (f r)) (find j db)
          else get_work_item table j db)
  unfolding get_work_item
  get-set i j f db keeps = ground (arith, find-set i j f db keeps)

  -- An allowed update: it returns the updated record, which is then the stored one, and no other
  -- item changes.
  pub record Updated (id : String) (input : UpdateWorkItemStateInput) (now : ℕ)
      (current : WorkItemRecord) (db : Db) : Type 0 where
    pub after : Db
    pub result : update_state table id input now db ≡ (ok (updated_record current input now), after)
    pub stored : get_work_item table id after ≡ some (updated_record current input now)
    pub others : (j : String) → j ≢ id → get_work_item table j after ≡ get_work_item table j db

  get-found :
      (id : String) (current : WorkItemRecord) (db : Db)
      → get_work_item table id db ≡ some current
      → (row : WorkItemRecord) × (find id db ≡ some row) × (row_to_record row ≡ current)
  unfolding get_work_item
  get-found id current db stored = ground arith

  module _ (id : String) (input : UpdateWorkItemStateInput) (now : ℕ) (row : WorkItemRecord)
      (db : Db) (found : find id db ≡ some row) where
    written : Db
    written = table.set id (updated_row (row_to_record row) input now) db

    get-written :
        (j : String)
        → get_work_item table j written ≡ (
            if id == j
            then map_option
                (λ r. row_to_record (updated_row (row_to_record row) input now r))
                (find j db)
            else get_work_item table j db)
    unfolding written
    get-written j =
        get-set id j (updated_row (row_to_record row) input now) db
          (λ r. unfold updated_row in refl)

    get-written_self :
        get_work_item table id written ≡ some (updated_record (row_to_record row) input now)
    unfolding updated_record
    get-written_self = rw (get-written, ==_refl id, found) refl

    get-written_ne :
        (j : String) → j ≢ id → get_work_item table j written ≡ get_work_item table j db
    get-written_ne j ne = ground (arith, get-written j, eq_iff id j)

    update_row-Updated :
        assert_state_transition_allowed row.workflow row.state input.state ≡ none
        → Updated id input now (row_to_record row) db
    unfolding update_state written
    update_row-Updated allowed = record {
      after = written;
      result = ground (arith, get-written_self);
      stored = get-written_self;
      others = get-written_ne;
    }

  pub update_state-Updated :
      (id : String) (input : UpdateWorkItemStateInput) (now : ℕ) (current : WorkItemRecord)
      (db : Db)
      → get_work_item table id db ≡ some current
      → assert_state_transition_allowed current.workflow current.state input.state ≡ none
      → Updated id input now current db
  update_state-Updated id input now current db stored allowed =
      let (row, found, same) = get-found id current db stored in
      subst
        (λ c.
          assert_state_transition_allowed c.workflow c.state input.state ≡ none
          → Updated id input now c db)
        same (update_row-Updated id input now row db found) allowed

  -- An update that returns has stored what it returns, with the state that it was asked for.
  pub update_state-ok :
      (id : String) (input : UpdateWorkItemStateInput) (now : ℕ) (db : Db)
      (updated : WorkItemRecord)
      → (update_state table id input now db).0 ≡ ok updated
      → (updated.state ≡ input.state)
        × (get_work_item table id (update_state table id input now db).1 ≡ some updated)
  unfolding update_state updated_record
  update_state-ok id input now db updated done = elim (Option-cases (find id db)) [
    | inl gone ↦ ground (arith, gone)
    | inr (row, found) ↦
        elim (Option-cases (assert_state_transition_allowed row.workflow row.state input.state)) [
          | inr (e, refused) ↦ ground (arith, found, refused)
          | inl allowed ↦
              let u = update_row-Updated id input now row db found allowed in
              ground (arith, u.result, u.stored)
        ]
  ]
