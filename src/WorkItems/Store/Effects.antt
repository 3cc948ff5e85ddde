-- ===== src/WorkItems/Store/Effects.antt =====
-- The table that a method of the store leaves, where it returns and where it throws.
use gooseherd.Prelude.{
  ℕ, String, ◌≡◌, refl, ◌≢◌, inl, inr, none, some, arith, eq_iff, Option-cases, String-Eq, Nat-Eq,
  ==_refl, ok, err,
}
use gooseherd.WorkItems.Types.{WorkItemRecord, CreateWorkItemInput, UpdateWorkItemStateInput}
use gooseherd.WorkItems.Table.{WorkItemTable}
use gooseherd.WorkItems.Store.{
  StoreError, get_work_item, update_state, update_current, updated_row, create_work_item, new_row,
  set_jira_issue_key,
}

module _ (table : WorkItemTable) where
  open table use {Db, find, find-insert, insert, set}

  pub update_state-err :
      (id : String) (input : UpdateWorkItemStateInput) (now : ℕ) (db : Db) (e : StoreError)
      → (update_state table id input now db).0 ≡ err e
      → (update_state table id input now db).1 ≡ db
  unfolding update_state update_current
  update_state-err id input now db e failed = ground arith

  pub update_state-written :
      (id : String) (input : UpdateWorkItemStateInput) (now : ℕ) (db : Db) (u : WorkItemRecord)
      → (update_state table id input now db).0 ≡ ok u
      → (current : WorkItemRecord) × ((update_state table id input now db).1
          ≡ set id (updated_row current input now) db)
  unfolding update_state update_current
  update_state-written id input now db u done = elim (Option-cases (get_work_item table id db)) [
    | inl gone ↦ absurd (ground (arith, gone))
    | inr (current, found) ↦ (current, ground (arith, found))
  ]

  pub create_work_item-written :
      (id : String) (input : CreateWorkItemInput) (now : ℕ) (db : Db) (d : WorkItemRecord)
      → find id db ≡ none
      → (create_work_item table id input now db).0 ≡ ok d
      → ((create_work_item table id input now db).1 ≡ insert (new_row id input now) db)
        × (d ≡ new_row id input now)
        × (get_work_item table id (create_work_item table id input now db).1
            ≡ some (new_row id input now))
  unfolding create_work_item get_work_item new_row
  create_work_item-written id input now db d fresh done =
      ground (arith, ==_refl id, find-insert (new_row id input now) id db fresh)

  pub set_jira_issue_key-written :
      (id key : String) (now : ℕ) (db : Db) (u : WorkItemRecord)
      → (set_jira_issue_key table id key now db).0 ≡ ok u
      → (set_jira_issue_key table id key now db).1
        ≡ set id (λ row. record row { jira_issue_key = some key; updated_at = now }) db
  unfolding set_jira_issue_key
  set_jira_issue_key-written id key now db u done = ground arith

  pub update_state-others :
      (id j : String) (input : UpdateWorkItemStateInput) (now : ℕ) (db : Db) (u : WorkItemRecord)
      → j ≢ id
      → (update_state table id input now db).0 ≡ ok u
      → get_work_item table j (update_state table id input now db).1 ≡ get_work_item table j db
  unfolding get_work_item
  update_state-others id j input now db u other done =
      let (current, written) = update_state-written id input now db u done in
      ground (
        arith,
        written,
        eq_iff id j,
        table.find-set id j (updated_row current input now) db (λ r. unfold updated_row in refl),
      )
