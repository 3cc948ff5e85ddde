-- ===== src/WorkItems/Store/Invariant.antt =====
-- Every work item of the store is in a state of its workflow, whatever methods are called.
use gooseherd.Prelude.{
  ℕ, String, ◌≡◌, refl, inl, inr, Bool, none, some, List, arith, eq_iff, Bool-cases, Option-cases,
  String-Eq, Nat-Eq, Result, ok, err,
}
use gooseherd.WorkItems.Types.{
  WorkItemRecord, UpdateWorkItemStateInput, WorkItemWorkflow, WorkItemState, CreateWorkItemInput,
}
use gooseherd.WorkItems.Table.{WorkItemTable}
use gooseherd.WorkItems.Store.{
  get_work_item, update_state, updated_row, row_to_record, StoreError, create_work_item,
  set_flag_state, CreateWorkItemInput, committed, new_row, update_current, add_flags, flags_with,
  same_flags, rollback_auto_review_collecting_context, set_jira_issue_key, LinkPullRequestInput,
  link_pull_request, collects_context, linked_row,
}
use gooseherd.WorkItems.Workflow.{assert_state_matches_workflow, assert_state_transition_allowed}

abbrev pub IsInWorkflow : WorkItemRecord → Type 0
IsInWorkflow r = assert_state_matches_workflow r.workflow r.state ≡ none

allowed-in_workflow :
    (workflow : WorkItemWorkflow) (state next : WorkItemState)
    → assert_state_transition_allowed workflow state next ≡ none
    → assert_state_matches_workflow workflow next ≡ none
unfolding assert_state_transition_allowed
allowed-in_workflow workflow state next h = ground arith

-- A transaction leaves the new or the old database.
committed_keeps :
    {A D : Type 0} (P : D → Type 0) (r : Result StoreError A) (new old : D)
    → P new
    → P old
    → P (committed r new old).1
committed_keeps P (ok a) new old kept before = kept
committed_keeps P (err e) new old kept before = before

module _ (table : WorkItemTable) where
  open table use {Db, find, find-insert, find_key, insert, set}

  -- Every stored work item is in a state of its workflow.
  pub record IsValid (db : Db) : Type 0 where
    pub at : (j : String) (r : WorkItemRecord) → get_work_item table j db ≡ some r → IsInWorkflow r

  set-IsValid :
      (i : String) (f : WorkItemRecord → WorkItemRecord) (db : Db)
      → ((r : WorkItemRecord) → (f r).id ≡ r.id)
      → ((r : WorkItemRecord) → find i db ≡ some r → IsInWorkflow r → IsInWorkflow (f r))
      → IsValid db
      → IsValid (set i f db)
  unfolding get_work_item
  set-IsValid i f db keeps good valid = record {
    at = λ j r h. elim (Option-cases (find j db)) [
      | inl gone ↦ ground (arith, table.find-set i j f db keeps)
      | inr (row, found) ↦ ground (
        arith,
        table.find-set i j f db keeps,
        eq_iff i j,
        good row,
        valid.at j (row_to_record row),
        valid.at j r,
      )
    ];
  }

  insert-IsValid :
      (row : WorkItemRecord) (db : Db)
      → find row.id db ≡ none
      → IsInWorkflow row
      → IsValid db
      → IsValid (insert row db)
  unfolding get_work_item
  insert-IsValid row db fresh good valid = record {
    at = λ j r h. ground (arith, find-insert row j db fresh, valid.at j r);
  }

  module _ (db : Db) (valid : IsValid db) where
    create-IsValid :
        (id : String) (input : CreateWorkItemInput) (now : ℕ)
        → find id db ≡ none
        → IsValid (create_work_item table id input now db).1
    unfolding create_work_item
    create-IsValid id input now fresh =
        elim (Option-cases (assert_state_matches_workflow input.workflow input.state)) [
          | inl matches ↦
              rw (matches, create_work_item)
                (insert-IsValid (new_row id input now) db fresh (unfold new_row in matches) valid)
          | inr (e, refused) ↦ rw (refused, create_work_item) valid
        ]

    update_current-IsValid :
        (id : String) (input : UpdateWorkItemStateInput) (now : ℕ) (row : WorkItemRecord)
        → find id db ≡ some row
        → IsValid (update_current table id input now (row_to_record row) db).1
    unfolding update_current updated_row
    update_current-IsValid id input now row found =
        elim (Option-cases (assert_state_transition_allowed row.workflow row.state input.state)) [
          | inr (e, refused) ↦ rw (refused, update_current) valid
          | inl allowed ↦
              rw (allowed, update_current)
                (committed_keeps IsValid _ _ _
                  (set-IsValid id (updated_row (row_to_record row) input now) db (λ r. refl)
                    (λ r at _.
                      ground
                        (arith, allowed-in_workflow row.workflow row.state input.state allowed))
                    valid)
                  valid)
        ]

    update_state-IsValid :
        (id : String) (input : UpdateWorkItemStateInput) (now : ℕ)
        → IsValid (update_state table id input now db).1
    unfolding update_state
    update_state-IsValid id input now = elim (Option-cases (find id db)) [
      | inl gone ↦ rw (gone, update_state) valid
      | inr (row, found) ↦ rw (found, update_state) (update_current-IsValid id input now row found)
    ]

    add_flags-IsValid :
        (id : String) (flags : List String) (now : ℕ) → IsValid (add_flags table id flags now db).1
    unfolding add_flags
    add_flags-IsValid id flags now = elim (Option-cases (find id db)) [
      | inl gone ↦ rw (gone, add_flags) valid
      | inr (row, found) ↦ rw (found, add_flags) (update_state-IsValid id _ now)
    ]

    -- A write that keeps the workflow and the state keeps the invariant.
    quiet-IsValid :
        (id : String) (f : WorkItemRecord → WorkItemRecord)
        → ((r : WorkItemRecord) → (f r).id ≡ r.id)
        → ((r : WorkItemRecord) → (f r).workflow ≡ r.workflow)
        → ((r : WorkItemRecord) → (f r).state ≡ r.state)
        → IsValid (set id f db)
    quiet-IsValid id f same_id same_workflow same_state =
        set-IsValid id f db same_id (λ r _ h. ground (arith, same_workflow r, same_state r)) valid

    set_flag_state-IsValid :
        (id flag : String) (enabled : Bool) (now : ℕ)
        → IsValid (set_flag_state table id flag enabled now db).1
    unfolding set_flag_state
    set_flag_state-IsValid id flag enabled now = elim (Option-cases (find id db)) [
      | inl gone ↦ rw (gone, set_flag_state) valid
      | inr (row, found) ↦
          let next = flags_with row.flags flag enabled in
          elim (Bool-cases (same_flags next row.flags)) [
            | inl same ↦ rw (found, set_flag_state) (rw same valid)
            | inr changed ↦
                rw (found, set_flag_state)
                  (rw changed (
                    committed_keeps IsValid _ _ _
                      (quiet-IsValid id (λ r. record r { flags = next; updated_at = now })
                        (λ r. refl) (λ r. refl) (λ r. refl))
                      valid))
          ]
    ]

    rollback-IsValid :
        (id substate : String) (now : ℕ)
        → IsValid (rollback_auto_review_collecting_context table id substate now db).1
    unfolding rollback_auto_review_collecting_context
    rollback-IsValid id substate now = elim (Option-cases (find id db)) [
      | inl gone ↦ rw (gone, rollback_auto_review_collecting_context) valid
      | inr (row, found) ↦ elim (Bool-cases (collects_context row)) [
        | inr other ↦ rw (found, rollback_auto_review_collecting_context) (rw other valid)
        | inl waits ↦
            rw (found, rollback_auto_review_collecting_context)
              (rw waits (set-IsValid id _ db (λ r. refl) (λ r at h. ground (arith)) valid))
      ]
    ]

    jira-IsValid : (id key : String) (now : ℕ) → IsValid (set_jira_issue_key table id key now db).1
    unfolding set_jira_issue_key
    jira-IsValid id key now =
        committed_keeps IsValid _ _ _
          (quiet-IsValid id (λ row. record row { jira_issue_key = some key; updated_at = now })
            (λ r. refl) (λ r. refl) (λ r. refl))
          valid

    link-IsValid :
        (id : String) (input : LinkPullRequestInput) (now : ℕ)
        → IsValid (link_pull_request table id input now db).1
    unfolding link_pull_request
    link-IsValid id input now =
        committed_keeps IsValid _ _ _
          (quiet-IsValid id (linked_row input now) (λ r. refl) (λ r. refl) (λ r. refl)) valid

  -- One call of a method that writes.
  pub data Step (db : Db) : Db → Type 0 where
    created :
        (id : String) (input : CreateWorkItemInput) (now : ℕ)
        → find id db ≡ none
        → Step db (create_work_item table id input now db).1
    updated :
        (id : String) (input : UpdateWorkItemStateInput) (now : ℕ)
        → Step db (update_state table id input now db).1
    flags_added :
        (id : String) (flags : List String) (now : ℕ) → Step db (add_flags table id flags now db).1
    flag_set :
        (id flag : String) (enabled : Bool) (now : ℕ)
        → Step db (set_flag_state table id flag enabled now db).1
    rolled_back :
        (id substate : String) (now : ℕ)
        → Step db (rollback_auto_review_collecting_context table id substate now db).1
    jira_key_set : (id key : String) (now : ℕ) → Step db (set_jira_issue_key table id key now db).1
    pull_request_linked :
        (id : String) (input : LinkPullRequestInput) (now : ℕ)
        → Step db (link_pull_request table id input now db).1

  pub data Reach (db : Db) : Db → Type 0 where
    here : Reach db db
    next : {mid after : Db} → Reach db mid → Step mid after → Reach db after

  Step-IsValid : {db after : Db} → Step db after → IsValid db → IsValid after
  Step-IsValid (created id input now fresh) valid = create-IsValid _ valid id input now fresh
  Step-IsValid (updated id input now) valid = update_state-IsValid _ valid id input now
  Step-IsValid (flags_added id flags now) valid = add_flags-IsValid _ valid id flags now
  Step-IsValid (flag_set id flag enabled now) valid =
      set_flag_state-IsValid _ valid id flag enabled now
  Step-IsValid (rolled_back id substate now) valid = rollback-IsValid _ valid id substate now
  Step-IsValid (jira_key_set id key now) valid = jira-IsValid _ valid id key now
  Step-IsValid (pull_request_linked id input now) valid = link-IsValid _ valid id input now

  -- From a store in which every work item is in a state of its workflow, any calls of the methods
  -- that write, failing or not, lead to such a store; a new work item has a fresh identifier.
  pub Reach-IsValid : {db after : Db} → IsValid db → Reach db after → IsValid after
  Reach-IsValid valid here = valid
  Reach-IsValid valid (next reach step) = Step-IsValid step (Reach-IsValid valid reach)
