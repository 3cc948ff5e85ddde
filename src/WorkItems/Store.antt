-- ===== src/WorkItems/Store.antt =====
-- src/work-items/store.ts: the store of work items over the table. Each method that takes the
-- advisory lock of its work item, and runs in a transaction, is one function of the database: it
-- returns its result and the new database, and a throw leaves the database as it was.
pub mod Updates
pub mod Effects
pub mod Invariant
use gooseherd.Prelude.{
  ℕ, zero, suc, ◌+◌, ◌-◌, ◌*◌, ◌/◌, ◌%◌, ◌≤◌, ◌<◌, String, ◌≡◌, refl, sym, ap, subst, ◌∙◌, ◌≢◌, ◌↔◌,
  ◌⊎◌, inl, inr, Bool, true, false, ◌&&◌, ◌||◌, not, Option, none, some, List, [], ◌∷◌, ◌++◌, map,
  max, arith, eq_iff, ltb, leb, nat_eq, nat_eq_iff, if◌then◌else◌, or_default, ◌<|>◌, Bool-cases,
  Option-cases, List-cases, Eq, ◌==◌, String-Eq, Nat-Eq, ==_refl, ==_sym, length, any, every,
  every-append, keep, is_empty, head?, last_or, includes, add, delete, add_all, delete_all,
  distinct, includes-append, includes-add, includes-delete, includes-add_all, includes-delete_all,
  includes-distinct, delete_absent, trim, map_get, map_set, map_delete, map_get-map_set, Result, ok,
  err, Result-cases, Call, ◌>>=◌, ◌>>◌, return, throw, reads, writes, given, check, map_option,
  bind-ok, bind-err,
}
use gooseherd.Prelude.Values.{Number}
use gooseherd.WorkItems.Types.{
  done, cancelled, auto_review, WorkItemState-Eq, WorkItemRecord, CreateWorkItemInput,
  UpdateWorkItemStateInput,
}
use gooseherd.WorkItems.Workflow.{
  PolicyError, assert_state_matches_workflow, assert_state_transition_allowed,
}
use gooseherd.WorkItems.Table.{WorkItemTable}

pub data StoreError : Type 0 where
  not_found : String → StoreError
  not_found_after_update : String → StoreError
  not_found_after_insert : String → StoreError
  policy : PolicyError → StoreError

-- The record of a row: a row has no `activeRunCount`.
abbrev pub row_to_record : WorkItemRecord → WorkItemRecord
row_to_record row = record row { active_run_count = none }

unfoldable pub next_flags : List String → UpdateWorkItemStateInput → List String
next_flags flags input =
    delete_all (add_all (distinct flags) (or_default input.flags_to_add []))
      (or_default input.flags_to_remove [])

-- The columns that `updateState` sets.
unfoldable pub updated_row :
    WorkItemRecord → UpdateWorkItemStateInput → ℕ → WorkItemRecord → WorkItemRecord
updated_row current input now row = record row {
  state = input.state;
  substate = input.substate;
  flags = next_flags current.flags input;
  completed_at = if input.state == done || input.state == cancelled then some now else none;
  updated_at = now;
}

-- `Array.from(nextFlags)` of `setFlagState`.
unfoldable pub flags_with : List String → String → Bool → List String
flags_with flags flag enabled =
    if enabled then add flag (distinct flags) else delete flag (distinct flags)

unfoldable pub same_flags : List String → List String → Bool
same_flags next flags = length next == length flags && every (λ value. includes value next) flags

unfoldable pub new_row : String → CreateWorkItemInput → ℕ → WorkItemRecord
new_row id input now = record {
  id = id;
  workflow = input.workflow;
  state = input.state;
  substate = input.substate;
  active_run_count = none;
  flags = or_default input.flags [];
  title = input.title;
  summary = or_default input.summary "";
  owner_team_id = input.owner_team_id;
  home_channel_id = input.home_channel_id;
  home_thread_ts = input.home_thread_ts;
  origin_channel_id = input.origin_channel_id;
  origin_thread_ts = input.origin_thread_ts;
  jira_issue_key = input.jira_issue_key;
  github_pr_number = input.github_pr_number;
  github_pr_url = input.github_pr_url;
  github_pr_base_branch = input.github_pr_base_branch;
  github_pr_head_branch = input.github_pr_head_branch;
  github_pr_head_sha = input.github_pr_head_sha;
  source_work_item_id = input.source_work_item_id;
  repo = input.repo;
  created_by_user_id = input.created_by_user_id;
  created_at = now;
  updated_at = now;
  completed_at = none;
}

pub record LinkPullRequestInput : Type 0 where
  pub repo : Option String
  pub github_pr_number : Number
  pub github_pr_url : Option String
  pub github_pr_base_branch : Option String
  pub github_pr_head_branch : Option String
  pub github_pr_head_sha : Option String

-- A column that is given `undefined` is left as it is: only `repo` can be.
abbrev pub linked_row : LinkPullRequestInput → ℕ → WorkItemRecord → WorkItemRecord
linked_row input now row = record row {
  repo = input.repo <|> row.repo;
  github_pr_number = some input.github_pr_number;
  github_pr_url = input.github_pr_url;
  github_pr_base_branch = input.github_pr_base_branch;
  github_pr_head_branch = input.github_pr_head_branch;
  github_pr_head_sha = input.github_pr_head_sha;
  updated_at = now;
}

abbrev pub required {ℓ} : {A : Type ℓ} → Option A → StoreError → Result StoreError A
required none e = err e
required (some a) e = ok a

-- The end of a transaction: what a throw leaves is the old database.
abbrev pub committed {ℓ κ} :
    {A : Type ℓ} {D : Type κ} → Result StoreError A → D → D → Result StoreError A × D
committed (ok a) new old = (ok a, new)
committed (err e) new old = (err e, old)

-- The `where` of `rollbackAutoReviewCollectingContext`, but for the key.
abbrev collects_context : WorkItemRecord → Bool
collects_context row =
    row.state == auto_review && (or_default row.substate "" == "collecting_context")

module _ (table : WorkItemTable) where
  open table use {Db, find, insert, set}

  unfoldable pub get_work_item : String → Db → Option WorkItemRecord
  get_work_item id db = map_option row_to_record (find id db)

  unfoldable pub require_work_item : String → Db → Result StoreError WorkItemRecord
  unfolding get_work_item
  require_work_item id db = required (get_work_item id db) (not_found id)

  -- `id` is the fresh `randomUUID()`.
  unfoldable pub create_work_item :
      String → CreateWorkItemInput → ℕ → Db → Result StoreError WorkItemRecord × Db
  unfolding get_work_item new_row
  create_work_item id input now db =
      elim (assert_state_matches_workflow input.workflow input.state) [
        | some e ↦ (err (policy e), db)
        | none ↦
            let db' = insert (new_row id input now) db in
            (required (get_work_item id db') (not_found_after_insert id), db')
      ]

  -- The body of the transaction of `updateState`, from the record that it has read.
  unfoldable pub update_current :
      String
      → UpdateWorkItemStateInput
      → ℕ
      → WorkItemRecord
      → Db
      → Result StoreError WorkItemRecord × Db
  unfolding get_work_item updated_row
  update_current id input now current db =
      elim (assert_state_transition_allowed current.workflow current.state input.state) [
        | some e ↦ (err (policy e), db)
        | none ↦
            let db' = set id (updated_row current input now) db in
            committed (required (get_work_item id db') (not_found_after_update id)) db' db
      ]

  unfoldable pub update_state :
      String → UpdateWorkItemStateInput → ℕ → Db → Result StoreError WorkItemRecord × Db
  unfolding get_work_item update_current
  update_state id input now db = elim (get_work_item id db) [
    | none ↦ (err (not_found id), db)
    | some current ↦ update_current id input now current db
  ]

  unfoldable pub add_flags : String → List String → ℕ → Db → Result StoreError WorkItemRecord × Db
  unfolding get_work_item update_state
  add_flags id flags_to_add now db = elim (get_work_item id db) [
    | none ↦ (err (not_found id), db)
    | some current ↦
        update_state id
          (record {
            state = current.state;
            substate = current.substate;
            flags_to_add = some flags_to_add;
            flags_to_remove = none;
          })
          now db
  ]

  unfoldable pub set_flag_state :
      String → String → Bool → ℕ → Db → Result StoreError WorkItemRecord × Db
  unfolding get_work_item flags_with same_flags require_work_item
  set_flag_state id flag enabled now db = elim (get_work_item id db) [
    | none ↦ (err (not_found id), db)
    | some current ↦
        let next = flags_with current.flags flag enabled in
        let db' = set id (λ row. record row { flags = next; updated_at = now }) db in
        if same_flags next current.flags
        then (ok current, db)
        else committed (require_work_item id db') db' db
  ]

  unfoldable pub rollback_auto_review_collecting_context :
      String → String → ℕ → Db → Option WorkItemRecord × Db
  unfolding get_work_item
  rollback_auto_review_collecting_context id target_substate now db =
      let waits : Bool = elim (find id db) [ none ↦ false | some row ↦ collects_context row ] in
      let db' =
        set id
          (λ row. record row {
            state = auto_review;
            substate = some target_substate;
            updated_at = now;
          })
          db in
      if waits then (get_work_item id db', db') else (none, db)

  unfoldable pub set_jira_issue_key :
      String → String → ℕ → Db → Result StoreError WorkItemRecord × Db
  unfolding get_work_item
  set_jira_issue_key id jira_issue_key now db =
      let db' =
        set id (λ row. record row { jira_issue_key = some jira_issue_key; updated_at = now }) db in
      committed (required (get_work_item id db') (not_found_after_update id)) db' db

  unfoldable pub link_pull_request :
      String → LinkPullRequestInput → ℕ → Db → Result StoreError WorkItemRecord × Db
  unfolding get_work_item
  link_pull_request id input now db =
      let db' = set id (linked_row input now) db in
      committed (required (get_work_item id db') (not_found_after_update id)) db' db
