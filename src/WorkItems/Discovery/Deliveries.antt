-- ===== src/WorkItems/Discovery/Deliveries.antt =====
-- src/work-items/service.ts: the methods that create feature deliveries, and `confirmDiscovery`.
-- A fresh identifier of a call is an argument, and all times of a call are `now`.
use gooseherd.Prelude.{
  ℕ, String, ◌≡◌, Bool, true, false, ◌&&◌, not, Option, none, some, List, [], ◌∷◌, if◌then◌else◌,
  or_default, ◌<|>◌, ◌==◌, String-Eq, Nat-Eq, is_empty, trim, ◌>>=◌, ◌>>◌, return, reads, given,
  check, map_option,
}
use gooseherd.WorkItems.Types.{
  WorkItemRecord, WorkItemState, CreateWorkItemInput, UpdateWorkItemStateInput, product_discovery,
  feature_delivery, backlog, done, WorkItemState-Eq, WorkItemWorkflow-Eq,
}
use gooseherd.WorkItems.Workflow.{assert_can_confirm_discovery}
use gooseherd.WorkItems.Table.{WorkItemTable}
use gooseherd.WorkItems.Store.{update_state, create_work_item, set_jira_issue_key, add_flags}
use gooseherd.WorkItems.Discovery.Requests.{next_discovery_state_after_pm_confirmation}
use gooseherd.WorkItems.Discovery.Authorization.{
  Identity, WorkItemActor, require_user_actor, assert_can_apply_manual_transition,
}
use gooseherd.WorkItems.Discovery.Calls.{
  ServiceCall, not_a_user, jira_key_required, delivery_exists, not_discovery_source,
  discovery_not_done, of_authorization, of_policy, on_items, append_event, require_item,
  transaction,
}

-- `a || b` on texts that may be missing: an empty one counts as missing.
abbrev pub non_empty : Option String → Option String
non_empty none = none
non_empty (some s) = if s == "" then none else some s

unfoldable pub jira_key : Option String → WorkItemRecord → Option String
jira_key given_key item = non_empty (map_option trim given_key) <|> non_empty item.jira_issue_key

-- A delivery of a discovery: what `createWorkItem` is given.
unfoldable pub delivery_input : WorkItemRecord → String → String → CreateWorkItemInput
delivery_input discovery jira_issue_key user_id = record {
  workflow = feature_delivery;
  state = backlog;
  substate = none;
  flags = some [];
  title = discovery.title;
  summary = some discovery.summary;
  owner_team_id = discovery.owner_team_id;
  home_channel_id = discovery.home_channel_id;
  home_thread_ts = discovery.home_thread_ts;
  origin_channel_id = discovery.origin_channel_id;
  origin_thread_ts = discovery.origin_thread_ts;
  jira_issue_key = some jira_issue_key;
  github_pr_number = none;
  github_pr_url = none;
  github_pr_base_branch = none;
  github_pr_head_branch = none;
  github_pr_head_sha = none;
  source_work_item_id = some discovery.id;
  repo = none;
  created_by_user_id = user_id;
}

abbrev pub approved_update : UpdateWorkItemStateInput
approved_update = record {
  state = done;
  substate = none;
  flags_to_add = some ("pm_approved" ∷ "jira_created" ∷ "delivery_work_item_created" ∷ []);
  flags_to_remove = none;
}

abbrev pub rejected_update : UpdateWorkItemStateInput
rejected_update =
    let state = next_discovery_state_after_pm_confirmation false in
    record {
      state = state;
      substate = if state == done then none else some "applying_review_feedback";
      flags_to_add = some [];
      flags_to_remove = none;
    }

abbrev pub is_delivery_of : String → WorkItemRecord → Bool
is_delivery_of source r =
    or_default (map_option (λ s. s == source) r.source_work_item_id) false
    && r.workflow == feature_delivery

-- `listFeatureDeliveriesBySourceWorkItemId`, a query of the table: what an insertion of a new row and
-- an update of a row make of whether it finds any.
pub record DeliveryQuery (table : WorkItemTable) : Type 1 where
  pub deliveries_of : String → table.Db → List WorkItemRecord
  pub deliveries_of-insert :
      (s : String) (r : WorkItemRecord) (db : table.Db)
      → table.find r.id db ≡ none
      → is_empty (deliveries_of s (table.insert r db))
        ≡ not (is_delivery_of s r) && is_empty (deliveries_of s db)
  pub deliveries_of-set :
      (s i : String) (f : WorkItemRecord → WorkItemRecord) (db : table.Db)
      → ((r : WorkItemRecord) → is_delivery_of s (f r) ≡ is_delivery_of s r)
      → is_empty (deliveries_of s (table.set i f db)) ≡ is_empty (deliveries_of s db)

-- A request of `createFeatureDelivery`: its input but for the workflow, with the initial state.
unfoldable pub create_feature_delivery :
    (table : WorkItemTable) (id : String)
    → Option WorkItemState
    → CreateWorkItemInput
    → ℕ
    → ServiceCall table.Db WorkItemRecord
create_feature_delivery table id initial_state input now = do
  delivery ← on_items (
      create_work_item table id
        (record input {
          workflow = feature_delivery;
          state = or_default initial_state backlog;
          flags = some (or_default input.flags []);
        })
        now)
  append_event delivery.id "work_item.created" (some input.created_by_user_id)
  return delivery

module _ (table : WorkItemTable) (query : DeliveryQuery table) (identity : Identity) where
  open table use {Db}

  -- The body of the transaction of `confirmDiscovery`: its guards, the key, and the delivery.
  unfoldable pub admit_completion :
      String → Option String → ServiceCall Db (WorkItemRecord × String)
  admit_completion work_item_id given_key = do
    current ← require_item table work_item_id
    check of_policy (assert_can_confirm_discovery current.workflow current.state)
    key ← given (jira_key given_key current) jira_key_required
    existing ← reads (λ db. query.deliveries_of current.id db.items)
    check delivery_exists (if is_empty existing then none else some current.id)
    return (current, key)

  unfoldable pub remember_key : WorkItemRecord → String → ℕ → ServiceCall Db (Unit {0})
  remember_key current key now = elim (non_empty current.jira_issue_key) [
    | some known ↦ return tt
    | none ↦ do keyed ← on_items (set_jira_issue_key table current.id key now); return tt
  ]

  unfoldable pub deliver :
      String → String → WorkItemRecord → String → String → ℕ → ServiceCall Db WorkItemRecord
  deliver new_id work_item_id current key user_id now = do
    delivery ← on_items (create_work_item table new_id (delivery_input current key user_id) now)
    updated ← on_items (update_state table work_item_id approved_update now)
    append_event work_item_id "work_item.state_changed" (some user_id)
    append_event delivery.id "work_item.created" (some user_id)
    return updated

  unfoldable pub complete_discovery :
      String → String → String → Option String → ℕ → ServiceCall Db WorkItemRecord
  complete_discovery new_id work_item_id user_id given_key now = do
    found ← admit_completion work_item_id given_key
    remember_key found.0 found.1 now
    deliver new_id work_item_id found.0 found.1 user_id now

  unfoldable pub reject_discovery : String → String → ℕ → ServiceCall Db WorkItemRecord
  reject_discovery work_item_id user_id now = do
    updated ← on_items (update_state table work_item_id rejected_update now)
    append_event work_item_id "work_item.state_changed" (some user_id)
    return updated

  -- The guards of `confirmDiscovery`.
  unfoldable pub admit_confirmation :
      String → WorkItemActor → ServiceCall Db (String × WorkItemRecord)
  admit_confirmation work_item_id actor = do
    work_item ← require_item table work_item_id
    user_id ← given (require_user_actor actor) not_a_user
    check of_authorization (assert_can_apply_manual_transition identity user_id work_item)
    check of_policy (assert_can_confirm_discovery work_item.workflow work_item.state)
    return (user_id, work_item)

  unfoldable pub confirm_discovery :
      String → String → Bool → WorkItemActor → Option String → ℕ → ServiceCall Db WorkItemRecord
  confirm_discovery new_id work_item_id approved actor given_key now = do
    admitted ← admit_confirmation work_item_id actor
    elim approved [
      | false ↦ reject_discovery work_item_id admitted.0 now
      | true ↦ do
        key ← given (jira_key given_key admitted.1) jira_key_required
        transaction (complete_discovery new_id work_item_id admitted.0 given_key now)
    ]

  unfoldable pub create_delivery_from_discovery :
      String → String → String → String → ℕ → ServiceCall Db WorkItemRecord
  create_delivery_from_discovery new_id discovery_id key user_id now = do
    discovery ← require_item table discovery_id
    check not_discovery_source
        (if discovery.workflow == product_discovery then none else some discovery.workflow)
    check discovery_not_done (if discovery.state == done then none else some discovery.state)
    delivery ← on_items (create_work_item table new_id (delivery_input discovery key user_id) now)
    flagged ← on_items (add_flags table discovery.id ("delivery_work_item_created" ∷ []) now)
    append_event discovery.id "work_item.flags_updated" (some user_id)
    append_event delivery.id "work_item.created" (some user_id)
    return delivery
