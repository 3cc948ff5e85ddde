-- ===== src/WorkItems/Discovery/Service.antt =====
-- src/work-items/service.ts: the methods that take a discovery through its reviews. `new_id n` is
-- the n-th fresh identifier of a call, and all times of a call are `now`.
use gooseherd.Prelude.{
  ℕ, suc, String, Option, none, some, List, [], ◌∷◌, ◌++◌, max, if◌then◌else◌, or_default, ◌==◌,
  String-Eq, Nat-Eq, distinct, ◌>>=◌, ◌>>◌, return, reads, writes, given, check,
}
use gooseherd.WorkItems.Types.{
  WorkItemRecord, WorkItemState, CreateWorkItemInput, UpdateWorkItemStateInput, product_discovery,
  backlog, in_progress, waiting_for_review, waiting_for_pm_confirmation, WorkItemState-Eq,
}
use gooseherd.WorkItems.Workflow.{
  assert_can_request_discovery_review, assert_can_resolve_discovery_review,
}
use gooseherd.WorkItems.Table.{WorkItemTable}
use gooseherd.WorkItems.Store.{update_state, create_work_item}
use gooseherd.WorkItems.Discovery.Requests.{
  ReviewRequestRecord, ReviewRequestType, ReviewRequestTargetType, ReviewRequestOutcome, superseded,
  CreateReviewRequestInput, pending, create_review_request, get_review_request, list_for_work_item,
  list_for_round, complete_review_request, set_status, evaluate_discovery_review_round, new_request,
}
use gooseherd.WorkItems.Discovery.Authorization.{
  Identity, WorkItemActor, require_user_actor, assert_can_create_work_item,
  assert_can_request_review, assert_can_respond_to_review_request,
}
use gooseherd.WorkItems.Discovery.Calls.{
  ServiceCall, not_a_user, review_request_not_found, of_authorization, of_policy, on_items,
  on_requests, append_event, require_item, from_round,
}

-- A request of `requestReview`.
pub record ReviewTarget : Type 0 where
  pub type : ReviewRequestType
  pub target_type : ReviewRequestTargetType
  pub target_ref : String → Option String
  pub title : String
  pub request_message : Option String
  pub focus_points : Option (List String)

-- `Math.max(0, ...rounds)`
unfoldable pub last_round : List ReviewRequestRecord → ℕ
last_round [] = 0
last_round (r ∷ rows) = max r.review_round (last_round rows)

-- The comment of an outcome: whether it is empty, and whether its source is Slack.
pub data OutcomeComment : Type 0 where
  no_comment dashboard_comment slack_comment : OutcomeComment

abbrev round_substate : WorkItemState → String
round_substate state =
    if state == waiting_for_pm_confirmation
    then "awaiting_pm_decision"
    else "applying_review_feedback"

abbrev round_flags : WorkItemState → List String
round_flags state =
    if state == waiting_for_pm_confirmation then "all_required_reviews_received" ∷ [] else []

abbrev pub round_update : WorkItemState → UpdateWorkItemStateInput
round_update state = record {
  state = state;
  substate = some (round_substate state);
  flags_to_add = some (round_flags state);
  flags_to_remove = none;
}

module _ (table : WorkItemTable) (identity : Identity) where
  open table use {Db}

  unfoldable pub create_discovery_work_item :
      String → CreateWorkItemInput → ℕ → ServiceCall Db WorkItemRecord
  create_discovery_work_item id input now = do
    check of_authorization
        (assert_can_create_work_item identity input.created_by_user_id input.owner_team_id)
    let keyed : List String = elim input.jira_issue_key [
      | none ↦ []
      | some key ↦ if key == "" then [] else "jira_created" ∷ []
    ]
    work_item ← on_items (
        create_work_item table id
          (record input {
            workflow = product_discovery;
            state = backlog;
            flags = some (distinct (or_default input.flags [] ++ keyed));
          })
          now)
    append_event work_item.id "work_item.created" (some work_item.created_by_user_id)
    return work_item

  unfoldable pub start_discovery : String → ℕ → ServiceCall Db WorkItemRecord
  start_discovery work_item_id now = do
    updated ← on_items (
        update_state table work_item_id
          (record {
            state = in_progress;
            substate = some "collecting_context";
            flags_to_add = none;
            flags_to_remove = none;
          })
          now)
    append_event work_item_id "work_item.state_changed" (some updated.created_by_user_id)
    return updated

  -- The loop of `requestReview`, with the number of identifiers that it has used.
  unfoldable pub create_requests :
      (ℕ → String)
      → String
      → ℕ
      → String
      → ℕ
      → ℕ
      → List ReviewTarget
      → ServiceCall Db (List ReviewRequestRecord)
  create_requests new_id work_item_id review_round user_id now n [] = return []
  create_requests new_id work_item_id review_round user_id now n (target ∷ targets) = do
    let input : CreateReviewRequestInput = record {
      work_item_id = work_item_id;
      review_round = review_round;
      type = target.type;
      target_type = target.target_type;
      target_ref = target.target_ref;
      status = pending;
      title = target.title;
      request_message = target.request_message;
      focus_points = target.focus_points;
      requested_by_user_id = user_id;
    }
    writes (λ db. record db { requests = create_review_request (new_id n) input now db.requests })
    created ← create_requests new_id work_item_id review_round user_id now (suc n) targets
    return (new_request (new_id n) input now ∷ created)

  unfoldable pub request_review :
      (ℕ → String)
      → String
      → WorkItemActor
      → List ReviewTarget
      → ℕ
      → ServiceCall Db (List ReviewRequestRecord)
  request_review new_id work_item_id actor targets now = do
    work_item ← require_item table work_item_id
    user_id ← given (require_user_actor actor) not_a_user
    check of_authorization (assert_can_request_review identity user_id work_item)
    check of_policy (assert_can_request_discovery_review work_item.workflow work_item.state)
    rows ← reads (λ db. list_for_work_item work_item.id db.requests)
    created ← create_requests new_id work_item_id (suc (last_round rows)) user_id now 0 targets
    updated ← on_items (
        update_state table work_item_id
          (record {
            state = waiting_for_review;
            substate = some "waiting_review_responses";
            flags_to_add = none;
            flags_to_remove = none;
          })
          now)
    append_event work_item_id "review_request.created" (some user_id)
    append_event work_item_id "work_item.state_changed" (some user_id)
    return created

  -- The loop over the requests that a round supersedes.
  unfoldable pub supersede_all : ℕ → List String → ServiceCall Db (Unit {0})
  supersede_all now [] = return tt
  supersede_all now (id ∷ ids) = do
    on_requests id (set_status id superseded now)
    supersede_all now ids

  unfoldable pub record_comment : String → String → OutcomeComment → ServiceCall Db (Unit {0})
  record_comment work_item_id user_id comment = elim comment [
    | no_comment ↦ return tt
    | dashboard_comment ↦ append_event work_item_id "review_request.comment_added" (some user_id)
    | slack_comment ↦ do
      append_event work_item_id "review_request.comment_added" (some user_id)
      append_event work_item_id "slack.action_observed" (some user_id)
  ]

  -- The end of `recordReviewOutcome`: the round of the completed request decides.
  unfoldable pub settle_round :
      String → WorkItemRecord → ReviewRequestRecord → ℕ → ServiceCall Db WorkItemRecord
  settle_round user_id work_item completed now = do
    current_round ←
        reads (λ db. list_for_round completed.work_item_id completed.review_round db.requests)
    round_result ←
        from_round
          (evaluate_discovery_review_round work_item.workflow work_item.state current_round)
    supersede_all now round_result.supersede_pending_request_ids
    updated ← on_items (update_state table work_item.id (round_update round_result.next_state) now)
    append_event work_item.id "review_request.completed" (some user_id)
    append_event work_item.id "work_item.state_changed" (some user_id)
    return updated

  -- The guards of `recordReviewOutcome`: the user, and the work item of the request.
  unfoldable pub admit_outcome : String → WorkItemActor → ServiceCall Db (String × WorkItemRecord)
  admit_outcome review_request_id actor = do
    user_id ← given (require_user_actor actor) not_a_user
    found ← reads (λ db. get_review_request review_request_id db.requests)
    existing ← given found (review_request_not_found review_request_id)
    work_item ← require_item table existing.work_item_id
    check of_authorization
        (assert_can_respond_to_review_request identity user_id work_item existing)
    check of_policy (assert_can_resolve_discovery_review work_item.workflow work_item.state)
    return (user_id, work_item)

  unfoldable pub record_review_outcome :
      String
      → WorkItemActor
      → ReviewRequestOutcome
      → OutcomeComment
      → ℕ
      → ServiceCall Db WorkItemRecord
  record_review_outcome review_request_id actor outcome comment now = do
    admitted ← admit_outcome review_request_id actor
    completed ←
        on_requests review_request_id (complete_review_request review_request_id outcome now)
    record_comment completed.work_item_id admitted.0 comment
    settle_round admitted.0 admitted.1 completed now
