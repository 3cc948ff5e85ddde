-- ===== src/Tests/Discovery.antt =====
-- A discovery with two reviewers, its confirmation, and an override of its state.
use gooseherd.Prelude.{
  String, ◌≡◌, refl, true, false, none, some, List, [], ◌∷◌, if◌then◌else◌, ◌==◌, String-Eq, Nat-Eq,
  any, includes, add, delete, add_all, delete_all, distinct, ok,
}
use gooseherd.WorkItems.Types.{
  WorkItemRecord, product_discovery, waiting_for_review, in_progress, WorkItemState-Eq,
  WorkItemWorkflow-Eq,
}
use gooseherd.WorkItems.Table.{list_table, find_row, set_row}
use gooseherd.WorkItems.Workflow.{
  assert_state_transition_allowed, assert_can_resolve_discovery_review, allowed_state_transitions,
}
use gooseherd.WorkItems.Store.{get_work_item, update_state, update_current, updated_row, next_flags}
use gooseherd.WorkItems.Discovery.Requests.{
  ReviewRequestRecord, review, user_target, pending, changes_requested, is_pending, list_for_round,
  set_request, completed_by, get_review_request, complete_review_request, set_status,
  evaluate_discovery_review_round,
}
use gooseherd.WorkItems.Discovery.Authorization.{
  Identity, user_actor, is_target, require_user_actor, assert_can_respond_to_review_request,
}
use gooseherd.WorkItems.Discovery.Calls.{ServiceDb}
use gooseherd.WorkItems.Discovery.Service.{
  slack_comment, settle_round, admit_outcome, record_comment, record_review_outcome, supersede_all,
}
use gooseherd.WorkItems.Discovery.Rounds.{state_of_round}
use gooseherd.WorkItems.Discovery.Answers.{
  MayAnswer, record_review_outcome-settles, record_review_outcome-changes,
  record_review_outcome-allowed,
}

abbrev pub identity : Identity
identity = record {
  is_active_user = λ u. includes u ("u1" ∷ "u2" ∷ "pm" ∷ []);
  is_user_on_team = λ u t. includes u ("u1" ∷ "pm" ∷ []);
  user_is_admin = λ u. false;
  user_is_pm_for_team = λ u t. u == "pm";
  user_has_team_functional_role = λ u t r. false;
  user_has_org_role = λ u r. false;
}

abbrev pub discovery : WorkItemRecord
discovery = record {
  id = "d1";
  workflow = product_discovery;
  state = waiting_for_review;
  substate = some "waiting_review_responses";
  active_run_count = none;
  flags = [];
  title = "Export";
  summary = "Export of reports";
  owner_team_id = "team";
  home_channel_id = "C1";
  home_thread_ts = "1.0";
  origin_channel_id = none;
  origin_thread_ts = none;
  jira_issue_key = none;
  github_pr_number = none;
  github_pr_url = none;
  github_pr_base_branch = none;
  github_pr_head_branch = none;
  github_pr_head_sha = none;
  source_work_item_id = none;
  repo = none;
  created_by_user_id = "pm";
  created_at = 1;
  updated_at = 2;
  completed_at = none;
}

abbrev request : String → String → ReviewRequestRecord
request id user = record {
  id = id;
  work_item_id = "d1";
  review_round = 1;
  type = review;
  target_type = user_target;
  target_ref = λ field. if field == "userId" then some user else none;
  status = pending;
  outcome = none;
  title = "Please review";
  request_message = "";
  focus_points = [];
  requested_by_user_id = "pm";
  requested_at = 3;
  resolved_at = none;
  created_at = 3;
  updated_at = 3;
}

abbrev pub reviewed : ServiceDb (List WorkItemRecord)
reviewed = record {
  items = discovery ∷ [];
  requests = request "q1" "u1" ∷ request "q2" "u2" ∷ [];
  events = [];
  accepts = λ events. true;
}

abbrev sent_back : WorkItemRecord
sent_back = record discovery {
  state = in_progress;
  substate = some "applying_review_feedback";
  updated_at = 9;
}

-- The first reviewer asks for changes.
answered :
    (record_review_outcome list_table identity "q1"
      (user_actor "u1")
      changes_requested
      slack_comment
      9
      reviewed).0
    ≡ ok sent_back
unfolding record_review_outcome settle_round admit_outcome record_comment supersede_all
    list_for_round set_request get_review_request complete_review_request set_status
    evaluate_discovery_review_round is_target require_user_actor
    assert_can_respond_to_review_request assert_can_resolve_discovery_review get_work_item
    update_state update_current updated_row next_flags find_row set_row
    assert_state_transition_allowed allowed_state_transitions includes add_all delete_all distinct
    add delete
answered = refl

record_review_outcome-changes_example : sent_back.state ≡ in_progress
record_review_outcome-changes_example =
    record_review_outcome-changes list_table identity "q1" (user_actor "u1") changes_requested
      slack_comment 9 reviewed sent_back refl answered

record_review_outcome-settles_example :
    let after =
      (record_review_outcome list_table identity "q1"
        (user_actor "u1")
        changes_requested
        slack_comment
        9
        reviewed).1 in
    let rows = set_request "q1" (completed_by changes_requested 9) reviewed.requests in
    (r : ReviewRequestRecord) × (get_review_request "q1" rows ≡ some r)
    × (sent_back.state ≡ state_of_round (list_for_round r.work_item_id r.review_round rows))
    × (any is_pending (list_for_round r.work_item_id r.review_round after.requests)
        ≡ (sent_back.state == waiting_for_review))
    × (get_work_item list_table "d1" after.items ≡ some sent_back)
record_review_outcome-settles_example =
    record_review_outcome-settles list_table identity "q1" (user_actor "u1") changes_requested
      slack_comment 9 reviewed sent_back answered

record_review_outcome-allowed_example :
    (user_id : String) × (r : ReviewRequestRecord) × (item : WorkItemRecord) × MayAnswer list_table
      identity "q1"
      (user_actor "u1")
      reviewed
      user_id
      r
      item
record_review_outcome-allowed_example =
    record_review_outcome-allowed list_table identity "q1" (user_actor "u1") changes_requested
      slack_comment 9 reviewed sent_back answered
