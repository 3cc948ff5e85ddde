-- ===== src/WorkItems/Reducer/Entered.antt =====
-- A decision carries the command of a state exactly when one of its patches enters that state.
use gooseherd.WorkItems.DeliveryPolicy.{
  advance_state_after_qa_entry, next_state_after_qa_preparation,
  next_state_after_engineering_review, next_state_after_product_review, next_state_after_qa_review,
}
use gooseherd.WorkItems.Reducer.Reviews.{reduce_review_submitted, reduce_review_labels_synced}
use gooseherd.WorkItems.Reducer.Events.{
  reduce_pr_synchronized, reduce_ci_completed, reduce_event, reduce_feature_delivery,
}
use gooseherd.Prelude.{
  String, ◌≡◌, Bool, true, false, ◌&&◌, not, Option, none, some, List, [], ◌∷◌, arith, ◌==◌,
  String-Eq, Nat-Eq, any,
}
use gooseherd.WorkItems.Types.{
  WorkItemRecord, UpdateWorkItemStateInput, WorkItemState, qa_preparation, ready_for_merge,
  WorkItemState-Eq,
}
use gooseherd.WorkItems.Reducer.Ci.{reduce_progress_ready, reduce_successful_ci, reduce_failed_ci}
use gooseherd.WorkItems.Reducer.Decision.{
  Decision, ReducerPolicy, Command, qa_preparation_entered, ready_for_merge_entered,
  commands_for_entered_states, has_flag, is_managed_state, CiConclusion, ReducerEvent, CiCompleted,
  patch_for_state, progress_ready, ci_completed, success, ReviewSubmitted, ReviewLabelsSynced,
  review_submitted, failure, review_labels_synced, pr_synchronized,
}
use gooseherd.WorkItems.Reducer.Path.{
  state_path_after_auto_review, decision_for_state_path, patches_for_path,
}

abbrev pub announces_qa_preparation : Command → Bool
announces_qa_preparation qa_preparation_entered = true
announces_qa_preparation _ = false

abbrev pub announces_ready_for_merge : Command → Bool
announces_ready_for_merge ready_for_merge_entered = true
announces_ready_for_merge _ = false

-- The commands of a decision, against the patches that it makes from a state.
pub record IsAnnounced (state : WorkItemState) (decision : Decision) : Type 0 where
  pub qa_preparation : any announces_qa_preparation decision.commands ≡ (
      not (state == qa_preparation)
      && any (λ patch. patch.state == qa_preparation) decision.patches)
  pub ready_for_merge : any announces_ready_for_merge decision.commands ≡ (
      not (state == ready_for_merge)
      && any (λ patch. patch.state == ready_for_merge) decision.patches)

commands-IsAnnounced :
    (state : WorkItemState) (patches : List UpdateWorkItemStateInput)
    → IsAnnounced state
        (record { patches = patches; commands = commands_for_entered_states state patches })
unfolding commands_for_entered_states
commands-IsAnnounced state patches = ground arith

path-IsAnnounced :
    (state : WorkItemState) (path : List WorkItemState) (flags : List String)
    (fallback : Option String)
    → IsAnnounced state (decision_for_state_path state path flags fallback)
unfolding decision_for_state_path
path-IsAnnounced state path flags fallback =
    commands-IsAnnounced state (patches_for_path (some flags) fallback none path)

progress_ready-IsAnnounced :
    (work_item : WorkItemRecord) (policy : ReducerPolicy)
    → IsAnnounced work_item.state (reduce_progress_ready work_item policy)
unfolding reduce_progress_ready
progress_ready-IsAnnounced work_item policy =
    let path = state_path_after_auto_review work_item (has_flag work_item "ci_green") true policy in
    ground
      (arith, path-IsAnnounced work_item.state path ("self_review_done" ∷ []) work_item.substate)

successful_ci-IsAnnounced :
    (work_item : WorkItemRecord) (event : CiCompleted) (policy : ReducerPolicy)
    → IsAnnounced work_item.state (reduce_successful_ci work_item event policy)
unfolding reduce_successful_ci advance_state_after_qa_entry next_state_after_qa_preparation
    is_managed_state commands_for_entered_states
successful_ci-IsAnnounced work_item event policy =
    let path = state_path_after_auto_review work_item true true policy in
    ground (
      arith,
      path-IsAnnounced work_item.state path ("ci_green" ∷ []) work_item.substate,
      path-IsAnnounced work_item.state path ("ci_green" ∷ "self_review_done" ∷ [])
          work_item.substate,
    )

failed_ci-IsAnnounced :
    (work_item : WorkItemRecord) (event : CiCompleted)
    → IsAnnounced work_item.state (reduce_failed_ci work_item event)
unfolding reduce_failed_ci is_managed_state
failed_ci-IsAnnounced work_item event = ground arith

review_submitted-IsAnnounced :
    (work_item : WorkItemRecord) (event : ReviewSubmitted) (policy : ReducerPolicy)
    → IsAnnounced work_item.state (reduce_review_submitted work_item event policy)
unfolding reduce_review_submitted is_managed_state next_state_after_engineering_review
    next_state_after_product_review advance_state_after_qa_entry patch_for_state
    commands_for_entered_states
review_submitted-IsAnnounced work_item event policy = ground arith

review_labels_synced-IsAnnounced :
    (work_item : WorkItemRecord) (event : ReviewLabelsSynced)
    → IsAnnounced work_item.state (reduce_review_labels_synced work_item event)
unfolding reduce_review_labels_synced is_managed_state next_state_after_engineering_review
    next_state_after_qa_review advance_state_after_qa_entry patch_for_state
    commands_for_entered_states
review_labels_synced-IsAnnounced work_item event = ground arith

pr_synchronized-IsAnnounced :
    (work_item : WorkItemRecord) (policy : ReducerPolicy)
    → IsAnnounced work_item.state (reduce_pr_synchronized work_item policy)
unfolding reduce_pr_synchronized is_managed_state patch_for_state
pr_synchronized-IsAnnounced work_item policy = ground arith

ci_completed-IsAnnounced :
    (conclusion : CiConclusion) (work_item : WorkItemRecord) (event : CiCompleted)
    (policy : ReducerPolicy)
    → IsAnnounced work_item.state (reduce_ci_completed conclusion work_item event policy)
unfolding reduce_ci_completed
ci_completed-IsAnnounced success work_item event policy =
    successful_ci-IsAnnounced work_item event policy
ci_completed-IsAnnounced failure work_item event policy = failed_ci-IsAnnounced work_item event

event-IsAnnounced :
    (work_item : WorkItemRecord) (event : ReducerEvent) (policy : ReducerPolicy)
    → IsAnnounced work_item.state (reduce_event work_item event policy)
unfolding reduce_event
event-IsAnnounced work_item (progress_ready checkpoint_type intent_kind) policy =
    progress_ready-IsAnnounced work_item policy
event-IsAnnounced work_item (ci_completed event) policy =
    ci_completed-IsAnnounced event.conclusion work_item event policy
event-IsAnnounced work_item (review_submitted event) policy =
    review_submitted-IsAnnounced work_item event policy
event-IsAnnounced work_item (review_labels_synced event) policy =
    review_labels_synced-IsAnnounced work_item event
event-IsAnnounced work_item pr_synchronized policy = pr_synchronized-IsAnnounced work_item policy

-- On every event, the decision carries the command of qa_preparation exactly when a patch enters
-- qa_preparation from another state of the work item, and that of ready_for_merge likewise.
pub reduce-IsAnnounced :
    (work_item : WorkItemRecord) (event : ReducerEvent) (policy : ReducerPolicy)
    → IsAnnounced work_item.state (reduce_feature_delivery work_item event policy)
unfolding reduce_feature_delivery
reduce-IsAnnounced work_item event policy = ground (arith, event-IsAnnounced work_item event policy)
