-- ===== src/WorkItems/Reducer/Gates/Qa.antt =====
-- The QA gate: ready_for_merge is entered only behind a passed QA review.
use gooseherd.WorkItems.Reducer.Decision.{
  ReducerEvent, ReducerPolicy, is_managed_state, CiConclusion, review_labels_synced, has_flag,
  CiCompleted, patch_for_state, progress_ready, success, ReviewSubmitted, ReviewLabelsSynced,
  ci_completed, failure, review_submitted, pr_synchronized,
}
use gooseherd.WorkItems.DeliveryPolicy.{
  advance_state_after_qa_entry, next_state_after_qa_preparation,
  next_state_after_engineering_review, next_state_after_product_review, next_state_after_qa_review,
}
use gooseherd.WorkItems.Types.{WorkItemRecord, ready_for_merge}
use gooseherd.WorkItems.Reducer.Path.{state_path_after_auto_review}
use gooseherd.WorkItems.Reducer.Ci.{reduce_progress_ready, reduce_successful_ci, reduce_failed_ci}
use gooseherd.WorkItems.Reducer.Reviews.{reduce_review_submitted, reduce_review_labels_synced}
use gooseherd.WorkItems.Reducer.Events.{
  reduce_pr_synchronized, reduce_ci_completed, reduce_event, reduce_feature_delivery,
}
use gooseherd.Prelude.{◌≡◌, ◌≢◌, Bool, true, [], ◌∷◌, arith, String-Eq, Nat-Eq, any}
use gooseherd.WorkItems.Reducer.Gates.{
  passes, is_ready, passes-decision, WorkItemRecord, state_path_after_auto_review,
  reduce_progress_ready, reduce_successful_ci, ReducerEvent, ReducerPolicy,
  advance_state_after_qa_entry, is_managed_state, ready_for_merge,
}

-- What the QA gate asks for: the label in a sync of labels, the flag with any other event.
abbrev pub qa_passed : WorkItemRecord → ReducerEvent → Bool
qa_passed work_item (review_labels_synced event) = event.qa_review_done
qa_passed work_item _ = has_flag work_item "qa_review_done"

path-ready :
    (work_item : WorkItemRecord) (ci_green : Bool) (policy : ReducerPolicy)
    → any is_ready (state_path_after_auto_review work_item ci_green true policy) ≡ true
    → has_flag work_item "qa_review_done" ≡ true
unfolding state_path_after_auto_review
path-ready work_item ci_green policy h = ground arith

progress_ready-ready :
    (work_item : WorkItemRecord) (policy : ReducerPolicy)
    → work_item.state ≢ ready_for_merge
    → passes is_ready (reduce_progress_ready work_item policy).patches ≡ true
    → has_flag work_item "qa_review_done" ≡ true
unfolding reduce_progress_ready
progress_ready-ready work_item policy elsewhere h =
    let green = has_flag work_item "ci_green" in
    let path = state_path_after_auto_review work_item green true policy in
    ground (
      arith,
      path-ready work_item green policy,
      passes-decision is_ready work_item.state path ("self_review_done" ∷ []) work_item.substate,
    )

successful_ci-ready :
    (work_item : WorkItemRecord) (event : CiCompleted) (policy : ReducerPolicy)
    → work_item.state ≢ ready_for_merge
    → passes is_ready (reduce_successful_ci work_item event policy).patches ≡ true
    → has_flag work_item "qa_review_done" ≡ true
unfolding reduce_successful_ci advance_state_after_qa_entry next_state_after_qa_preparation
    is_managed_state
successful_ci-ready work_item event policy elsewhere h =
    let path = state_path_after_auto_review work_item true true policy in
    ground (
      arith,
      path-ready work_item true policy,
      passes-decision is_ready work_item.state path ("ci_green" ∷ []) work_item.substate,
      passes-decision is_ready work_item.state path ("ci_green" ∷ "self_review_done" ∷ [])
          work_item.substate,
    )

failed_ci-ready :
    (work_item : WorkItemRecord) (event : CiCompleted)
    → work_item.state ≢ ready_for_merge
    → passes is_ready (reduce_failed_ci work_item event).patches ≡ true
    → has_flag work_item "qa_review_done" ≡ true
unfolding reduce_failed_ci is_managed_state
failed_ci-ready work_item event elsewhere h = ground arith

review_submitted-ready :
    (work_item : WorkItemRecord) (event : ReviewSubmitted) (policy : ReducerPolicy)
    → work_item.state ≢ ready_for_merge
    → passes is_ready (reduce_review_submitted work_item event policy).patches ≡ true
    → has_flag work_item "qa_review_done" ≡ true
unfolding reduce_review_submitted is_managed_state next_state_after_engineering_review
    next_state_after_product_review advance_state_after_qa_entry patch_for_state
review_submitted-ready work_item event policy elsewhere h = ground arith

review_labels_synced-ready :
    (work_item : WorkItemRecord) (event : ReviewLabelsSynced)
    → work_item.state ≢ ready_for_merge
    → passes is_ready (reduce_review_labels_synced work_item event).patches ≡ true
    → event.qa_review_done ≡ true
unfolding reduce_review_labels_synced is_managed_state next_state_after_engineering_review
    next_state_after_qa_review advance_state_after_qa_entry patch_for_state
review_labels_synced-ready work_item event elsewhere h = ground arith

pr_synchronized-ready :
    (work_item : WorkItemRecord) (policy : ReducerPolicy)
    → work_item.state ≢ ready_for_merge
    → passes is_ready (reduce_pr_synchronized work_item policy).patches ≡ true
    → has_flag work_item "qa_review_done" ≡ true
unfolding reduce_pr_synchronized is_managed_state patch_for_state
pr_synchronized-ready work_item policy elsewhere h = ground arith

ci_completed-ready :
    (conclusion : CiConclusion) (work_item : WorkItemRecord) (event : CiCompleted)
    (policy : ReducerPolicy)
    → work_item.state ≢ ready_for_merge
    → passes is_ready (reduce_ci_completed conclusion work_item event policy).patches ≡ true
    → has_flag work_item "qa_review_done" ≡ true
unfolding reduce_ci_completed
ci_completed-ready success work_item event policy elsewhere h =
    successful_ci-ready work_item event policy elsewhere h
ci_completed-ready failure work_item event policy elsewhere h =
    failed_ci-ready work_item event elsewhere h

event-ready :
    (work_item : WorkItemRecord) (event : ReducerEvent) (policy : ReducerPolicy)
    → work_item.state ≢ ready_for_merge
    → passes is_ready (reduce_event work_item event policy).patches ≡ true
    → qa_passed work_item event ≡ true
unfolding reduce_event
event-ready work_item (progress_ready checkpoint_type intent_kind) policy elsewhere h =
    progress_ready-ready work_item policy elsewhere h
event-ready work_item (ci_completed event) policy elsewhere h =
    ci_completed-ready event.conclusion work_item event policy elsewhere h
event-ready work_item (review_submitted event) policy elsewhere h =
    review_submitted-ready work_item event policy elsewhere h
event-ready work_item (review_labels_synced event) policy elsewhere h =
    review_labels_synced-ready work_item event elsewhere h
event-ready work_item pr_synchronized policy elsewhere h =
    pr_synchronized-ready work_item policy elsewhere h

-- A decision moves a delivery that is elsewhere to ready_for_merge only if the QA review has passed:
-- by the labels, where the event is a sync of labels, and by the flag with any other event.
pub ready_for_merge-needs_qa :
    (work_item : WorkItemRecord) (event : ReducerEvent) (policy : ReducerPolicy)
    → work_item.state ≢ ready_for_merge
    → passes is_ready (reduce_feature_delivery work_item event policy).patches ≡ true
    → qa_passed work_item event ≡ true
unfolding reduce_feature_delivery
ready_for_merge-needs_qa work_item event policy elsewhere h =
    ground (arith, event-ready work_item event policy)
