-- ===== src/WorkItems/Reducer/Gates/Engineering.antt =====
-- The engineering gate: what leaves auto_review stops at the engineering review.
use gooseherd.WorkItems.Types.{WorkItemRecord, auto_review}
use gooseherd.WorkItems.DeliveryPolicy.{
  advance_state_after_qa_entry, next_state_after_qa_preparation,
  next_state_after_engineering_review, next_state_after_product_review, next_state_after_qa_review,
}
use gooseherd.WorkItems.Reducer.Decision.{
  is_managed_state, CiConclusion, ReducerPolicy, CiCompleted, patch_for_state, ReducerEvent,
  has_flag, ReviewSubmitted, ReviewLabelsSynced, progress_ready, success, ci_completed, failure,
  review_submitted, review_labels_synced, pr_synchronized,
}
use gooseherd.WorkItems.Reducer.Path.{state_path_after_auto_review}
use gooseherd.WorkItems.Reducer.Ci.{reduce_progress_ready, reduce_successful_ci, reduce_failed_ci}
use gooseherd.WorkItems.Reducer.Reviews.{reduce_review_submitted, reduce_review_labels_synced}
use gooseherd.WorkItems.Reducer.Events.{
  reduce_pr_synchronized, reduce_ci_completed, reduce_event, reduce_feature_delivery,
}
use gooseherd.Prelude.{◌≡◌, Bool, true, [], ◌∷◌, arith, String-Eq, Nat-Eq, any}
use gooseherd.WorkItems.Reducer.Gates.{
  passes, is_past_engineering, passes-decision, state_path_after_auto_review, reduce_progress_ready,
  reduce_successful_ci, WorkItemRecord, advance_state_after_qa_entry, is_managed_state, auto_review,
}

path-engineering :
    (work_item : WorkItemRecord) (ci_green : Bool) (policy : ReducerPolicy)
    → any is_past_engineering (state_path_after_auto_review work_item ci_green true policy) ≡ true
    → has_flag work_item "engineering_review_done" ≡ true
unfolding state_path_after_auto_review
path-engineering work_item ci_green policy h = ground arith

progress_ready-engineering :
    (work_item : WorkItemRecord) (policy : ReducerPolicy)
    → work_item.state ≡ auto_review
    → passes is_past_engineering (reduce_progress_ready work_item policy).patches ≡ true
    → has_flag work_item "engineering_review_done" ≡ true
unfolding reduce_progress_ready
progress_ready-engineering work_item policy here h =
    let green = has_flag work_item "ci_green" in
    let path = state_path_after_auto_review work_item green true policy in
    ground (
      arith,
      path-engineering work_item green policy,
      passes-decision is_past_engineering work_item.state path ("self_review_done" ∷ [])
          work_item.substate,
    )

successful_ci-engineering :
    (work_item : WorkItemRecord) (event : CiCompleted) (policy : ReducerPolicy)
    → work_item.state ≡ auto_review
    → passes is_past_engineering (reduce_successful_ci work_item event policy).patches ≡ true
    → has_flag work_item "engineering_review_done" ≡ true
unfolding reduce_successful_ci advance_state_after_qa_entry next_state_after_qa_preparation
    is_managed_state
successful_ci-engineering work_item event policy here h =
    let path = state_path_after_auto_review work_item true true policy in
    ground (
      arith,
      path-engineering work_item true policy,
      passes-decision is_past_engineering work_item.state path ("ci_green" ∷ []) work_item.substate,
      passes-decision is_past_engineering work_item.state path
          ("ci_green" ∷ "self_review_done" ∷ []) work_item.substate,
    )

failed_ci-engineering :
    (work_item : WorkItemRecord) (event : CiCompleted)
    → work_item.state ≡ auto_review
    → passes is_past_engineering (reduce_failed_ci work_item event).patches ≡ true
    → has_flag work_item "engineering_review_done" ≡ true
unfolding reduce_failed_ci is_managed_state
failed_ci-engineering work_item event here h = ground arith

review_submitted-engineering :
    (work_item : WorkItemRecord) (event : ReviewSubmitted) (policy : ReducerPolicy)
    → work_item.state ≡ auto_review
    → passes is_past_engineering (reduce_review_submitted work_item event policy).patches ≡ true
    → has_flag work_item "engineering_review_done" ≡ true
unfolding reduce_review_submitted is_managed_state next_state_after_engineering_review
    next_state_after_product_review advance_state_after_qa_entry patch_for_state
review_submitted-engineering work_item event policy here h = ground arith

review_labels_synced-engineering :
    (work_item : WorkItemRecord) (event : ReviewLabelsSynced)
    → work_item.state ≡ auto_review
    → passes is_past_engineering (reduce_review_labels_synced work_item event).patches ≡ true
    → has_flag work_item "engineering_review_done" ≡ true
unfolding reduce_review_labels_synced is_managed_state next_state_after_engineering_review
    next_state_after_qa_review advance_state_after_qa_entry patch_for_state
review_labels_synced-engineering work_item event here h = ground arith

pr_synchronized-engineering :
    (work_item : WorkItemRecord) (policy : ReducerPolicy)
    → work_item.state ≡ auto_review
    → passes is_past_engineering (reduce_pr_synchronized work_item policy).patches ≡ true
    → has_flag work_item "engineering_review_done" ≡ true
unfolding reduce_pr_synchronized is_managed_state patch_for_state
pr_synchronized-engineering work_item policy here h = ground arith

ci_completed-engineering :
    (conclusion : CiConclusion) (work_item : WorkItemRecord) (event : CiCompleted)
    (policy : ReducerPolicy)
    → work_item.state ≡ auto_review
    → passes is_past_engineering (reduce_ci_completed conclusion work_item event policy).patches
      ≡ true
    → has_flag work_item "engineering_review_done" ≡ true
unfolding reduce_ci_completed
ci_completed-engineering success work_item event policy here h =
    successful_ci-engineering work_item event policy here h
ci_completed-engineering failure work_item event policy here h =
    failed_ci-engineering work_item event here h

event-engineering :
    (work_item : WorkItemRecord) (event : ReducerEvent) (policy : ReducerPolicy)
    → work_item.state ≡ auto_review
    → passes is_past_engineering (reduce_event work_item event policy).patches ≡ true
    → has_flag work_item "engineering_review_done" ≡ true
unfolding reduce_event
event-engineering work_item (progress_ready checkpoint_type intent_kind) policy here h =
    progress_ready-engineering work_item policy here h
event-engineering work_item (ci_completed event) policy here h =
    ci_completed-engineering event.conclusion work_item event policy here h
event-engineering work_item (review_submitted event) policy here h =
    review_submitted-engineering work_item event policy here h
event-engineering work_item (review_labels_synced event) policy here h =
    review_labels_synced-engineering work_item event here h
event-engineering work_item pr_synchronized policy here h =
    pr_synchronized-engineering work_item policy here h

-- A decision takes a delivery from auto_review past the engineering review only if the delivery
-- carries the flag of that review.
pub auto_review-needs_engineering :
    (work_item : WorkItemRecord) (event : ReducerEvent) (policy : ReducerPolicy)
    → work_item.state ≡ auto_review
    → passes is_past_engineering (reduce_feature_delivery work_item event policy).patches ≡ true
    → has_flag work_item "engineering_review_done" ≡ true
unfolding reduce_feature_delivery
auto_review-needs_engineering work_item event policy here h =
    ground (arith, event-engineering work_item event policy)
