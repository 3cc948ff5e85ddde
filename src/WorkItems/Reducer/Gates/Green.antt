-- ===== src/WorkItems/Reducer/Gates/Green.antt =====
-- The CI gate: auto_review is left only by a green CI.
use gooseherd.WorkItems.DeliveryPolicy.{
  next_state_after_engineering_review, next_state_after_product_review, next_state_after_qa_review,
  advance_state_after_qa_entry,
}
use gooseherd.WorkItems.Reducer.Decision.{
  ReducerEvent, ReducerPolicy, is_managed_state, CiConclusion, progress_ready, CiCompleted,
  patch_for_state, has_flag, is_success, ci_completed, review_submitted, success, ReviewSubmitted,
  ReviewLabelsSynced, review_labels_synced, failure, pr_synchronized,
}
use gooseherd.WorkItems.Types.{WorkItemRecord, auto_review}
use gooseherd.WorkItems.Reducer.Path.{state_path_after_auto_review}
use gooseherd.WorkItems.Reducer.Ci.{reduce_progress_ready, reduce_failed_ci}
use gooseherd.WorkItems.Reducer.Reviews.{reduce_review_submitted, reduce_review_labels_synced}
use gooseherd.WorkItems.Reducer.Events.{
  reduce_pr_synchronized, reduce_ci_completed, reduce_event, reduce_feature_delivery,
}
use gooseherd.Prelude.{◌≡◌, refl, Bool, true, false, [], ◌∷◌, arith, String-Eq, Nat-Eq, any}
use gooseherd.WorkItems.Reducer.Gates.{
  passes, is_not_auto_review, passes-decision, WorkItemRecord, state_path_after_auto_review,
  reduce_progress_ready, ReducerEvent, ReducerPolicy, is_managed_state, auto_review,
}

-- What the CI gate asks for: the green CI itself, or its flag when a run reports progress.
abbrev pub ci_passed : WorkItemRecord → ReducerEvent → Bool
ci_passed work_item (progress_ready _ _) = has_flag work_item "ci_green"
ci_passed work_item (ci_completed event) = is_success event.conclusion
ci_passed work_item _ = false

path-green :
    (work_item : WorkItemRecord) (ci_green : Bool) (policy : ReducerPolicy)
    → any is_not_auto_review (state_path_after_auto_review work_item ci_green true policy) ≡ true
    → ci_green ≡ true
unfolding state_path_after_auto_review
path-green work_item ci_green policy h = ground arith

progress_ready-green :
    (work_item : WorkItemRecord) (policy : ReducerPolicy)
    → work_item.state ≡ auto_review
    → passes is_not_auto_review (reduce_progress_ready work_item policy).patches ≡ true
    → has_flag work_item "ci_green" ≡ true
unfolding reduce_progress_ready
progress_ready-green work_item policy here h =
    let green = has_flag work_item "ci_green" in
    let path = state_path_after_auto_review work_item green true policy in
    ground (
      arith,
      path-green work_item green policy,
      passes-decision is_not_auto_review work_item.state path ("self_review_done" ∷ [])
          work_item.substate,
    )

failed_ci-green :
    (work_item : WorkItemRecord) (event : CiCompleted)
    → work_item.state ≡ auto_review
    → passes is_not_auto_review (reduce_failed_ci work_item event).patches ≡ true
    → ⊥
unfolding reduce_failed_ci is_managed_state
failed_ci-green work_item event here h = ground arith

review_submitted-green :
    (work_item : WorkItemRecord) (event : ReviewSubmitted) (policy : ReducerPolicy)
    → work_item.state ≡ auto_review
    → passes is_not_auto_review (reduce_review_submitted work_item event policy).patches ≡ true
    → ⊥
unfolding reduce_review_submitted is_managed_state next_state_after_engineering_review
    next_state_after_product_review advance_state_after_qa_entry patch_for_state
review_submitted-green work_item event policy here h = ground arith

review_labels_synced-green :
    (work_item : WorkItemRecord) (event : ReviewLabelsSynced)
    → work_item.state ≡ auto_review
    → passes is_not_auto_review (reduce_review_labels_synced work_item event).patches ≡ true
    → ⊥
unfolding reduce_review_labels_synced is_managed_state next_state_after_engineering_review
    next_state_after_qa_review advance_state_after_qa_entry patch_for_state
review_labels_synced-green work_item event here h = ground arith

pr_synchronized-green :
    (work_item : WorkItemRecord) (policy : ReducerPolicy)
    → work_item.state ≡ auto_review
    → passes is_not_auto_review (reduce_pr_synchronized work_item policy).patches ≡ true
    → ⊥
unfolding reduce_pr_synchronized is_managed_state patch_for_state
pr_synchronized-green work_item policy here h = ground arith

ci_completed-green :
    (conclusion : CiConclusion) (work_item : WorkItemRecord) (event : CiCompleted)
    (policy : ReducerPolicy)
    → work_item.state ≡ auto_review
    → passes is_not_auto_review (reduce_ci_completed conclusion work_item event policy).patches
      ≡ true
    → is_success conclusion ≡ true
unfolding reduce_ci_completed
ci_completed-green success work_item event policy here h = refl
ci_completed-green failure work_item event policy here h =
    absurd (failed_ci-green work_item event here h)

event-green :
    (work_item : WorkItemRecord) (event : ReducerEvent) (policy : ReducerPolicy)
    → work_item.state ≡ auto_review
    → passes is_not_auto_review (reduce_event work_item event policy).patches ≡ true
    → ci_passed work_item event ≡ true
unfolding reduce_event
event-green work_item (progress_ready checkpoint_type intent_kind) policy here h =
    progress_ready-green work_item policy here h
event-green work_item (ci_completed event) policy here h =
    ci_completed-green event.conclusion work_item event policy here h
event-green work_item (review_submitted event) policy here h =
    absurd (review_submitted-green work_item event policy here h)
event-green work_item (review_labels_synced event) policy here h =
    absurd (review_labels_synced-green work_item event here h)
event-green work_item pr_synchronized policy here h =
    absurd (pr_synchronized-green work_item policy here h)

-- A decision takes a delivery out of auto_review only if its CI is green: the event says so, or, when
-- a run reports its progress, the flag.
pub auto_review-needs_ci :
    (work_item : WorkItemRecord) (event : ReducerEvent) (policy : ReducerPolicy)
    → work_item.state ≡ auto_review
    → passes is_not_auto_review (reduce_feature_delivery work_item event policy).patches ≡ true
    → ci_passed work_item event ≡ true
unfolding reduce_feature_delivery
auto_review-needs_ci work_item event policy here h =
    ground (arith, event-green work_item event policy)
