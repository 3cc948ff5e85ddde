-- ===== src/WorkItems/Reducer/Events.antt =====
-- feature-delivery-reducer.ts: what new commits do, and `reduceFeatureDelivery`.
use gooseherd.Prelude.{
  String, ◌&&◌, ◌||◌, not, none, some, List, [], ◌∷◌, ◌++◌, if◌then◌else◌, ◌==◌, String-Eq, Nat-Eq,
}
use gooseherd.WorkItems.Reducer.Ci.{reduce_progress_ready, reduce_successful_ci, reduce_failed_ci}
use gooseherd.WorkItems.Reducer.Reviews.{reduce_review_submitted, reduce_review_labels_synced}
use gooseherd.WorkItems.Types.{
  WorkItemState, auto_review, engineering_review, qa_review, ready_for_merge, feature_delivery,
  WorkItemState-Eq, WorkItemWorkflow-Eq, WorkItemRecord,
}
use gooseherd.WorkItems.Reducer.Decision.{
  CiCompleted, ReducerEvent, progress_ready, ci_completed, review_submitted, review_labels_synced,
  pr_synchronized, success, failure, CiConclusion, ReducerPolicy, Decision, empty_decision,
  patch_for_state, is_managed_state,
}

-- The flags that new commits take away: the insertions into `flagsToRemove`.
unfoldable pub flags_reset_by_commits : WorkItemState → ReducerPolicy → List String
flags_reset_by_commits state policy =
    "ci_green"
    ∷ "ci_rerun_exhausted"
    ∷ "ci_triage_fix_decided"
    ∷ (if state == ready_for_merge && policy.reset_engineering_review_on_new_commits
        then "engineering_review_done" ∷ "product_review_done" ∷ "qa_review_done" ∷ []
        else (if state == engineering_review && policy.reset_engineering_review_on_new_commits
            then "engineering_review_done" ∷ []
            else [])
          ++ (if (state == qa_review || state == ready_for_merge)
                && policy.reset_qa_review_on_new_commits
              then "qa_review_done" ∷ []
              else []))

unfoldable pub reduce_pr_synchronized : WorkItemRecord → ReducerPolicy → Decision
unfolding flags_reset_by_commits
reduce_pr_synchronized work_item policy =
    if not (is_managed_state work_item.state) then empty_decision else record {
      patches =
          patch_for_state auto_review (record {
            explicit_substate = some "waiting_ci";
            fallback_substate = none;
            default_substate = none;
            flags_to_add = [];
            flags_to_remove = flags_reset_by_commits work_item.state policy;
          })
          ∷ [];
      commands = [];
    }

unfoldable pub reduce_ci_completed :
    CiConclusion → WorkItemRecord → CiCompleted → ReducerPolicy → Decision
reduce_ci_completed success work_item event policy = reduce_successful_ci work_item event policy
reduce_ci_completed failure work_item event policy = reduce_failed_ci work_item event

unfoldable pub reduce_event : WorkItemRecord → ReducerEvent → ReducerPolicy → Decision
unfolding reduce_ci_completed
reduce_event work_item (progress_ready checkpoint_type intent_kind) policy =
    reduce_progress_ready work_item policy
reduce_event work_item (ci_completed event) policy =
    reduce_ci_completed event.conclusion work_item event policy
reduce_event work_item (review_submitted event) policy =
    reduce_review_submitted work_item event policy
reduce_event work_item (review_labels_synced event) policy =
    reduce_review_labels_synced work_item event
reduce_event work_item pr_synchronized policy = reduce_pr_synchronized work_item policy

unfoldable pub reduce_feature_delivery : WorkItemRecord → ReducerEvent → ReducerPolicy → Decision
unfolding reduce_event
reduce_feature_delivery work_item event policy =
    if not (work_item.workflow == feature_delivery)
    then empty_decision
    else reduce_event work_item event policy
