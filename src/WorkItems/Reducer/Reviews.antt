-- ===== src/WorkItems/Reducer/Reviews.antt =====
-- feature-delivery-reducer.ts: what a submitted review and the synced review labels do.
use gooseherd.Prelude.{
  String, ◌&&◌, ◌||◌, not, none, some, List, [], ◌∷◌, ◌++◌, if◌then◌else◌, ◌==◌, String-Eq, Nat-Eq,
  keep, is_empty, includes,
}
use gooseherd.WorkItems.Types.{
  WorkItemState, auto_review, engineering_review, product_review, qa_review, WorkItemState-Eq,
  WorkItemWorkflow-Eq, WorkItemRecord,
}
use gooseherd.WorkItems.DeliveryPolicy.{
  approved, is_approved, next_state_after_engineering_review, next_state_after_product_review,
  next_state_after_qa_review, advance_state_after_qa_entry,
}
use gooseherd.WorkItems.Reducer.Decision.{
  ReviewSubmitted, ReviewLabelsSynced, ReducerPolicy, reconcile_work_item, Decision, empty_decision,
  has_flag, patch_for_state, commands_for_entered_states, is_managed_state,
}

-- The end of `reduceReviewSubmitted`: a review of engineering_review or product_review.
review_patches :
    WorkItemRecord → ReviewSubmitted → ReducerPolicy → WorkItemState → List String → Decision
review_patches work_item event policy next_state flags_to_add =
    let final_state =
      if is_managed_state next_state
      then advance_state_after_qa_entry next_state (has_flag work_item "qa_review_done")
      else next_state in
    let changes_requested_substate =
      if policy.apply_review_feedback_enabled then "applying_review_feedback" else "waiting_ci" in
    let patch = patch_for_state next_state (record {
      explicit_substate =
          if is_approved event.review_state then none else some changes_requested_substate;
      fallback_substate = work_item.substate;
      default_substate = if is_approved event.review_state then some "waiting_ci" else none;
      flags_to_add = flags_to_add;
      flags_to_remove = [];
    }) in
    let final_patch = patch_for_state final_state (record {
      explicit_substate = none;
      fallback_substate = patch.substate;
      default_substate = some "waiting_ci";
      flags_to_add = [];
      flags_to_remove = [];
    }) in
    let patches =
      if not (final_state == next_state) then patch ∷ final_patch ∷ [] else patch ∷ [] in
    record {
      patches = patches;
      commands =
          (if not (is_approved event.review_state)
              && event.automation_enabled
              && policy.apply_review_feedback_enabled
            then reconcile_work_item "github.review_changes_requested" ∷ []
            else [])
          ++ commands_for_entered_states work_item.state patches;
    }

unfoldable pub reduce_review_submitted : WorkItemRecord → ReviewSubmitted → ReducerPolicy → Decision
unfolding review_patches
reduce_review_submitted work_item event policy =
    if work_item.state == qa_review
    then (if is_approved event.review_state || policy.apply_review_feedback_enabled
        then empty_decision
        else record {
          patches =
              record {
                state = auto_review;
                substate = some "waiting_ci";
                flags_to_add = none;
                flags_to_remove = none;
              }
              ∷ [];
          commands = [];
        })
    else if not (work_item.state == engineering_review) && not (work_item.state == product_review)
    then empty_decision
    else if work_item.state == engineering_review
    then review_patches work_item event policy
        (next_state_after_engineering_review event.review_state)
        (if is_approved event.review_state then "engineering_review_done" ∷ [] else [])
    else review_patches work_item event policy (next_state_after_product_review event.review_state)
        (if is_approved event.review_state then "product_review_done" ∷ [] else [])

abbrev review_result_flags : List String
review_result_flags = "engineering_review_done" ∷ "qa_review_done" ∷ []

abbrev flags_from_label_sync : ReviewLabelsSynced → List String
flags_from_label_sync event =
    (if event.engineering_review_done then "engineering_review_done" ∷ [] else [])
    ++ (if event.qa_review_done then "qa_review_done" ∷ [] else [])

-- `flagsActuallyAdded` and `flagsActuallyRemoved`, from the flags that the work item has.
unfoldable pub label_flags_added : List String → ReviewLabelsSynced → List String
label_flags_added flags event =
    keep (λ flag. not (includes flag flags)) (flags_from_label_sync event)

unfoldable pub label_flags_removed : List String → ReviewLabelsSynced → List String
unfolding includes
label_flags_removed flags event =
    keep (λ flag. includes flag flags)
      (keep (λ flag. not (includes flag (flags_from_label_sync event))) review_result_flags)

unfoldable pub reduce_review_labels_synced : WorkItemRecord → ReviewLabelsSynced → Decision
reduce_review_labels_synced work_item event =
    let flags_actually_added = label_flags_added work_item.flags event in
    let flags_actually_removed = label_flags_removed work_item.flags event in
    let next_state =
      if work_item.state == engineering_review && event.engineering_review_done
      then next_state_after_engineering_review approved
      else if work_item.state == qa_review && event.qa_review_done
      then next_state_after_qa_review approved
      else work_item.state in
    let final_state =
      if is_managed_state next_state
      then advance_state_after_qa_entry next_state event.qa_review_done
      else next_state in
    let patch = patch_for_state next_state (record {
      explicit_substate = if next_state == work_item.state then work_item.substate else none;
      fallback_substate = work_item.substate;
      default_substate = none;
      flags_to_add = flags_actually_added;
      flags_to_remove = flags_actually_removed;
    }) in
    let final_patch = patch_for_state final_state (record {
      explicit_substate = none;
      fallback_substate = patch.substate;
      default_substate = none;
      flags_to_add = [];
      flags_to_remove = [];
    }) in
    let patches =
      if not (final_state == next_state) then patch ∷ final_patch ∷ [] else patch ∷ [] in
    if not (is_managed_state work_item.state)
    then empty_decision
    else if next_state == work_item.state
        && final_state == work_item.state
        && is_empty flags_actually_added
        && is_empty flags_actually_removed
    then empty_decision
    else record {
      patches = patches;
      commands = commands_for_entered_states work_item.state patches;
    }
