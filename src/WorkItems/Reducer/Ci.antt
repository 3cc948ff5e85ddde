-- ===== src/WorkItems/Reducer/Ci.antt =====
-- feature-delivery-reducer.ts: what the progress of a run and a finished CI do to a delivery.
use gooseherd.Prelude.{
  true, false, ◌&&◌, ◌||◌, not, none, some, [], ◌∷◌, if◌then◌else◌, ◌==◌, String-Eq, Nat-Eq,
  is_empty,
}
use gooseherd.WorkItems.Types.{
  backlog, in_progress, auto_review, qa_preparation, WorkItemState-Eq, WorkItemWorkflow-Eq,
  WorkItemRecord, UpdateWorkItemStateInput,
}
use gooseherd.WorkItems.DeliveryPolicy.{
  next_state_after_qa_preparation, advance_state_after_qa_entry,
}
use gooseherd.WorkItems.Reducer.Decision.{
  CiCompleted, ReducerPolicy, reconcile_work_item, Decision, empty_decision, has_flag,
  substate_for_state, commands_for_entered_states, is_managed_state,
}
use gooseherd.WorkItems.Reducer.Path.{state_path_after_auto_review, decision_for_state_path}

unfoldable pub reduce_progress_ready : WorkItemRecord → ReducerPolicy → Decision
reduce_progress_ready work_item policy =
    let path = state_path_after_auto_review work_item (has_flag work_item "ci_green") true policy in
    if not (work_item.state == auto_review)
    then empty_decision
    else if is_empty path
    then record {
      patches =
          record {
            state = auto_review;
            substate = substate_for_state auto_review work_item.substate (some "waiting_ci");
            flags_to_add = some ("self_review_done" ∷ []);
            flags_to_remove = none;
          }
          ∷ [];
      commands = [];
    }
    else decision_for_state_path work_item.state path ("self_review_done" ∷ []) work_item.substate

-- The part of `reduceSuccessfulCi` for a delivery that waits for its own review.
unfoldable pub green_pending_self_review : WorkItemRecord → CiCompleted → Decision
green_pending_self_review work_item event = record {
  patches =
      record {
        state = auto_review;
        substate = some "ci_green_pending_self_review";
        flags_to_add = some ("ci_green" ∷ []);
        flags_to_remove = none;
      }
      ∷ [];
  commands =
      if event.automation_enabled
        && not (has_flag work_item "ci_green")
        && not event.has_active_system_run
      then reconcile_work_item "github.ci_green_pending_self_review" ∷ []
      else [];
}

-- The part for a delivery in auto_review whose review is done or not asked for.
unfoldable pub green_leaves_auto_review : WorkItemRecord → ReducerPolicy → Decision
green_leaves_auto_review work_item policy =
    let path = state_path_after_auto_review work_item true true policy in
    let first_patch_flags =
      if not policy.self_review_enabled && not (has_flag work_item "self_review_done")
      then "ci_green" ∷ "self_review_done" ∷ []
      else "ci_green" ∷ [] in
    if is_empty path
    then record {
      patches =
          record {
            state = auto_review;
            substate = substate_for_state auto_review work_item.substate (some "waiting_ci");
            flags_to_add = some first_patch_flags;
            flags_to_remove = none;
          }
          ∷ [];
      commands = [];
    }
    else decision_for_state_path work_item.state path first_patch_flags work_item.substate

-- The part for a delivery behind auto_review.
unfoldable pub green_later : WorkItemRecord → ReducerPolicy → Decision
green_later work_item policy =
    let next_state =
      if work_item.state == qa_preparation
      then next_state_after_qa_preparation (has_flag work_item "product_review_required") false
          policy.skip_product_review
      else work_item.state in
    let final_state =
      advance_state_after_qa_entry next_state (has_flag work_item "qa_review_done") in
    let next_substate = substate_for_state next_state work_item.substate (some "waiting_ci") in
    let patch : UpdateWorkItemStateInput = record {
      state = next_state;
      substate = next_substate;
      flags_to_add = some ("ci_green" ∷ []);
      flags_to_remove = none;
    } in
    let final_patch : UpdateWorkItemStateInput = record {
      state = final_state;
      substate = substate_for_state final_state next_substate (some "waiting_ci");
      flags_to_add = none;
      flags_to_remove = none;
    } in
    let patches =
      if not (final_state == next_state) then patch ∷ final_patch ∷ [] else patch ∷ [] in
    record { patches = patches; commands = commands_for_entered_states work_item.state patches }

unfoldable pub reduce_successful_ci : WorkItemRecord → CiCompleted → ReducerPolicy → Decision
unfolding green_pending_self_review green_leaves_auto_review green_later
reduce_successful_ci work_item event policy =
    if policy.self_review_enabled
      && work_item.state == auto_review
      && not (has_flag work_item "self_review_done")
    then green_pending_self_review work_item event
    else if work_item.state == auto_review
    then green_leaves_auto_review work_item policy
    else if not (is_managed_state work_item.state)
    then (if work_item.state == backlog || work_item.state == in_progress
        then record {
          patches =
              record {
                state = work_item.state;
                substate = work_item.substate;
                flags_to_add = some ("ci_green" ∷ []);
                flags_to_remove = none;
              }
              ∷ [];
          commands = [];
        }
        else empty_decision)
    else green_later work_item policy

unfoldable pub reduce_failed_ci : WorkItemRecord → CiCompleted → Decision
reduce_failed_ci work_item event =
    if work_item.state == backlog || work_item.state == in_progress
    then record {
      patches =
          record {
            state = auto_review;
            substate = some "ci_failed";
            flags_to_add = none;
            flags_to_remove = some ("ci_green" ∷ []);
          }
          ∷ [];
      commands = [];
    }
    else if not (is_managed_state work_item.state)
    then empty_decision
    else record {
      patches =
          record {
            state = auto_review;
            substate =
                if work_item.state == auto_review && event.has_active_system_run
                then work_item.substate
                else some "ci_failed";
            flags_to_add = none;
            flags_to_remove = some ("ci_green" ∷ []);
          }
          ∷ [];
      commands =
          if event.automation_enabled && not event.has_active_system_run
          then reconcile_work_item "github.ci_failed" ∷ []
          else [];
    }
