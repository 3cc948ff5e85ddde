-- ===== src/WorkItems/Reducer/Legal.antt =====
-- The patches of a decision, as a chain of transitions of the feature delivery workflow.
use gooseherd.Prelude.{
  String, ◌≡◌, sym, subst, inl, inr, Bool, true, ◌&&◌, not, Option, none, some, List, [], ◌∷◌,
  arith, Bool-cases, ◌==◌, String-Eq, Nat-Eq, is_empty,
}
use gooseherd.WorkItems.DeliveryPolicy.{
  next_state_after_qa_preparation, next_state_after_engineering_review,
  advance_state_after_qa_entry, next_state_after_product_review, next_state_after_qa_review,
}
use gooseherd.WorkItems.Reducer.Reviews.{reduce_review_submitted, reduce_review_labels_synced}
use gooseherd.WorkItems.Reducer.Events.{
  reduce_pr_synchronized, reduce_event, reduce_feature_delivery, reduce_ci_completed,
}
use gooseherd.WorkItems.Reducer.Ci.{
  green_pending_self_review, green_leaves_auto_review, green_later, reduce_progress_ready,
  reduce_failed_ci, reduce_successful_ci,
}
use gooseherd.WorkItems.Types.{
  state_eq_iff, WorkItemState, auto_review, WorkItemState-Eq, WorkItemRecord,
  UpdateWorkItemStateInput, feature_delivery, WorkItemWorkflow-Eq,
}
use gooseherd.WorkItems.Workflow.{assert_state_transition_allowed}
use gooseherd.WorkItems.Reducer.Decision.{
  pr_synchronized, is_managed_state, patch_for_state, CiCompleted, ReviewSubmitted,
  ReviewLabelsSynced, has_flag, ReducerPolicy, Decision, CiConclusion, success, ReducerEvent,
  failure, progress_ready, ci_completed, review_submitted, review_labels_synced,
}
use gooseherd.WorkItems.Reducer.Path.{
  state_path_after_auto_review, patches_for_path, decision_for_state_path,
}

-- Each patch is an allowed transition from the state that the patch before it leaves.
abbrev pub IsLegalChain : WorkItemState → List UpdateWorkItemStateInput → Type 0
IsLegalChain state [] = Unit
IsLegalChain state (patch ∷ patches) =
    (assert_state_transition_allowed feature_delivery state patch.state ≡ none)
    × IsLegalChain patch.state patches

abbrev pub IsLegalPath : WorkItemState → List WorkItemState → Type 0
IsLegalPath state [] = Unit
IsLegalPath state (next ∷ path) =
    (assert_state_transition_allowed feature_delivery state next ≡ none) × IsLegalPath next path

pub path-IsLegal :
    (work_item : WorkItemRecord) (ci_green self_review_done : Bool) (policy : ReducerPolicy)
    → IsLegalPath auto_review
        (state_path_after_auto_review work_item ci_green self_review_done policy)
unfolding state_path_after_auto_review assert_state_transition_allowed
path-IsLegal work_item ci_green self_review_done policy = ground arith

patches_for_path-IsLegal :
    (flags : Option (List String)) (fallback : Option String) (previous : Option WorkItemState)
    (state : WorkItemState) (path : List WorkItemState)
    → IsLegalPath state path
    → IsLegalChain state (patches_for_path flags fallback previous path)
unfolding patches_for_path
patches_for_path-IsLegal flags fallback previous state [] h = tt
patches_for_path-IsLegal flags fallback previous state (next ∷ path) h =
    (h.0, patches_for_path-IsLegal none fallback (some next) next path h.1)

abbrev IsLegal : WorkItemRecord → Decision → Type 0
IsLegal work_item decision = IsLegalChain work_item.state decision.patches

decision_for_state_path-IsLegal :
    (work_item : WorkItemRecord) (path : List WorkItemState) (flags : List String)
    → IsLegalPath work_item.state path
    → IsLegal work_item (decision_for_state_path work_item.state path flags work_item.substate)
unfolding decision_for_state_path
decision_for_state_path-IsLegal work_item path flags h =
    patches_for_path-IsLegal (some flags) work_item.substate none work_item.state path h

-- What `path-IsLegal` says of a work item that is in auto_review.
path-IsLegal_at :
    (work_item : WorkItemRecord) (ci_green : Bool) (policy : ReducerPolicy)
    → work_item.state ≡ auto_review
    → IsLegalPath work_item.state (state_path_after_auto_review work_item ci_green true policy)
path-IsLegal_at work_item ci_green policy at =
    subst (λ s. IsLegalPath s (state_path_after_auto_review work_item ci_green true policy))
      (sym at) (path-IsLegal work_item ci_green true policy)

legal_stay :
    (state : WorkItemState)
    → state ≡ auto_review
    → assert_state_transition_allowed feature_delivery state auto_review ≡ none
unfolding assert_state_transition_allowed
legal_stay state at = ground arith

reduce_progress_ready-IsLegal :
    (work_item : WorkItemRecord) (policy : ReducerPolicy)
    → IsLegal work_item (reduce_progress_ready work_item policy)
unfolding reduce_progress_ready
reduce_progress_ready-IsLegal work_item policy =
    let path = state_path_after_auto_review work_item (has_flag work_item "ci_green") true policy in
    elim (Bool-cases (work_item.state == auto_review)) [
      | inr other ↦ rw other tt
      | inl here ↦ rw here (elim (Bool-cases (is_empty path)) [
        | inl empty ↦ rw empty (legal_stay work_item.state ((state_eq_iff _ _).0 here), tt)
        | inr more ↦ rw more (
            decision_for_state_path-IsLegal work_item path _
              (path-IsLegal_at work_item _ policy ((state_eq_iff _ _).0 here)))
      ])
    ]

green_pending-IsLegal :
    (work_item : WorkItemRecord) (event : CiCompleted)
    → work_item.state ≡ auto_review
    → IsLegal work_item (green_pending_self_review work_item event)
unfolding green_pending_self_review
green_pending-IsLegal work_item event at = (legal_stay work_item.state at, tt)

green_leaves-IsLegal :
    (work_item : WorkItemRecord) (policy : ReducerPolicy)
    → work_item.state ≡ auto_review
    → IsLegal work_item (green_leaves_auto_review work_item policy)
unfolding green_leaves_auto_review
green_leaves-IsLegal work_item policy at =
    let path = state_path_after_auto_review work_item true true policy in
    elim (Bool-cases (is_empty path)) [
      | inl empty ↦ rw empty (legal_stay work_item.state at, tt)
      | inr more ↦
          rw more (
            decision_for_state_path-IsLegal work_item path _
              (path-IsLegal_at work_item _ policy at))
    ]

green_later-IsLegal :
    (work_item : WorkItemRecord) (policy : ReducerPolicy)
    → is_managed_state work_item.state ≡ true
    → IsLegal work_item (green_later work_item policy)
unfolding green_later is_managed_state assert_state_transition_allowed
    next_state_after_qa_preparation advance_state_after_qa_entry
green_later-IsLegal work_item policy managed = ground arith

reduce_failed_ci-IsLegal :
    (work_item : WorkItemRecord) (event : CiCompleted)
    → IsLegal work_item (reduce_failed_ci work_item event)
unfolding reduce_failed_ci is_managed_state assert_state_transition_allowed
reduce_failed_ci-IsLegal work_item event = ground arith

reduce_review_submitted-IsLegal :
    (work_item : WorkItemRecord) (event : ReviewSubmitted) (policy : ReducerPolicy)
    → IsLegal work_item (reduce_review_submitted work_item event policy)
unfolding reduce_review_submitted is_managed_state assert_state_transition_allowed
    next_state_after_engineering_review next_state_after_product_review advance_state_after_qa_entry
    patch_for_state
reduce_review_submitted-IsLegal work_item event policy = ground arith

reduce_review_labels_synced-IsLegal :
    (work_item : WorkItemRecord) (event : ReviewLabelsSynced)
    → IsLegal work_item (reduce_review_labels_synced work_item event)
unfolding reduce_review_labels_synced is_managed_state assert_state_transition_allowed
    next_state_after_engineering_review next_state_after_qa_review advance_state_after_qa_entry
    patch_for_state
reduce_review_labels_synced-IsLegal work_item event = ground arith

reduce_pr_synchronized-IsLegal :
    (work_item : WorkItemRecord) (policy : ReducerPolicy)
    → IsLegal work_item (reduce_pr_synchronized work_item policy)
unfolding reduce_pr_synchronized is_managed_state assert_state_transition_allowed patch_for_state
reduce_pr_synchronized-IsLegal work_item policy = ground arith

reduce_successful_ci-IsLegal :
    (work_item : WorkItemRecord) (event : CiCompleted) (policy : ReducerPolicy)
    → IsLegal work_item (reduce_successful_ci work_item event policy)
unfolding reduce_successful_ci assert_state_transition_allowed
reduce_successful_ci-IsLegal work_item event policy =
    elim (Bool-cases (
      policy.self_review_enabled
      && work_item.state == auto_review
      && not (has_flag work_item "self_review_done"))) [
        | inl wait ↦
            rw wait (green_pending-IsLegal work_item event ((state_eq_iff _ _).0 (ground arith)))
        | inr go ↦ rw go (elim (Bool-cases (work_item.state == auto_review)) [
          | inl here ↦ rw here (green_leaves-IsLegal work_item policy ((state_eq_iff _ _).0 here))
          | inr other ↦ rw other (elim (Bool-cases (is_managed_state work_item.state)) [
            | inl managed ↦ rw managed (green_later-IsLegal work_item policy managed)
            | inr unmanaged ↦ rw unmanaged (ground arith)
          ])
        ])
      ]

reduce_ci_completed-IsLegal :
    (conclusion : CiConclusion) (work_item : WorkItemRecord) (event : CiCompleted)
    (policy : ReducerPolicy)
    → IsLegal work_item (reduce_ci_completed conclusion work_item event policy)
unfolding reduce_ci_completed
reduce_ci_completed-IsLegal success work_item event policy =
    reduce_successful_ci-IsLegal work_item event policy
reduce_ci_completed-IsLegal failure work_item event policy =
    reduce_failed_ci-IsLegal work_item event

reduce_event-IsLegal :
    (work_item : WorkItemRecord) (event : ReducerEvent) (policy : ReducerPolicy)
    → IsLegal work_item (reduce_event work_item event policy)
unfolding reduce_event
reduce_event-IsLegal work_item (progress_ready checkpoint_type intent_kind) policy =
    reduce_progress_ready-IsLegal work_item policy
reduce_event-IsLegal work_item (ci_completed event) policy =
    reduce_ci_completed-IsLegal event.conclusion work_item event policy
reduce_event-IsLegal work_item (review_submitted event) policy =
    reduce_review_submitted-IsLegal work_item event policy
reduce_event-IsLegal work_item (review_labels_synced event) policy =
    reduce_review_labels_synced-IsLegal work_item event
reduce_event-IsLegal work_item pr_synchronized policy =
    reduce_pr_synchronized-IsLegal work_item policy

-- Whatever the event, the patches that the reducer decides on are, one after the other, allowed
-- transitions of the feature delivery workflow, from the state of the work item on.
pub reduce-IsLegalChain :
    (work_item : WorkItemRecord) (event : ReducerEvent) (policy : ReducerPolicy)
    → IsLegalChain work_item.state (reduce_feature_delivery work_item event policy).patches
unfolding reduce_feature_delivery
reduce-IsLegalChain work_item event policy =
    elim (Bool-cases (work_item.workflow == feature_delivery)) [
      | inl e ↦ rw e (reduce_event-IsLegal work_item event policy)
      | inr e ↦ rw e tt
    ]
