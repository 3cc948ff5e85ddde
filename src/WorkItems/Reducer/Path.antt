-- ===== src/WorkItems/Reducer/Path.antt =====
-- feature-delivery-reducer.ts: the states that a delivery passes through when it leaves
-- auto_review, and the patches for them. The early returns of
-- `featureDeliveryStatePathAfterAutoReview` are the ends of the helpers, each of which is given
-- the current state and the path so far.
use gooseherd.Prelude.{
  String, Bool, false, ◌&&◌, ◌||◌, not, Option, none, some, List, [], ◌∷◌, ◌++◌, if◌then◌else◌,
  ◌==◌, String-Eq, Nat-Eq,
}
use gooseherd.WorkItems.Types.{
  WorkItemState, auto_review, engineering_review, qa_preparation, product_review, qa_review,
  ready_for_merge, WorkItemState-Eq, WorkItemRecord, UpdateWorkItemStateInput,
}
use gooseherd.WorkItems.DeliveryPolicy.{
  approved, advance_state_after_auto_review, next_state_after_engineering_review,
  next_state_after_qa_preparation, next_state_after_product_review, next_state_after_qa_review,
}
use gooseherd.WorkItems.Reducer.Decision.{
  ReducerPolicy, Decision, has_flag, is_progress_state, substate_for_state,
  commands_for_entered_states,
}

-- The last state of the path is compared: `path[path.length - 1] !== state`.
abbrev ends_with : List WorkItemState → WorkItemState → Bool
ends_with [] state = false
ends_with (s ∷ []) state = s == state
ends_with (s ∷ t ∷ path) state = ends_with (t ∷ path) state

abbrev push_unique_state : List WorkItemState → WorkItemState → List WorkItemState
push_unique_state path state = if not (ends_with path state) then path ++ state ∷ [] else path

abbrev push_progress_state : List WorkItemState → WorkItemState → List WorkItemState
push_progress_state path state =
    if is_progress_state state then push_unique_state path state else path

path_after_qa_review : WorkItemState → WorkItemState → List WorkItemState → List WorkItemState
unfolding is_progress_state next_state_after_qa_review
path_after_qa_review final_state current_state path =
    if current_state == qa_review && final_state == ready_for_merge
    then push_progress_state path (next_state_after_qa_review approved)
    else path

path_after_product_review : WorkItemState → WorkItemState → List WorkItemState → List WorkItemState
unfolding path_after_qa_review is_progress_state next_state_after_product_review
path_after_product_review final_state current_state path =
    if current_state == product_review
    then (let after = next_state_after_product_review approved in
        let current_state' = if is_progress_state after then after else current_state in
        let path' = push_progress_state path after in
        if final_state == after
        then path'
        else path_after_qa_review final_state current_state' path')
    else path_after_qa_review final_state current_state path

path_after_qa_preparation :
    Bool → Bool → WorkItemState → WorkItemState → List WorkItemState → List WorkItemState
unfolding path_after_product_review is_progress_state next_state_after_qa_preparation
path_after_qa_preparation product_review_required skip_product_review final_state current_state
      path =
    if current_state == qa_preparation
    then (let after =
          next_state_after_qa_preparation product_review_required false skip_product_review in
        let current_state' = if is_progress_state after then after else current_state in
        let path' = push_progress_state path after in
        if final_state == after
        then path'
        else path_after_product_review final_state current_state' path')
    else path_after_product_review final_state current_state path

-- Where the policy takes a delivery that leaves auto_review.
unfoldable pub final_state_after_auto_review :
    WorkItemRecord → Bool → Bool → ReducerPolicy → WorkItemState
unfolding advance_state_after_auto_review
final_state_after_auto_review work_item ci_green self_review_done policy =
    advance_state_after_auto_review (record {
      ci_green = ci_green;
      self_review_done = self_review_done;
      has_active_auto_fixes = false;
      engineering_review_done = has_flag work_item "engineering_review_done";
      product_review_done = has_flag work_item "product_review_done";
      qa_review_done = has_flag work_item "qa_review_done";
      product_review_required = has_flag work_item "product_review_required";
      skip_product_review = policy.skip_product_review;
    })

unfoldable pub state_path_after_auto_review :
    WorkItemRecord → Bool → Bool → ReducerPolicy → List WorkItemState
unfolding path_after_qa_preparation next_state_after_engineering_review is_progress_state
    final_state_after_auto_review
state_path_after_auto_review work_item ci_green self_review_done policy =
    let final_state = final_state_after_auto_review work_item ci_green self_review_done policy in
    let after = next_state_after_engineering_review approved in
    let path = push_progress_state (engineering_review ∷ []) after in
    if final_state == auto_review
    then []
    else if final_state == engineering_review || not (has_flag work_item "engineering_review_done")
    then engineering_review ∷ []
    else if final_state == after
    then path
    else path_after_qa_preparation (has_flag work_item "product_review_required")
        policy.skip_product_review final_state after path

-- The patches of `path.map`: the fallback of the first substate is the work item's, and that of a
-- later one the substate of the state before it.
unfoldable pub patches_for_path :
    Option (List String)
    → Option String
    → Option WorkItemState
    → List WorkItemState
    → List UpdateWorkItemStateInput
unfolding substate_for_state
patches_for_path flags_to_add fallback previous [] = []
patches_for_path flags_to_add fallback previous (state ∷ path) =
    record {
      state = state;
      substate =
          substate_for_state state
            (elim previous [ none ↦ fallback | some s ↦ substate_for_state s fallback none ])
            (some "waiting_ci");
      flags_to_add = flags_to_add;
      flags_to_remove = none;
    }
    ∷ patches_for_path none fallback (some state) path

unfoldable pub decision_for_state_path :
    WorkItemState → List WorkItemState → List String → Option String → Decision
unfolding patches_for_path commands_for_entered_states
decision_for_state_path initial_state path first_patch_flags fallback_substate =
    let patches = patches_for_path (some first_patch_flags) fallback_substate none path in
    record { patches = patches; commands = commands_for_entered_states initial_state patches }
