-- ===== src/WorkItems/Workflow.antt =====
-- src/work-items/workflow-policy.ts: which states a workflow has, and which transitions it allows.
-- A function that throws returns the `PolicyError` that names its message.
use gooseherd.Prelude.{not, List, [], ◌∷◌, if◌then◌else◌, Option, none, some, ◌==◌, ◌<|>◌, includes}
use gooseherd.WorkItems.Types.{
  WorkItemWorkflow, product_discovery, feature_delivery, WorkItemState, backlog, in_progress,
  waiting_for_review, waiting_for_pm_confirmation, done, cancelled, auto_review, engineering_review,
  qa_preparation, product_review, qa_review, ready_for_merge, WorkItemWorkflow-Eq, WorkItemState-Eq,
}

-- The messages that the policy throws, with the values that they show.
pub data PolicyError : Type 0 where
  state_not_in_workflow : WorkItemState → WorkItemWorkflow → PolicyError
  transition_not_allowed : WorkItemWorkflow → WorkItemState → WorkItemState → PolicyError
  wrong_workflow : WorkItemWorkflow → PolicyError
  wrong_state : WorkItemState → PolicyError

unfoldable pub workflow_states : WorkItemWorkflow → List WorkItemState
workflow_states product_discovery =
    backlog ∷ in_progress ∷ waiting_for_review ∷ waiting_for_pm_confirmation ∷ done ∷ cancelled ∷ []
workflow_states feature_delivery =
    backlog ∷ in_progress ∷ auto_review ∷ engineering_review ∷ qa_preparation ∷ product_review
    ∷ qa_review ∷ ready_for_merge ∷ done ∷ cancelled ∷ []

unfoldable pub allowed_state_transitions : WorkItemWorkflow → WorkItemState → List WorkItemState
allowed_state_transitions product_discovery backlog = in_progress ∷ cancelled ∷ []
allowed_state_transitions product_discovery in_progress = waiting_for_review ∷ cancelled ∷ []
allowed_state_transitions product_discovery waiting_for_review =
    in_progress ∷ waiting_for_pm_confirmation ∷ cancelled ∷ []
allowed_state_transitions product_discovery waiting_for_pm_confirmation =
    in_progress ∷ done ∷ cancelled ∷ []
allowed_state_transitions product_discovery _ = []
allowed_state_transitions feature_delivery backlog =
    in_progress ∷ auto_review ∷ done ∷ cancelled ∷ []
allowed_state_transitions feature_delivery in_progress = auto_review ∷ done ∷ cancelled ∷ []
allowed_state_transitions feature_delivery auto_review = engineering_review ∷ done ∷ cancelled ∷ []
allowed_state_transitions feature_delivery engineering_review =
    auto_review ∷ qa_preparation ∷ product_review ∷ qa_review ∷ done ∷ cancelled ∷ []
allowed_state_transitions feature_delivery qa_preparation =
    auto_review ∷ product_review ∷ qa_review ∷ done ∷ cancelled ∷ []
allowed_state_transitions feature_delivery product_review =
    auto_review ∷ qa_review ∷ done ∷ cancelled ∷ []
allowed_state_transitions feature_delivery qa_review =
    auto_review ∷ ready_for_merge ∷ done ∷ cancelled ∷ []
allowed_state_transitions feature_delivery ready_for_merge = auto_review ∷ done ∷ cancelled ∷ []
allowed_state_transitions feature_delivery cancelled = auto_review ∷ done ∷ []
allowed_state_transitions feature_delivery _ = []

-- `none` is a return, `some` a throw.
unfoldable pub assert_state_matches_workflow : WorkItemWorkflow → WorkItemState → Option PolicyError
unfolding workflow_states includes
assert_state_matches_workflow workflow state =
    if not (includes state (workflow_states workflow))
    then some (state_not_in_workflow state workflow)
    else none

unfoldable pub assert_state_transition_allowed :
    WorkItemWorkflow → WorkItemState → WorkItemState → Option PolicyError
unfolding assert_state_matches_workflow allowed_state_transitions includes
assert_state_transition_allowed workflow state next_state =
    assert_state_matches_workflow workflow state
    <|> assert_state_matches_workflow workflow next_state
    <|> (if state == next_state
        then none
        else if includes next_state (allowed_state_transitions workflow state)
        then none
        else some (transition_not_allowed workflow state next_state))

unfoldable pub assert_can_request_discovery_review :
    WorkItemWorkflow → WorkItemState → Option PolicyError
assert_can_request_discovery_review workflow state =
    if not (workflow == product_discovery)
    then some (wrong_workflow workflow)
    else if not (state == in_progress)
    then some (wrong_state state)
    else none

unfoldable pub assert_can_resolve_discovery_review :
    WorkItemWorkflow → WorkItemState → Option PolicyError
assert_can_resolve_discovery_review workflow state =
    if not (workflow == product_discovery)
    then some (wrong_workflow workflow)
    else if not (state == waiting_for_review)
    then some (wrong_state state)
    else none

unfoldable pub assert_can_confirm_discovery : WorkItemWorkflow → WorkItemState → Option PolicyError
assert_can_confirm_discovery workflow state =
    if not (workflow == product_discovery)
    then some (wrong_workflow workflow)
    else if not (state == waiting_for_pm_confirmation)
    then some (wrong_state state)
    else none
