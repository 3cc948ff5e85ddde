-- ===== src/WorkItems/Reducer/Decision.antt =====
-- feature-delivery-reducer.ts: events, policy, commands and decisions, and the helpers that the
-- reductions share.
use gooseherd.Prelude.{
  String, Bool, true, false, ◌&&◌, not, Option, none, some, List, [], ◌∷◌, ◌++◌, if◌then◌else◌,
  or_default, ◌<|>◌, ◌==◌, String-Eq, Nat-Eq, any, includes,
}
use gooseherd.WorkItems.Types.{
  WorkItemState, auto_review, engineering_review, qa_preparation, product_review, qa_review,
  ready_for_merge, WorkItemState-Eq, WorkItemRecord, UpdateWorkItemStateInput,
}
use gooseherd.WorkItems.DeliveryPolicy.{ReviewOutcome}

pub data CheckpointType : Type 0 where
  waiting_external_ci completed_without_external_wait : CheckpointType

pub data ProgressIntentKind : Type 0 where
  self_review apply_review_feedback repair_ci : ProgressIntentKind

pub data CiConclusion : Type 0 where
  success failure : CiConclusion

abbrev pub is_success : CiConclusion → Bool
is_success success = true
is_success failure = false

pub record CiCompleted : Type 0 where
  pub conclusion : CiConclusion
  pub has_active_system_run : Bool
  pub automation_enabled : Bool

pub record ReviewSubmitted : Type 0 where
  pub review_state : ReviewOutcome
  pub automation_enabled : Bool

pub record ReviewLabelsSynced : Type 0 where
  pub engineering_review_done : Bool
  pub qa_review_done : Bool

pub data ReducerEvent : Type 0 where
  progress_ready : CheckpointType → ProgressIntentKind → ReducerEvent
  ci_completed : CiCompleted → ReducerEvent
  review_submitted : ReviewSubmitted → ReducerEvent
  review_labels_synced : ReviewLabelsSynced → ReducerEvent
  pr_synchronized : ReducerEvent

pub record ReducerPolicy : Type 0 where
  pub skip_product_review : Bool
  pub reset_engineering_review_on_new_commits : Bool
  pub reset_qa_review_on_new_commits : Bool
  pub self_review_enabled : Bool
  pub apply_review_feedback_enabled : Bool

pub data Command : Type 0 where
  reconcile_work_item : String → Command
  qa_preparation_entered ready_for_merge_entered : Command

pub record Decision : Type 0 where
  pub patches : List UpdateWorkItemStateInput
  pub commands : List Command

abbrev pub empty_decision : Decision
empty_decision = record { patches = []; commands = [] }

abbrev pub has_flag : WorkItemRecord → String → Bool
has_flag work_item flag = includes flag work_item.flags

unfoldable pub substate_for_state : WorkItemState → Option String → Option String → Option String
substate_for_state engineering_review fallback default_value = some "waiting_engineering_review"
substate_for_state qa_preparation fallback default_value = some "preparing_review_app"
substate_for_state product_review fallback default_value = some "waiting_product_review"
substate_for_state qa_review fallback default_value = some "waiting_qa_review"
substate_for_state ready_for_merge fallback default_value = some "waiting_merge"
substate_for_state auto_review fallback default_value = some (or_default default_value "waiting_ci")
substate_for_state _ fallback default_value = fallback

-- The reducer gives a patch its flag lists only where there is a flag in them.
abbrev pub non_empty : List String → Option (List String)
non_empty [] = none
non_empty (flag ∷ flags) = some (flag ∷ flags)

pub record PatchInput : Type 0 where
  pub explicit_substate : Option String
  pub fallback_substate : Option String
  pub default_substate : Option String
  pub flags_to_add : List String
  pub flags_to_remove : List String

unfoldable pub patch_for_state : WorkItemState → PatchInput → UpdateWorkItemStateInput
unfolding substate_for_state
patch_for_state state input = record {
  state = state;
  substate =
      input.explicit_substate
      <|> substate_for_state state input.fallback_substate input.default_substate;
  flags_to_add = non_empty input.flags_to_add;
  flags_to_remove = non_empty input.flags_to_remove;
}

unfoldable pub entered_qa_preparation : WorkItemState → List UpdateWorkItemStateInput → Bool
entered_qa_preparation initial_state patches =
    not (initial_state == qa_preparation) && any (λ patch. patch.state == qa_preparation) patches

unfoldable pub entered_ready_for_merge : WorkItemState → List UpdateWorkItemStateInput → Bool
entered_ready_for_merge initial_state patches =
    not (initial_state == ready_for_merge) && any (λ patch. patch.state == ready_for_merge) patches

unfoldable pub commands_for_entered_states :
    WorkItemState → List UpdateWorkItemStateInput → List Command
unfolding entered_qa_preparation entered_ready_for_merge
commands_for_entered_states initial_state patches =
    (if entered_qa_preparation initial_state patches then qa_preparation_entered ∷ [] else [])
    ++ (if entered_ready_for_merge initial_state patches then ready_for_merge_entered ∷ [] else [])

unfoldable pub is_managed_state : WorkItemState → Bool
unfolding includes
is_managed_state state = includes state (
    auto_review ∷ engineering_review ∷ qa_preparation ∷ product_review ∷ qa_review ∷ ready_for_merge
    ∷ [])

unfoldable pub is_progress_state : WorkItemState → Bool
unfolding includes
is_progress_state state =
    includes state
      (engineering_review ∷ qa_preparation ∷ product_review ∷ qa_review ∷ ready_for_merge ∷ [])
