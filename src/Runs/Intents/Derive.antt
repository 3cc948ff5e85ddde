-- ===== src/Runs/Intents/Derive.antt =====
-- src/runs/run-intent.ts: the intents that the program makes, from the request of a run before there
-- were intents and from a work item, and the JSON value of an intent.
use gooseherd.Prelude.{
  String, Bool, false, ◌&&◌, ◌||◌, not, Option, none, some, List, [], ◌∷◌, if◌then◌else◌,
  or_default, ◌==◌, String-Eq, Nat-Eq, map_option,
}
use text.Mathlib.Text.{starts_with}
use gooseherd.WorkItems.Types.{WorkItemRecord}
use gooseherd.Runs.Intents.{
  RunIntent, RunIntentSource, BaseFeatureDeliveryRunIntent, local_source, eval_source,
  dashboard_source, observer_source, api_source, slack_source, unknown_source, source_text,
  FeatureDeliveryKind, generic_task, investigate, conversation_intent, feature_delivery_intent,
  self_review, apply_review_feedback, repair_ci, triage_ci, sync_branch, finalize_pr,
  qa_preparation_run, pr_adopted, ci_green_pending_self_review, ci_failed, ci_rerunning,
}
use gooseherd.Prelude.Values.{
  Number, natural, number_value, is_truthy, Value, Items, missing, string_value, whole, items, nil,
  cons, object,
}

pub record LegacyRun : Type 0 where
  pub requested_by : String
  pub pipeline_hint : Option String
  pub work_item_id : Option String
  pub auto_review_source_substate : Option String
  pub repo_slug : Option String
  pub pr_number : Option Number
  pub pr_url : Option String
  pub skip_nodes : Option (List String)
  pub enable_nodes : Option (List String)

unfoldable pub derive_generic_source : String → RunIntentSource
derive_generic_source requested_by =
    if requested_by == "local"
      || (requested_by == "local-trigger" || starts_with requested_by "local:")
    then local_source
    else if requested_by == "eval"
    then eval_source
    else if starts_with requested_by "dashboard" || requested_by == "manual:dashboard"
    then dashboard_source
    else if starts_with requested_by "observer"
    then observer_source
    else if starts_with requested_by "api"
    then api_source
    else if starts_with requested_by "slack" || starts_with requested_by "U"
    then slack_source
    else unknown_source

-- The truth of a text or a number that may be missing.
abbrev pub has_text : Option String → Bool
has_text none = false
has_text (some s) = not (s == "")

abbrev pub has_number : Option Number → Bool
has_number none = false
has_number (some n) = is_truthy (number_value n)

unfoldable pub derive_base_feature_intent : LegacyRun → Option BaseFeatureDeliveryRunIntent
derive_base_feature_intent input =
    if has_text input.work_item_id
      && (has_text input.repo_slug && (has_number input.pr_number && has_text input.pr_url))
    then some (record {
      work_item_id = or_default input.work_item_id "";
      repo = or_default input.repo_slug "";
      pr_number = or_default input.pr_number (natural 0);
      pr_url = or_default input.pr_url "";
      head_sha = none;
      trigger_reason = none;
    })
    else none

abbrev pub is_some_text : String → Option String → Bool
is_some_text t none = false
is_some_text t (some s) = s == t

-- The kind that a requester of the work item automation stands for.
unfoldable pub kind_of_requester : LegacyRun → Option FeatureDeliveryKind
kind_of_requester input =
    if input.requested_by == "work-item:auto-review"
    then some (
        if is_some_text "applying_review_feedback" input.auto_review_source_substate
        then apply_review_feedback
        else self_review (
            if is_some_text "ci_green_pending_self_review" input.auto_review_source_substate
            then ci_green_pending_self_review
            else pr_adopted))
    else if input.requested_by == "work-item:ci-fix"
    then some repair_ci
    else if input.requested_by == "work-item:ci-triage"
    then some (
        triage_ci (
          if is_some_text "ci_rerunning" input.auto_review_source_substate
          then ci_rerunning
          else ci_failed))
    else if input.requested_by == "work-item:branch-sync"
    then some (sync_branch (natural 0))
    else if input.requested_by == "work-item:ready-for-merge"
    then some finalize_pr
    else if input.requested_by == "work-item:qa-preparation"
    then some qa_preparation_run
    else none

unfoldable pub derive_run_intent_from_legacy : LegacyRun → RunIntent
unfolding derive_generic_source derive_base_feature_intent kind_of_requester
derive_run_intent_from_legacy input =
    let generic = generic_task (record {
      source = derive_generic_source input.requested_by;
      trigger_reason = none;
      requested_by = some input.requested_by;
      pipeline_hint = input.pipeline_hint;
      skip_nodes = input.skip_nodes;
      enable_nodes = input.enable_nodes;
    }) in
    elim (derive_base_feature_intent input) [
      | none ↦ generic
      | some base ↦ elim (kind_of_requester input) [
        | none ↦ generic
        | some kind ↦ feature_delivery_intent base kind
      ]
    ]

-- `none` is the throw for missing metadata.
unfoldable pub build_feature_delivery_base_intent :
    WorkItemRecord → Option String → Option BaseFeatureDeliveryRunIntent
build_feature_delivery_base_intent work_item trigger_reason =
    if has_text work_item.repo
      && (has_number work_item.github_pr_number && has_text work_item.github_pr_url)
    then some (record {
      work_item_id = work_item.id;
      repo = or_default work_item.repo "";
      pr_number = or_default work_item.github_pr_number (natural 0);
      pr_url = or_default work_item.github_pr_url "";
      head_sha = work_item.github_pr_head_sha;
      trigger_reason = trigger_reason;
    })
    else none

-- The seven builders, `buildFeatureDelivery…Intent`: each has the kind of its argument.
unfoldable pub build_feature_delivery_intent :
    WorkItemRecord → FeatureDeliveryKind → Option String → Option RunIntent
unfolding build_feature_delivery_base_intent
build_feature_delivery_intent work_item kind trigger_reason =
    map_option (λ base. feature_delivery_intent base kind)
      (build_feature_delivery_base_intent work_item trigger_reason)

abbrev pub optional : Option String → Value
optional none = missing
optional (some s) = string_value s

unfoldable pub texts : List String → Items
texts [] = nil
texts (s ∷ ss) = cons (string_value s) (texts ss)

abbrev pub optional_texts : Option (List String) → Value
optional_texts none = missing
optional_texts (some ss) = items (texts ss)

abbrev pub kind_text : FeatureDeliveryKind → String
kind_text (self_review s) = "feature_delivery.self_review"
kind_text apply_review_feedback = "feature_delivery.apply_review_feedback"
kind_text repair_ci = "feature_delivery.repair_ci"
kind_text (triage_ci s) = "feature_delivery.triage_ci"
kind_text (sync_branch n) = "feature_delivery.sync_branch"
kind_text finalize_pr = "feature_delivery.finalize_pr"
kind_text qa_preparation_run = "feature_delivery.qa_preparation"

abbrev pub substate_of_kind : FeatureDeliveryKind → Value
substate_of_kind (self_review pr_adopted) = string_value "pr_adopted"
substate_of_kind (self_review ci_green_pending_self_review) =
    string_value "ci_green_pending_self_review"
substate_of_kind apply_review_feedback = string_value "applying_review_feedback"
substate_of_kind repair_ci = string_value "ci_failed"
substate_of_kind (triage_ci ci_failed) = string_value "ci_failed"
substate_of_kind (triage_ci ci_rerunning) = string_value "ci_rerunning"
substate_of_kind kind = missing

abbrev pub max_behind_of_kind : FeatureDeliveryKind → Value
max_behind_of_kind (sync_branch n) = number_value n
max_behind_of_kind kind = missing

abbrev pub strategy_of_kind : FeatureDeliveryKind → Value
strategy_of_kind finalize_pr = string_value "squash"
strategy_of_kind kind = missing

unfoldable pub field_at : String → List (String × Value) → Value
field_at key [] = missing
field_at key (f ∷ fields) = let rest = field_at key fields in if f.0 == key then f.1 else rest

-- The value of an intent: its fields, under the names of the code.
unfoldable pub fields_of : RunIntent → List (String × Value)
unfolding texts source_text
fields_of (generic_task t) =
    ("version", whole 1)
    ∷ ("kind", string_value "generic_task")
    ∷ ("source", string_value (source_text t.source))
    ∷ ("triggerReason", optional t.trigger_reason)
    ∷ ("requestedBy", optional t.requested_by)
    ∷ ("pipelineHint", optional t.pipeline_hint)
    ∷ ("skipNodes", optional_texts t.skip_nodes)
    ∷ ("enableNodes", optional_texts t.enable_nodes)
    ∷ []
fields_of (investigate i) =
    ("version", whole 1)
    ∷ ("kind", string_value "investigate")
    ∷ ("source", string_value (source_text i.source))
    ∷ ("triggerReason", optional i.trigger_reason)
    ∷ ("question", string_value i.question)
    ∷ ("requestedBy", optional i.requested_by)
    ∷ []
fields_of (conversation_intent c) =
    ("version", whole 1)
    ∷ ("kind", string_value "conversation")
    ∷ ("source", string_value "slack")
    ∷ ("triggerReason", optional c.trigger_reason)
    ∷ ("question", string_value c.question)
    ∷ ("requestedBy", string_value c.requested_by)
    ∷ []
fields_of (feature_delivery_intent base kind) =
    ("version", whole 1)
    ∷ ("kind", string_value (kind_text kind))
    ∷ ("source", string_value "work_item")
    ∷ ("triggerReason", optional base.trigger_reason)
    ∷ ("workItemId", string_value base.work_item_id)
    ∷ ("repo", string_value base.repo)
    ∷ ("prNumber", number_value base.pr_number)
    ∷ ("prUrl", string_value base.pr_url)
    ∷ ("headSha", optional base.head_sha)
    ∷ ("sourceSubstate", substate_of_kind kind)
    ∷ ("maxBehindCommits", max_behind_of_kind kind)
    ∷ ("strategy", strategy_of_kind kind)
    ∷ []

unfoldable pub value_of : RunIntent → Value
unfolding fields_of field_at
value_of intent = object (λ key. field_at key (fields_of intent))
