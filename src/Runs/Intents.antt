-- ===== src/Runs/Intents.antt =====
-- src/runs/run-intent.ts: the intent of a run, the pipeline that it selects, and the classes of runs.
pub mod Values
pub mod Derive
pub mod Laws
use gooseherd.Prelude.{
  ℕ, zero, suc, ◌+◌, ◌-◌, ◌*◌, ◌/◌, ◌%◌, ◌≤◌, ◌<◌, String, ◌≡◌, refl, sym, ap, subst, ◌∙◌, ◌≢◌, ◌↔◌,
  ◌⊎◌, inl, inr, Bool, true, false, ◌&&◌, ◌||◌, not, Option, none, some, List, [], ◌∷◌, ◌++◌, map,
  max, arith, eq_iff, ltb, leb, nat_eq, nat_eq_iff, if◌then◌else◌, or_default, ◌<|>◌, Bool-cases,
  Option-cases, List-cases, Eq, ◌==◌, String-Eq, Nat-Eq, ==_refl, ==_sym, length, any, every,
  every-append, keep, is_empty, head?, last_or, includes, add, delete, add_all, delete_all,
  distinct, includes-append, includes-add, includes-delete, includes-add_all, includes-delete_all,
  includes-distinct, delete_absent, trim, map_get, map_set, map_delete, map_get-map_set, Result, ok,
  err, Result-cases, Call, ◌>>=◌, ◌>>◌, return, throw, reads, writes, given, check, map_option,
  bind-ok, bind-err,
}
use gooseherd.Prelude.Values.{Number}
use gooseherd.Runtime.Reconciler.{RunStatus, awaiting_ci, completed}

pub data RunIntentSource : Type 0 where
  work_item_source slack_source dashboard_source local_source observer_source eval_source api_source
        unknown_source :
      RunIntentSource

unfoldable pub source_text : RunIntentSource → String
source_text work_item_source = "work_item"
source_text slack_source = "slack"
source_text dashboard_source = "dashboard"
source_text local_source = "local"
source_text observer_source = "observer"
source_text eval_source = "eval"
source_text api_source = "api"
source_text unknown_source = "unknown"

pub record GenericTaskRunIntent : Type 0 where
  pub source : RunIntentSource
  pub trigger_reason : Option String
  pub requested_by : Option String
  pub pipeline_hint : Option String
  pub skip_nodes : Option (List String)
  pub enable_nodes : Option (List String)

pub record InvestigateRunIntent : Type 0 where
  pub source : RunIntentSource
  pub trigger_reason : Option String
  pub question : String
  pub requested_by : Option String

-- Its source is Slack.
pub record ConversationRunIntent : Type 0 where
  pub trigger_reason : Option String
  pub question : String
  pub requested_by : String

-- Its source is a work item.
pub record BaseFeatureDeliveryRunIntent : Type 0 where
  pub work_item_id : String
  pub repo : String
  pub pr_number : Number
  pub pr_url : String
  pub head_sha : Option String
  pub trigger_reason : Option String

pub data SelfReviewSubstate : Type 0 where
  pr_adopted ci_green_pending_self_review : SelfReviewSubstate

pub data TriageSubstate : Type 0 where
  ci_failed ci_rerunning : TriageSubstate

-- The kinds of a feature delivery, with the fields that only one of them has.
pub data FeatureDeliveryKind : Type 0 where
  self_review : SelfReviewSubstate → FeatureDeliveryKind
  apply_review_feedback repair_ci : FeatureDeliveryKind
  triage_ci : TriageSubstate → FeatureDeliveryKind
  sync_branch : Number → FeatureDeliveryKind
  finalize_pr qa_preparation_run : FeatureDeliveryKind

pub data RunIntent : Type 0 where
  generic_task : GenericTaskRunIntent → RunIntent
  investigate : InvestigateRunIntent → RunIntent
  conversation_intent : ConversationRunIntent → RunIntent
  feature_delivery_intent : BaseFeatureDeliveryRunIntent → FeatureDeliveryKind → RunIntent

unfoldable pub is_feature_delivery_intent : Option RunIntent → Bool
is_feature_delivery_intent (some (feature_delivery_intent base kind)) = true
is_feature_delivery_intent intent = false

abbrev is_auto_review_kind : FeatureDeliveryKind → Bool
is_auto_review_kind (self_review s) = true
is_auto_review_kind apply_review_feedback = true
is_auto_review_kind kind = false

abbrev is_progress_kind : FeatureDeliveryKind → Bool
is_progress_kind (self_review s) = true
is_progress_kind apply_review_feedback = true
is_progress_kind repair_ci = true
is_progress_kind (triage_ci s) = true
is_progress_kind kind = false

unfoldable pub is_feature_delivery_auto_review_intent : Option RunIntent → Bool
is_feature_delivery_auto_review_intent (some (feature_delivery_intent base kind)) =
    is_auto_review_kind kind
is_feature_delivery_auto_review_intent intent = false

unfoldable pub is_feature_delivery_auto_review_or_repair_ci_intent : Option RunIntent → Bool
is_feature_delivery_auto_review_or_repair_ci_intent (some (feature_delivery_intent base kind)) =
    is_progress_kind kind
is_feature_delivery_auto_review_or_repair_ci_intent intent = false

unfoldable pub is_investigate_run : Option RunIntent → Bool
is_investigate_run (some (investigate i)) = true
is_investigate_run intent = false

unfoldable pub pipeline_by_intent_kind : FeatureDeliveryKind → String
pipeline_by_intent_kind (self_review s) = "feature-delivery-self-review"
pipeline_by_intent_kind apply_review_feedback = "feature-delivery-review-feedback"
pipeline_by_intent_kind repair_ci = "ci-fix"
pipeline_by_intent_kind (triage_ci s) = "triage-ci"
pipeline_by_intent_kind (sync_branch n) = "branch-sync"
pipeline_by_intent_kind finalize_pr = "ready-for-merge"
pipeline_by_intent_kind qa_preparation_run = "feature-delivery-qa-preparation"

unfoldable pub select_pipeline_id_for_intent : Option RunIntent → Option String → Option String
select_pipeline_id_for_intent none hint = hint
select_pipeline_id_for_intent (some (conversation_intent c)) hint = none
select_pipeline_id_for_intent (some (generic_task t)) hint = t.pipeline_hint <|> hint
select_pipeline_id_for_intent (some (investigate i)) hint = some "investigation"
select_pipeline_id_for_intent (some (feature_delivery_intent base kind)) hint =
    some (pipeline_by_intent_kind kind)

-- What these functions read of a run. Of its phase they read whether it waits for CI.
pub record RunFacts : Type 0 where
  pub intent : Option RunIntent
  pub requested_by : String
  pub status : RunStatus
  pub phase_awaits_ci : Bool

abbrev pub legacy_work_item_system_requesters : List String
legacy_work_item_system_requesters =
    "work-item:auto-review" ∷ "work-item:ci-fix" ∷ "work-item:ci-triage" ∷ "work-item:branch-sync"
    ∷ "work-item:ready-for-merge" ∷ "work-item:qa-preparation" ∷ []

abbrev pub legacy_work_item_progress_requesters : List String
legacy_work_item_progress_requesters =
    "work-item:auto-review" ∷ "work-item:ci-fix" ∷ "work-item:ci-triage" ∷ []

abbrev pub is_awaiting_ci_or_completed : RunStatus → Bool
is_awaiting_ci_or_completed awaiting_ci = true
is_awaiting_ci_or_completed completed = true
is_awaiting_ci_or_completed status = false

unfoldable pub is_feature_delivery_system_run : RunFacts → Bool
is_feature_delivery_system_run run =
    is_feature_delivery_intent run.intent
    || includes run.requested_by legacy_work_item_system_requesters

unfoldable pub is_feature_delivery_auto_review_run : RunFacts → Bool
is_feature_delivery_auto_review_run run =
    is_feature_delivery_auto_review_intent run.intent || run.requested_by == "work-item:auto-review"

unfoldable pub is_feature_delivery_auto_review_or_repair_ci_run : RunFacts → Bool
is_feature_delivery_auto_review_or_repair_ci_run run =
    is_feature_delivery_auto_review_or_repair_ci_intent run.intent
    || includes run.requested_by legacy_work_item_progress_requesters

unfoldable pub is_successful_feature_delivery_progress_checkpoint : RunFacts → Bool
is_successful_feature_delivery_progress_checkpoint run =
    if not run.phase_awaits_ci && not (is_awaiting_ci_or_completed run.status)
    then false
    else is_feature_delivery_auto_review_or_repair_ci_intent run.intent
      || includes run.requested_by legacy_work_item_progress_requesters
