-- ===== src/Runs/Intents/Laws.antt =====
-- The intents that the program makes are accepted where they are read back, and deriving an intent for
-- a run keeps the class of the run.
use gooseherd.Prelude.{
  String, ◌≡◌, refl, ◌∙◌, inl, inr, Bool, true, false, ◌&&◌, ◌||◌, not, Option, none, some, List,
  [], ◌∷◌, arith, Option-cases, ◌==◌, String-Eq, Nat-Eq, ==_sym, includes,
}
use gooseherd.Prelude.Values.{Number, natural, not_natural, nan, is_natural, is_positive_natural}
use gooseherd.WorkItems.Types.{WorkItemRecord}
use gooseherd.Runtime.Reconciler.{RunStatus}
use gooseherd.Runs.Intents.{
  BaseFeatureDeliveryRunIntent, work_item_source, slack_source, dashboard_source, local_source,
  observer_source, eval_source, api_source, unknown_source, self_review, apply_review_feedback,
  repair_ci, triage_ci, sync_branch, finalize_pr, qa_preparation_run, pr_adopted,
  ci_green_pending_self_review, ci_failed, ci_rerunning, RunIntent, RunIntent, source_text,
  RunIntentSource, generic_task, investigate, conversation_intent, feature_delivery_intent,
  RunStatus, RunFacts, is_feature_delivery_system_run, FeatureDeliveryKind,
  is_feature_delivery_auto_review_run, is_feature_delivery_auto_review_or_repair_ci_run,
  is_successful_feature_delivery_progress_checkpoint, is_feature_delivery_intent,
  is_feature_delivery_auto_review_intent, is_feature_delivery_auto_review_or_repair_ci_intent,
}
use gooseherd.Runs.Intents.Values.{
  optional_string, optional_string_array, is_investigate_intent, is_conversation_intent,
  is_base_feature_delivery_intent, has_kind_fields, is_run_intent, is_intent_of_kind, is_source,
  every_text, run_intent_sources, is_generic_task_intent,
}
use gooseherd.Runs.Intents.Derive.{
  optional, optional_texts, value_of, fields_of, field_at, texts, derive_run_intent_from_legacy,
  build_feature_delivery_intent, LegacyRun, derive_base_feature_intent,
  build_feature_delivery_base_intent, kind_of_requester,
}

abbrev pub has_natural_bound : FeatureDeliveryKind → Bool
has_natural_bound (sync_branch n) = is_natural n
has_natural_bound kind = true

-- The texts of an intent that must not be empty, the pull request number that must be whole and
-- positive, and the bound of a sync that must be whole and not negative.
abbrev pub is_filled : RunIntent → Bool
is_filled (generic_task t) = true
is_filled (investigate i) = not (i.question == "")
is_filled (conversation_intent c) = not (c.question == "") && not (c.requested_by == "")
is_filled (feature_delivery_intent base kind) =
    not (base.work_item_id == "")
    && (not (base.repo == "")
        && (is_positive_natural base.pr_number
            && (not (base.pr_url == "") && has_natural_bound kind)))

source_text-known : (s : RunIntentSource) → includes (source_text s) run_intent_sources ≡ true
unfolding source_text includes
source_text-known work_item_source = refl
source_text-known slack_source = refl
source_text-known dashboard_source = refl
source_text-known local_source = refl
source_text-known observer_source = refl
source_text-known eval_source = refl
source_text-known api_source = refl
source_text-known unknown_source = refl

every_text-texts : (ss : List String) → every_text (texts ss) ≡ true
unfolding every_text texts
every_text-texts [] = refl
every_text-texts (s ∷ ss) = every_text-texts ss

optional_string-optional : (o : Option String) → optional_string (optional o) ≡ true
optional_string-optional none = refl
optional_string-optional (some s) = refl

optional_string_array-optional_texts :
    (o : Option (List String)) → optional_string_array (optional_texts o) ≡ true
optional_string_array-optional_texts none = refl
optional_string_array-optional_texts (some ss) = every_text-texts ss

-- isRunIntent accepts the JSON value of an intent exactly when the texts that its kind needs are
-- not empty, its pull request number is whole and positive, and the bound of a sync is whole and
-- not negative.
pub is_run_intent-value_of :
    (intent : RunIntent) → is_run_intent (value_of intent) ≡ is_filled intent
unfolding is_run_intent is_intent_of_kind value_of fields_of field_at is_source includes
    is_generic_task_intent is_investigate_intent is_conversation_intent
    is_base_feature_delivery_intent has_kind_fields
is_run_intent-value_of (generic_task t) =
    rw
      (
        source_text-known t.source,
        optional_string-optional t.requested_by,
        optional_string-optional t.pipeline_hint,
        optional_string-optional t.trigger_reason,
        optional_string_array-optional_texts t.skip_nodes,
        optional_string_array-optional_texts t.enable_nodes,
      )
      refl
is_run_intent-value_of (investigate i) = ground (
  arith,
  source_text-known i.source,
  optional_string-optional i.requested_by,
  optional_string-optional i.trigger_reason,
)
is_run_intent-value_of (conversation_intent c) =
    ground (arith, optional_string-optional c.trigger_reason)
is_run_intent-value_of (feature_delivery_intent base (self_review pr_adopted)) = ground arith
is_run_intent-value_of (feature_delivery_intent base (self_review ci_green_pending_self_review)) =
    ground arith
is_run_intent-value_of (feature_delivery_intent base apply_review_feedback) = ground arith
is_run_intent-value_of (feature_delivery_intent base repair_ci) = ground arith
is_run_intent-value_of (feature_delivery_intent base (triage_ci ci_failed)) = ground arith
is_run_intent-value_of (feature_delivery_intent base (triage_ci ci_rerunning)) = ground arith
is_run_intent-value_of (feature_delivery_intent base (sync_branch (natural n))) = ground arith
is_run_intent-value_of (feature_delivery_intent base (sync_branch not_natural)) = ground arith
is_run_intent-value_of (feature_delivery_intent base (sync_branch nan)) = ground arith
is_run_intent-value_of (feature_delivery_intent base finalize_pr) = ground arith
is_run_intent-value_of (feature_delivery_intent base qa_preparation_run) = ground arith

-- A number that may be missing, and is whole and positive.
abbrev pub has_positive : Option Number → Bool
has_positive none = false
has_positive (some n) = is_positive_natural n

derive_base_feature_intent-filled :
    (input : LegacyRun) (base : BaseFeatureDeliveryRunIntent) (kind : FeatureDeliveryKind)
    → derive_base_feature_intent input ≡ some base
    → has_natural_bound kind ≡ true
    → is_filled (feature_delivery_intent base kind) ≡ has_positive input.pr_number
unfolding derive_base_feature_intent
derive_base_feature_intent-filled input base kind made bounded = ground arith

kind_of_requester-bound :
    (input : LegacyRun) (kind : FeatureDeliveryKind)
    → kind_of_requester input ≡ some kind
    → has_natural_bound kind ≡ true
unfolding kind_of_requester
kind_of_requester-bound input kind asked = ground arith

-- The JSON value of the intent that deriveRunIntentFromLegacy makes is accepted by isRunIntent
-- exactly when it is no feature delivery, or the pull request number of the run is whole and
-- positive.
pub derive_run_intent_from_legacy-valid :
    (input : LegacyRun)
    → is_run_intent (value_of (derive_run_intent_from_legacy input)) ≡ (
        not (is_feature_delivery_intent (some (derive_run_intent_from_legacy input)))
        || has_positive input.pr_number)
unfolding derive_run_intent_from_legacy is_feature_delivery_intent
derive_run_intent_from_legacy-valid input =
    is_run_intent-value_of (derive_run_intent_from_legacy input)
    ∙ elim (Option-cases (derive_base_feature_intent input)) [
      | inl lacking ↦ ground (arith, lacking)
      | inr (base, made) ↦ elim (Option-cases (kind_of_requester input)) [
        | inl other ↦ ground (arith, made, other)
        | inr (kind, asked) ↦ ground (
          arith,
          made,
          asked,
          derive_base_feature_intent-filled input base kind made,
          kind_of_requester-bound input kind asked,
        )
      ]
    ]

-- The JSON value of an intent that a builder of feature delivery intents returns, for a work item
-- with an identifier, is accepted by isRunIntent exactly when the pull request number of the work
-- item is whole and positive and, for a sync, the bound on the commits is whole and not negative.
pub build_feature_delivery_intent-valid :
    (work_item : WorkItemRecord) (kind : FeatureDeliveryKind) (trigger_reason : Option String)
    (intent : RunIntent)
    → (work_item.id == "") ≡ false
    → build_feature_delivery_intent work_item kind trigger_reason ≡ some intent
    → is_run_intent (value_of intent)
      ≡ (has_positive work_item.github_pr_number && has_natural_bound kind)
unfolding build_feature_delivery_intent build_feature_delivery_base_intent
build_feature_delivery_intent-valid work_item kind trigger_reason intent named built =
    ground (arith, is_run_intent-value_of intent)

-- A run with some intent: what the classes read of it.
abbrev pub run_with : Option RunIntent → LegacyRun → RunStatus → Bool → RunFacts
run_with intent input status awaits = record {
  intent = intent;
  requested_by = input.requested_by;
  status = status;
  phase_awaits_ci = awaits;
}

-- For a run without an intent, deriving one with deriveRunIntentFromLegacy changes none of its
-- classes: system run, auto review run, auto review or repair run, and successful progress
-- checkpoint, whatever its status and phase and whether or not its pull request is known.
pub derive_run_intent_from_legacy-class :
    (input : LegacyRun) (status : RunStatus) (awaits : Bool)
    → let derived = run_with (some (derive_run_intent_from_legacy input)) input status awaits in
      let legacy = run_with none input status awaits in
      (is_feature_delivery_system_run derived ≡ is_feature_delivery_system_run legacy)
      × (is_feature_delivery_auto_review_run derived ≡ is_feature_delivery_auto_review_run legacy)
      × (is_feature_delivery_auto_review_or_repair_ci_run derived
          ≡ is_feature_delivery_auto_review_or_repair_ci_run legacy)
      × (is_successful_feature_delivery_progress_checkpoint derived
          ≡ is_successful_feature_delivery_progress_checkpoint legacy)
unfolding derive_run_intent_from_legacy kind_of_requester is_feature_delivery_system_run
    is_feature_delivery_auto_review_run is_feature_delivery_auto_review_or_repair_ci_run
    is_successful_feature_delivery_progress_checkpoint is_feature_delivery_intent
    is_feature_delivery_auto_review_intent is_feature_delivery_auto_review_or_repair_ci_intent
    includes
derive_run_intent_from_legacy-class input status awaits =
    elim (Option-cases (derive_base_feature_intent input)) [
      | inl lacking ↦ ground (arith, lacking)
      | inr (base, made) ↦ ground (
        arith,
        made,
        ==_sym input.requested_by "work-item:auto-review",
        ==_sym input.requested_by "work-item:ci-fix",
        ==_sym input.requested_by "work-item:ci-triage",
        ==_sym input.requested_by "work-item:branch-sync",
        ==_sym input.requested_by "work-item:ready-for-merge",
        ==_sym input.requested_by "work-item:qa-preparation",
      )
    ]
