-- ===== src/Runs/Intents/Values.antt =====
-- src/runs/run-intent.ts: `isRunIntent`, on the values that a database or a request may hold. An object
-- is read by its fields only, and has no `toString` of its own.
use gooseherd.Prelude.{
  String, Bool, true, false, ◌&&◌, ◌||◌, List, [], ◌∷◌, if◌then◌else◌, ◌==◌, String-Eq, Nat-Eq,
  includes,
}
use gooseherd.Prelude.Values.{
  Value, Items, missing, null, truth, string_value, whole, other_number, not_a_number, items,
  object, nil, cons, is_text, is_filled_text, is_this_text, is_whole, is_positive, is_one,
}

abbrev pub run_intent_sources : List String
run_intent_sources =
    "work_item" ∷ "slack" ∷ "dashboard" ∷ "local" ∷ "observer" ∷ "eval" ∷ "api" ∷ "unknown" ∷ []

-- Whether `RUN_INTENT_SOURCES` has `String(value)`: the text of an array of one value is the text of
-- that value, and no other value but a text has one of these texts.
unfoldable mutual
  pub is_source : Value → Bool
  is_source missing = false
  is_source null = false
  is_source (truth b) = false
  is_source (string_value s) = includes s run_intent_sources
  is_source (whole n) = false
  is_source other_number = false
  is_source not_a_number = false
  is_source (items xs) = is_source_item xs
  is_source (object f) = false

  pub is_source_item : Items → Bool
  is_source_item nil = false
  is_source_item (cons x nil) = is_source x
  is_source_item (cons x (cons y xs)) = false

abbrev pub optional_string : Value → Bool
optional_string missing = true
optional_string (string_value s) = true
optional_string value = false

unfoldable pub every_text : Items → Bool
every_text nil = true
every_text (cons x xs) = let rest = every_text xs in is_text x && rest

abbrev pub optional_string_array : Value → Bool
optional_string_array missing = true
optional_string_array (items xs) = every_text xs
optional_string_array value = false

unfoldable pub is_generic_task_intent : (String → Value) → Bool
is_generic_task_intent intent =
    is_source (intent "source")
    && (optional_string (intent "requestedBy")
        && (optional_string (intent "pipelineHint")
            && (optional_string (intent "triggerReason")
                && (optional_string_array (intent "skipNodes")
                    && optional_string_array (intent "enableNodes")))))

unfoldable pub is_investigate_intent : (String → Value) → Bool
is_investigate_intent intent =
    is_source (intent "source")
    && (is_filled_text (intent "question")
        && (optional_string (intent "requestedBy") && optional_string (intent "triggerReason")))

unfoldable pub is_conversation_intent : (String → Value) → Bool
is_conversation_intent intent =
    is_this_text "slack" (intent "source")
    && (is_filled_text (intent "question")
        && (is_filled_text (intent "requestedBy") && optional_string (intent "triggerReason")))

abbrev pub feature_delivery_intent_kinds : List String
feature_delivery_intent_kinds =
    "feature_delivery.self_review" ∷ "feature_delivery.apply_review_feedback"
    ∷ "feature_delivery.repair_ci" ∷ "feature_delivery.triage_ci" ∷ "feature_delivery.sync_branch"
    ∷ "feature_delivery.finalize_pr" ∷ "feature_delivery.qa_preparation" ∷ []

unfoldable pub is_base_feature_delivery_intent : String → (String → Value) → Bool
is_base_feature_delivery_intent kind intent =
    includes kind feature_delivery_intent_kinds
    && (is_this_text "work_item" (intent "source")
        && (is_filled_text (intent "workItemId")
            && (is_filled_text (intent "repo")
                && (is_positive (intent "prNumber") && is_filled_text (intent "prUrl")))))

-- The `switch` over the kind.
unfoldable pub has_kind_fields : String → (String → Value) → Bool
has_kind_fields kind intent =
    if kind == "feature_delivery.self_review"
    then is_this_text "pr_adopted" (intent "sourceSubstate")
      || is_this_text "ci_green_pending_self_review" (intent "sourceSubstate")
    else if kind == "feature_delivery.apply_review_feedback"
    then is_this_text "applying_review_feedback" (intent "sourceSubstate")
    else if kind == "feature_delivery.repair_ci"
    then is_this_text "ci_failed" (intent "sourceSubstate")
    else if kind == "feature_delivery.triage_ci"
    then is_this_text "ci_failed" (intent "sourceSubstate")
      || is_this_text "ci_rerunning" (intent "sourceSubstate")
    else if kind == "feature_delivery.sync_branch"
    then is_whole (intent "maxBehindCommits")
    else if kind == "feature_delivery.finalize_pr"
    then is_this_text "squash" (intent "strategy")
    else kind == "feature_delivery.qa_preparation"

unfoldable pub is_intent_of_kind : String → (String → Value) → Bool
unfolding is_generic_task_intent is_investigate_intent is_conversation_intent
    is_base_feature_delivery_intent has_kind_fields
is_intent_of_kind kind intent =
    if kind == "generic_task"
    then is_generic_task_intent intent
    else if kind == "investigate"
    then is_investigate_intent intent
    else if kind == "conversation"
    then is_conversation_intent intent
    else is_base_feature_delivery_intent kind intent && has_kind_fields kind intent

unfoldable pub is_run_intent : Value → Bool
is_run_intent value = elim value [
  | object intent ↦ elim (intent "kind") [
    | string_value kind ↦ is_one (intent "version") && is_intent_of_kind kind intent
    | kind ↦ false
  ]
  | value ↦ false
]
