-- ===== src/Tests/Runs.antt =====
-- Intents of runs.
use gooseherd.Prelude.{◌≡◌, refl, true, ◌&&◌, ◌||◌, not, none, some, [], String-Eq, Nat-Eq}
use gooseherd.Prelude.Values.{natural, not_natural}
use gooseherd.WorkItems.Types.{WorkItemRecord, feature_delivery, auto_review}
use gooseherd.Runtime.Reconciler.{running}
use gooseherd.Runs.Intents.{
  RunIntent, triage_ci, ci_failed, feature_delivery_intent, is_feature_delivery_system_run,
  is_feature_delivery_intent, is_feature_delivery_auto_review_run,
  is_feature_delivery_auto_review_or_repair_ci_run,
  is_successful_feature_delivery_progress_checkpoint,
}
use gooseherd.Runs.Intents.Values.{is_run_intent}
use gooseherd.Runs.Intents.Derive.{
  LegacyRun, derive_run_intent_from_legacy, value_of, build_feature_delivery_intent,
  build_feature_delivery_base_intent,
}
use gooseherd.Runs.Intents.Laws.{
  run_with, is_filled, has_positive, has_natural_bound, derive_run_intent_from_legacy-valid,
  derive_run_intent_from_legacy-class, build_feature_delivery_intent-valid, is_run_intent-value_of,
}

abbrev triage_run : LegacyRun
triage_run = record {
  requested_by = "work-item:ci-triage";
  pipeline_hint = none;
  work_item_id = some "w1";
  auto_review_source_substate = some "ci_rerunning";
  repo_slug = some "owner/repo";
  pr_number = some (natural 7);
  pr_url = some "https://example.org/7";
  skip_nodes = none;
  enable_nodes = none;
}

-- A run whose pull request number is negative.
abbrev negative_run : LegacyRun
negative_run = record triage_run { pr_number = some not_natural }

derive_run_intent_from_legacy-valid_example :
    is_run_intent (value_of (derive_run_intent_from_legacy negative_run)) ≡ (
      not (is_feature_delivery_intent (some (derive_run_intent_from_legacy negative_run)))
      || has_positive (some not_natural))
derive_run_intent_from_legacy-valid_example = derive_run_intent_from_legacy-valid negative_run

derive_run_intent_from_legacy-class_example :
    let derived =
      run_with (some (derive_run_intent_from_legacy triage_run)) triage_run running true in
    let legacy = run_with none triage_run running true in
    (is_feature_delivery_system_run derived ≡ is_feature_delivery_system_run legacy)
    × (is_feature_delivery_auto_review_run derived ≡ is_feature_delivery_auto_review_run legacy)
    × (is_feature_delivery_auto_review_or_repair_ci_run derived
        ≡ is_feature_delivery_auto_review_or_repair_ci_run legacy)
    × (is_successful_feature_delivery_progress_checkpoint derived
        ≡ is_successful_feature_delivery_progress_checkpoint legacy)
derive_run_intent_from_legacy-class_example =
    derive_run_intent_from_legacy-class triage_run running true

abbrev delivery : WorkItemRecord
delivery = record {
  id = "w1";
  workflow = feature_delivery;
  state = auto_review;
  substate = some "ci_failed";
  active_run_count = none;
  flags = [];
  title = "Nil guard";
  summary = "";
  owner_team_id = "team";
  home_channel_id = "C1";
  home_thread_ts = "1.0";
  origin_channel_id = none;
  origin_thread_ts = none;
  jira_issue_key = none;
  github_pr_number = some (natural 7);
  github_pr_url = some "https://example.org/7";
  github_pr_base_branch = none;
  github_pr_head_branch = none;
  github_pr_head_sha = some "abc";
  source_work_item_id = none;
  repo = some "owner/repo";
  created_by_user_id = "u1";
  created_at = 1;
  updated_at = 2;
  completed_at = none;
}

abbrev triage_intent : RunIntent
triage_intent =
    feature_delivery_intent
      (record {
        work_item_id = "w1";
        repo = "owner/repo";
        pr_number = natural 7;
        pr_url = "https://example.org/7";
        head_sha = some "abc";
        trigger_reason = some "label";
      })
      (triage_ci ci_failed)

built :
    build_feature_delivery_intent delivery (triage_ci ci_failed) (some "label") ≡ some triage_intent
unfolding build_feature_delivery_intent build_feature_delivery_base_intent
built = refl

build_feature_delivery_intent-valid_example :
    is_run_intent (value_of triage_intent)
    ≡ (has_positive (some (natural 7)) && has_natural_bound (triage_ci ci_failed))
build_feature_delivery_intent-valid_example =
    build_feature_delivery_intent-valid delivery (triage_ci ci_failed) (some "label") triage_intent
      refl built

is_run_intent-value_of_example : is_run_intent (value_of triage_intent) ≡ is_filled triage_intent
is_run_intent-value_of_example = is_run_intent-value_of triage_intent
