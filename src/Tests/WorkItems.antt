-- ===== src/Tests/WorkItems.antt =====
-- The work item modules at concrete deliveries.
use gooseherd.Prelude.{
  ◌+◌, String, ◌≡◌, refl, true, false, ◌&&◌, not, none, some, List, [], ◌∷◌, String-Eq, Nat-Eq,
  last_or, includes,
}
use gooseherd.Prelude.Values.{natural}
use gooseherd.WorkItems.Reducer.Gates.{passes, is_ready, is_past_engineering, is_not_auto_review}
use gooseherd.WorkItems.Reducer.Ci.{reduce_successful_ci}
use gooseherd.WorkItems.Reducer.Path.{
  final_state_after_auto_review, state_path_after_auto_review, decision_for_state_path,
}
use gooseherd.WorkItems.Types.{
  WorkItemRecord, feature_delivery, auto_review, WorkItemState, UpdateWorkItemStateInput, qa_review,
  engineering_review, qa_preparation, product_review, ready_for_merge,
}
use gooseherd.WorkItems.Table.{list_table, find_row}
use gooseherd.WorkItems.Store.{get_work_item}
use gooseherd.WorkItems.Reducer.Decision.{
  ReducerPolicy, ReducerEvent, ReviewLabelsSynced, ci_completed, has_flag, is_managed_state,
  success, pr_synchronized, review_labels_synced, empty_decision, is_progress_state,
}
use gooseherd.WorkItems.Reducer.Legal.{IsLegalChain, reduce-IsLegalChain}
use gooseherd.WorkItems.Reducer.Gates.Qa.{ready_for_merge-needs_qa, qa_passed}
use gooseherd.WorkItems.Reducer.Gates.Engineering.{auto_review-needs_engineering}
use gooseherd.WorkItems.Reducer.Gates.Green.{auto_review-needs_ci, ci_passed}
use gooseherd.WorkItems.Reducer.PathEnd.{last-state_path}
use gooseherd.WorkItems.Reducer.Entered.{IsAnnounced, reduce-IsAnnounced}
use gooseherd.WorkItems.Apply.Refinement.{Applied, apply-reduce-Applied, patched}
use gooseherd.WorkItems.Apply.Flags.{is_reset, pr_synchronized-flags}
use gooseherd.WorkItems.Apply.Labels.{labels_synced-settles}
use gooseherd.WorkItems.Reducer.Events.{reduce_feature_delivery, reduce_event, reduce_ci_completed}

abbrev delivery : WorkItemState → List String → WorkItemRecord
delivery state flags = record {
  id = "w1";
  workflow = feature_delivery;
  state = state;
  substate = none;
  active_run_count = none;
  flags = flags;
  title = "Nil guard";
  summary = "";
  owner_team_id = "team";
  home_channel_id = "C1";
  home_thread_ts = "1.0";
  origin_channel_id = none;
  origin_thread_ts = none;
  jira_issue_key = none;
  github_pr_number = some (natural 7);
  github_pr_url = none;
  github_pr_base_branch = none;
  github_pr_head_branch = none;
  github_pr_head_sha = none;
  source_work_item_id = none;
  repo = some "owner/repo";
  created_by_user_id = "u1";
  created_at = 1;
  updated_at = 1;
  completed_at = none;
}

abbrev policy : ReducerPolicy
policy = record {
  skip_product_review = false;
  reset_engineering_review_on_new_commits = true;
  reset_qa_review_on_new_commits = true;
  self_review_enabled = false;
  apply_review_feedback_enabled = false;
}

abbrev green : ReducerEvent
green =
    ci_completed
      (record { conclusion = success; has_active_system_run = false; automation_enabled = true })

abbrev reviewed : List String
reviewed = "engineering_review_done" ∷ "product_review_required" ∷ "qa_review_done" ∷ []

abbrev states_of : List UpdateWorkItemStateInput → List WorkItemState
states_of [] = []
states_of (patch ∷ patches) = patch.state ∷ states_of patches

-- A reviewed delivery walks through every gate on a green CI.
green_walk :
    states_of (reduce_feature_delivery (delivery auto_review reviewed) green policy).patches
    ≡ engineering_review ∷ qa_preparation ∷ product_review ∷ qa_review ∷ ready_for_merge ∷ []
unfolding reduce_feature_delivery reduce_event reduce_ci_completed reduce_successful_ci
    state_path_after_auto_review decision_for_state_path is_progress_state includes
green_walk = refl

reduce-IsLegalChain_example :
    IsLegalChain auto_review
      (reduce_feature_delivery (delivery auto_review reviewed) green policy).patches
reduce-IsLegalChain_example = reduce-IsLegalChain (delivery auto_review reviewed) green policy

green_ready :
    passes is_ready (reduce_feature_delivery (delivery auto_review reviewed) green policy).patches
    ≡ true
unfolding reduce_feature_delivery reduce_event reduce_ci_completed reduce_successful_ci
    state_path_after_auto_review decision_for_state_path is_progress_state includes
green_ready = refl

ready_for_merge-needs_qa_example : qa_passed (delivery auto_review reviewed) green ≡ true
ready_for_merge-needs_qa_example =
    ready_for_merge-needs_qa (delivery auto_review reviewed) green policy (λ e. cc) green_ready

green_past :
    passes is_past_engineering
      (reduce_feature_delivery (delivery auto_review reviewed) green policy).patches
    ≡ true
unfolding reduce_feature_delivery reduce_event reduce_ci_completed reduce_successful_ci
    state_path_after_auto_review decision_for_state_path is_progress_state includes
green_past = refl

auto_review-needs_engineering_example :
    has_flag (delivery auto_review reviewed) "engineering_review_done" ≡ true
auto_review-needs_engineering_example =
    auto_review-needs_engineering (delivery auto_review reviewed) green policy refl green_past

green_leaves :
    passes is_not_auto_review
      (reduce_feature_delivery (delivery auto_review reviewed) green policy).patches
    ≡ true
unfolding reduce_feature_delivery reduce_event reduce_ci_completed reduce_successful_ci
    state_path_after_auto_review decision_for_state_path is_progress_state includes
green_leaves = refl

auto_review-needs_ci_example : ci_passed (delivery auto_review reviewed) green ≡ true
auto_review-needs_ci_example =
    auto_review-needs_ci (delivery auto_review reviewed) green policy refl green_leaves

last-state_path_example :
    last_or auto_review
      (state_path_after_auto_review (delivery auto_review ("qa_review_done" ∷ [])) true true policy)
    ≡ engineering_review
unfolding final_state_after_auto_review includes
last-state_path_example =
    last-state_path (delivery auto_review ("qa_review_done" ∷ [])) true true policy

reduce-IsAnnounced_example :
    IsAnnounced auto_review (reduce_feature_delivery (delivery auto_review reviewed) green policy)
reduce-IsAnnounced_example = reduce-IsAnnounced (delivery auto_review reviewed) green policy

held :
    get_work_item list_table "w1" (delivery auto_review reviewed ∷ [])
    ≡ some (delivery auto_review reviewed)
unfolding get_work_item find_row
held = refl

apply-reduce-Applied_example :
    Applied list_table
      (λ n. 100 + n)
      0
      (delivery auto_review reviewed)
      (reduce_feature_delivery (delivery auto_review reviewed) green policy).patches
      (delivery auto_review reviewed ∷ [])
apply-reduce-Applied_example =
    apply-reduce-Applied list_table (λ n. 100 + n) (delivery auto_review reviewed) green policy
      (delivery auto_review reviewed ∷ []) held refl

managed_here : (flags : List String) → is_managed_state (delivery qa_review flags).state ≡ true
unfolding is_managed_state includes
managed_here flags = refl

pr_synchronized-flags_example :
    let after =
      patched
        (λ n. 100 + n)
        0
        (delivery qa_review reviewed)
        (reduce_feature_delivery (delivery qa_review reviewed) pr_synchronized policy).patches in
    (after.state ≡ auto_review)
    × (has_flag after "qa_review_done" ≡ (
        has_flag (delivery qa_review reviewed) "qa_review_done"
        && not (is_reset "qa_review_done" qa_review policy)))
    × (has_flag after "self_review_done"
        ≡ has_flag (delivery qa_review reviewed) "self_review_done")
pr_synchronized-flags_example =
    pr_synchronized-flags (λ n. 100 + n) 0 (delivery qa_review reviewed) policy "qa_review_done"
      refl (managed_here reviewed)

abbrev labels : ReviewLabelsSynced
labels = record { engineering_review_done = false; qa_review_done = true }

labels_synced-settles_example :
    let after =
      patched
        (λ n. 100 + n)
        0
        (delivery qa_review reviewed)
        (reduce_feature_delivery
          (delivery qa_review reviewed)
          (review_labels_synced labels)
          policy).patches in
    (has_flag after "engineering_review_done" ≡ false)
    × (has_flag after "qa_review_done" ≡ true)
    × (reduce_feature_delivery after (review_labels_synced labels) policy ≡ empty_decision)
labels_synced-settles_example =
    labels_synced-settles (λ n. 100 + n) 0 (delivery qa_review reviewed) labels policy refl
      (managed_here reviewed)
