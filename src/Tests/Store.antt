-- ===== src/Tests/Store.antt =====
-- The work item store, from an empty table.
use gooseherd.Prelude.{◌≡◌, refl, true, none, some, [], ◌∷◌, arith, String-Eq, Nat-Eq}
use gooseherd.Prelude.Values.{natural}
use gooseherd.WorkItems.Types.{
  UpdateWorkItemStateInput, CreateWorkItemInput, feature_delivery, auto_review, engineering_review,
}
use gooseherd.WorkItems.Table.{list_table, find_row}
use gooseherd.WorkItems.Store.{get_work_item, set_flag_state, update_state, create_work_item}
use gooseherd.WorkItems.Store.Invariant.{
  IsValid, here, next, created, updated, flag_set, Reach-IsValid,
}

empty-IsValid : IsValid list_table []
unfolding get_work_item find_row
empty-IsValid = record { at = λ j r h. ground arith }

abbrev input : CreateWorkItemInput
input = record {
  workflow = feature_delivery;
  state = auto_review;
  substate = none;
  flags = some ("pr_opened" ∷ []);
  title = "Nil guard";
  summary = none;
  owner_team_id = "team";
  home_channel_id = "C1";
  home_thread_ts = "1.0";
  origin_channel_id = none;
  origin_thread_ts = none;
  jira_issue_key = none;
  github_pr_number = some (natural 7);
  github_pr_url = none;
  github_pr_base_branch = none;
  github_pr_head_branch = none;
  github_pr_head_sha = none;
  source_work_item_id = none;
  repo = some "owner/repo";
  created_by_user_id = "u1";
}

abbrev to_review : UpdateWorkItemStateInput
to_review = record {
  state = engineering_review;
  substate = some "waiting_engineering_review";
  flags_to_add = some ("ci_green" ∷ []);
  flags_to_remove = none;
}

is_fresh : find_row "w1" [] ≡ none
unfolding find_row
is_fresh = refl

-- A delivery is created and reviewed, then a flag is set on a work item that is missing.
Reach-IsValid_example :
    IsValid list_table
      (set_flag_state list_table "w9" "ci_green" true 30
        (update_state list_table "w1" to_review 20
          (create_work_item list_table "w1" input 10 []).1).1).1
Reach-IsValid_example = Reach-IsValid list_table empty-IsValid (
    next (next (next here (created "w1" input 10 is_fresh)) (updated "w1" to_review 20))
      (flag_set "w9" "ci_green" true 30))
