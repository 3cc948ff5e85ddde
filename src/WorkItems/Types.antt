-- ===== src/WorkItems/Types.antt =====
-- src/work-items/types.ts: the states of a work item, its record, and the inputs of the store.
-- Times are milliseconds, where the record shows them as ISO texts.
use gooseherd.Prelude.{
  ℕ, String, ◌≡◌, ◌↔◌, true, Option, List, arith, nat_eq, Eq, String-Eq, Nat-Eq,
}
use gooseherd.Prelude.Values.{Number}

pub data WorkItemWorkflow : Type 0 where
  product_discovery feature_delivery : WorkItemWorkflow

-- `ProductDiscoveryState | FeatureDeliveryState`
pub data WorkItemState : Type 0 where
  backlog in_progress waiting_for_review waiting_for_pm_confirmation : WorkItemState
  done cancelled : WorkItemState
  auto_review engineering_review qa_preparation product_review qa_review : WorkItemState
  ready_for_merge : WorkItemState

abbrev workflow_index : WorkItemWorkflow → ℕ
workflow_index product_discovery = 0
workflow_index feature_delivery = 1

abbrev state_index : WorkItemState → ℕ
state_index backlog = 0
state_index in_progress = 1
state_index waiting_for_review = 2
state_index waiting_for_pm_confirmation = 3
state_index done = 4
state_index cancelled = 5
state_index auto_review = 6
state_index engineering_review = 7
state_index qa_preparation = 8
state_index product_review = 9
state_index qa_review = 10
state_index ready_for_merge = 11

pub workflow_eq_iff :
    (a b : WorkItemWorkflow) → (nat_eq (workflow_index a) (workflow_index b) ≡ true) ↔ (a ≡ b)
workflow_eq_iff a b = ground arith

pub state_eq_iff : (a b : WorkItemState) → (nat_eq (state_index a) (state_index b) ≡ true) ↔ (a ≡ b)
state_eq_iff a b = ground arith

instance abbrev pub WorkItemWorkflow-Eq : Eq WorkItemWorkflow
WorkItemWorkflow-Eq = record {
  same = λ a b. nat_eq (workflow_index a) (workflow_index b);
  same_iff = workflow_eq_iff;
}

instance abbrev pub WorkItemState-Eq : Eq WorkItemState
WorkItemState-Eq = record {
  same = λ a b. nat_eq (state_index a) (state_index b);
  same_iff = state_eq_iff;
}

abbrev pub github_pr_adopted_flag : String
github_pr_adopted_flag = "github_pr_adopted"

abbrev pub ai_assist_enabled_flag : String
ai_assist_enabled_flag = "ai_assist_enabled"

abbrev pub ai_assist_disabled_flag : String
ai_assist_disabled_flag = "ai_assist_disabled"

pub record WorkItemRecord : Type 0 where
  pub id : String
  pub workflow : WorkItemWorkflow
  pub state : WorkItemState
  pub substate : Option String
  pub active_run_count : Option ℕ
  pub flags : List String
  pub title : String
  pub summary : String
  pub owner_team_id : String
  pub home_channel_id : String
  pub home_thread_ts : String
  pub origin_channel_id : Option String
  pub origin_thread_ts : Option String
  pub jira_issue_key : Option String
  pub github_pr_number : Option Number
  pub github_pr_url : Option String
  pub github_pr_base_branch : Option String
  pub github_pr_head_branch : Option String
  pub github_pr_head_sha : Option String
  pub source_work_item_id : Option String
  pub repo : Option String
  pub created_by_user_id : String
  pub created_at : ℕ
  pub updated_at : ℕ
  pub completed_at : Option ℕ

pub record CreateWorkItemInput : Type 0 where
  pub workflow : WorkItemWorkflow
  pub state : WorkItemState
  pub substate : Option String
  pub flags : Option (List String)
  pub title : String
  pub summary : Option String
  pub owner_team_id : String
  pub home_channel_id : String
  pub home_thread_ts : String
  pub origin_channel_id : Option String
  pub origin_thread_ts : Option String
  pub jira_issue_key : Option String
  pub github_pr_number : Option Number
  pub github_pr_url : Option String
  pub github_pr_base_branch : Option String
  pub github_pr_head_branch : Option String
  pub github_pr_head_sha : Option String
  pub source_work_item_id : Option String
  pub repo : Option String
  pub created_by_user_id : String

pub record UpdateWorkItemStateInput : Type 0 where
  pub state : WorkItemState
  pub substate : Option String
  pub flags_to_add : Option (List String)
  pub flags_to_remove : Option (List String)
