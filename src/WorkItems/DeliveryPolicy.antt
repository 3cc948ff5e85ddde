-- ===== src/WorkItems/DeliveryPolicy.antt =====
-- src/work-items/feature-delivery-policy.ts: the next state of a delivery after each gate.
-- The subtypes of `WorkItemState` that the source names are all `WorkItemState`. An optional
-- Boolean is a Boolean, since `undefined` is read as false wherever it is read.
use gooseherd.Prelude.{
  Bool, ◌&&◌, ◌||◌, not, List, String, if◌then◌else◌, ◌==◌, includes, true, ◌∷◌, every, false, [],
  String-Eq,
}
use gooseherd.WorkItems.Types.{
  WorkItemState, auto_review, engineering_review, qa_preparation, product_review, qa_review,
  ready_for_merge, WorkItemState-Eq, ai_assist_disabled_flag, ai_assist_enabled_flag,
  github_pr_adopted_flag,
}

-- `"approved" | "changes_requested"`
pub data ReviewOutcome : Type 0 where
  approved changes_requested : ReviewOutcome

abbrev pub is_approved : ReviewOutcome → Bool
is_approved approved = true
is_approved changes_requested = false

abbrev auto_rebase_required_flags : List String
auto_rebase_required_flags = "engineering_review_done" ∷ "qa_review_done" ∷ []

unfoldable pub can_auto_rebase_feature_delivery_branch : List String → Bool
can_auto_rebase_feature_delivery_branch flags =
    every (λ flag. includes flag flags) auto_rebase_required_flags

unfoldable pub is_ai_assist_automation_enabled : List String → Bool
is_ai_assist_automation_enabled flags =
    if includes ai_assist_disabled_flag flags
    then false
    else includes ai_assist_enabled_flag flags || includes github_pr_adopted_flag flags

unfoldable pub next_state_after_auto_review : Bool → Bool → Bool → WorkItemState
next_state_after_auto_review ci_green self_review_done has_active_auto_fixes =
    if ci_green && self_review_done && not has_active_auto_fixes
    then engineering_review
    else auto_review

unfoldable pub next_state_after_engineering_review : ReviewOutcome → WorkItemState
next_state_after_engineering_review outcome =
    if not (is_approved outcome) then auto_review else qa_preparation

pub record AutoReviewInput : Type 0 where
  pub ci_green : Bool
  pub self_review_done : Bool
  pub has_active_auto_fixes : Bool
  pub engineering_review_done : Bool
  pub product_review_done : Bool
  pub qa_review_done : Bool
  pub product_review_required : Bool
  pub skip_product_review : Bool

unfoldable pub advance_state_after_auto_review : AutoReviewInput → WorkItemState
unfolding next_state_after_auto_review next_state_after_engineering_review
advance_state_after_auto_review input =
    let next_state =
      next_state_after_auto_review input.ci_green input.self_review_done
        input.has_active_auto_fixes in
    if not (next_state == engineering_review)
    then next_state
    else if input.qa_review_done
    then ready_for_merge
    else if input.product_review_done
    then qa_review
    else if not input.engineering_review_done
    then engineering_review
    else next_state_after_engineering_review approved

unfoldable pub next_state_after_qa_preparation : Bool → Bool → Bool → WorkItemState
next_state_after_qa_preparation product_review_required qa_prep_found_issue skip_product_review =
    if qa_prep_found_issue
    then auto_review
    else if product_review_required && not skip_product_review
    then product_review
    else qa_review

unfoldable pub next_state_after_product_review : ReviewOutcome → WorkItemState
next_state_after_product_review outcome = if is_approved outcome then qa_review else auto_review

unfoldable pub next_state_after_qa_review : ReviewOutcome → WorkItemState
next_state_after_qa_review outcome = if is_approved outcome then ready_for_merge else auto_review

unfoldable pub advance_state_after_qa_entry : WorkItemState → Bool → WorkItemState
advance_state_after_qa_entry state qa_review_done =
    if state == qa_review && qa_review_done then ready_for_merge else state
