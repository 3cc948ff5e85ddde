-- ===== src/WorkItems/Apply/Flags.antt =====
-- The flags that a decision leaves on the record, once it is applied.
use gooseherd.Prelude.{
  ℕ, String, ◌≡◌, refl, ◌∙◌, Bool, true, false, ◌&&◌, ◌||◌, not, none, some, List, [], ◌∷◌, ◌++◌,
  arith, if◌then◌else◌, or_default, ◌==◌, String-Eq, Nat-Eq, ==_sym, includes, add_all, distinct,
  includes-add_all, includes-delete_all, includes-distinct,
}
use gooseherd.WorkItems.Types.{
  WorkItemRecord, UpdateWorkItemStateInput, feature_delivery, auto_review, WorkItemState,
  engineering_review, ready_for_merge, qa_review, WorkItemState-Eq,
}
use gooseherd.WorkItems.Store.{next_flags}
use gooseherd.WorkItems.Store.Updates.{updated_record}
use gooseherd.WorkItems.Apply.Refinement.{patched}
use gooseherd.WorkItems.Reducer.Decision.{
  ReducerPolicy, has_flag, patch_for_state, is_managed_state, pr_synchronized,
}
use gooseherd.WorkItems.Reducer.Events.{
  reduce_feature_delivery, reduce_pr_synchronized, reduce_event, flags_reset_by_commits,
}

-- A flag is on a record after an update exactly when it is not among the removed ones, and was
-- there or is among the added ones.
pub includes-next_flags :
    (flag : String) (flags : List String) (input : UpdateWorkItemStateInput)
    → includes flag (next_flags flags input) ≡ (
        (includes flag flags || includes flag (or_default input.flags_to_add []))
        && not (includes flag (or_default input.flags_to_remove [])))
unfolding next_flags
includes-next_flags flag flags input = ground (
  arith,
  includes-delete_all flag (or_default input.flags_to_remove [])
      (add_all (distinct flags) (or_default input.flags_to_add [])),
  includes-add_all flag (or_default input.flags_to_add []) (distinct flags),
  includes-distinct flag flags,
)

-- The flags that new commits take away, each with its own condition on the state and the policy.
abbrev pub is_reset : String → WorkItemState → ReducerPolicy → Bool
is_reset flag state policy =
    flag == "ci_green"
    || (flag == "ci_rerun_exhausted"
        || (flag == "ci_triage_fix_decided"
            || ((flag == "engineering_review_done"
                  && (policy.reset_engineering_review_on_new_commits
                      && (state == engineering_review || state == ready_for_merge)))
                || ((flag == "product_review_done"
                      && (policy.reset_engineering_review_on_new_commits
                          && state == ready_for_merge))
                    || (flag == "qa_review_done"
                        && ((policy.reset_engineering_review_on_new_commits
                              && state == ready_for_merge)
                            || (policy.reset_qa_review_on_new_commits
                                && (state == qa_review || state == ready_for_merge))))))))

includes-reset :
    (flag : String) (merges reviewed tested : Bool)
    → includes flag (
        "ci_green"
        ∷ "ci_rerun_exhausted"
        ∷ "ci_triage_fix_decided"
        ∷ (if merges
            then "engineering_review_done" ∷ "product_review_done" ∷ "qa_review_done" ∷ []
            else (if reviewed then "engineering_review_done" ∷ [] else [])
              ++ (if tested then "qa_review_done" ∷ [] else [])))
      ≡ (flag == "ci_green"
          || (flag == "ci_rerun_exhausted"
              || (flag == "ci_triage_fix_decided"
                  || ((flag == "engineering_review_done" && (merges || reviewed))
                      || ((flag == "product_review_done" && merges)
                          || (flag == "qa_review_done" && (merges || tested)))))))
unfolding includes
includes-reset flag true reviewed tested = ground (
  arith,
  ==_sym flag "ci_green",
  ==_sym flag "ci_rerun_exhausted",
  ==_sym flag "ci_triage_fix_decided",
  ==_sym flag "engineering_review_done",
  ==_sym flag "product_review_done",
  ==_sym flag "qa_review_done",
)
includes-reset flag false true true = ground (
  arith,
  ==_sym flag "ci_green",
  ==_sym flag "ci_rerun_exhausted",
  ==_sym flag "ci_triage_fix_decided",
  ==_sym flag "engineering_review_done",
  ==_sym flag "product_review_done",
  ==_sym flag "qa_review_done",
)
includes-reset flag false true false = ground (
  arith,
  ==_sym flag "ci_green",
  ==_sym flag "ci_rerun_exhausted",
  ==_sym flag "ci_triage_fix_decided",
  ==_sym flag "engineering_review_done",
  ==_sym flag "product_review_done",
  ==_sym flag "qa_review_done",
)
includes-reset flag false false true = ground (
  arith,
  ==_sym flag "ci_green",
  ==_sym flag "ci_rerun_exhausted",
  ==_sym flag "ci_triage_fix_decided",
  ==_sym flag "engineering_review_done",
  ==_sym flag "product_review_done",
  ==_sym flag "qa_review_done",
)
includes-reset flag false false false = ground (
  arith,
  ==_sym flag "ci_green",
  ==_sym flag "ci_rerun_exhausted",
  ==_sym flag "ci_triage_fix_decided",
  ==_sym flag "engineering_review_done",
  ==_sym flag "product_review_done",
  ==_sym flag "qa_review_done",
)

flags_reset_by_commits-is_reset :
    (flag : String) (state : WorkItemState) (policy : ReducerPolicy)
    → includes flag (flags_reset_by_commits state policy) ≡ is_reset flag state policy
unfolding flags_reset_by_commits
flags_reset_by_commits-is_reset flag state policy =
    includes-reset flag (state == ready_for_merge && policy.reset_engineering_review_on_new_commits)
      (state == engineering_review && policy.reset_engineering_review_on_new_commits)
      ((state == qa_review || state == ready_for_merge) && policy.reset_qa_review_on_new_commits)
    ∙ ground arith

includes-empty : (flag : String) → includes flag [] ≡ false
unfolding includes
includes-empty flag = refl

module _ (clock : ℕ → ℕ) (n : ℕ) where
  -- New commits take a managed delivery back to auto_review. Once the decision is applied, it has
  -- exactly the flags that it had and that are not reset. The flags of the CI, ci_green,
  -- ci_rerun_exhausted and ci_triage_fix_decided, are always reset. Where the policy resets the
  -- engineering review, its flag is reset in engineering_review and ready_for_merge, and the flags of
  -- the product review and the QA review in ready_for_merge; where it resets the QA review, its flag
  -- is reset in qa_review and ready_for_merge. No other flag is, self_review_done among them.
  pub pr_synchronized-flags :
      (work_item : WorkItemRecord) (policy : ReducerPolicy) (flag : String)
      → work_item.workflow ≡ feature_delivery
      → is_managed_state work_item.state ≡ true
      → let after =
          patched clock n work_item
            (reduce_feature_delivery work_item pr_synchronized policy).patches in
        (after.state ≡ auto_review)
        × (has_flag after flag
            ≡ (has_flag work_item flag && not (is_reset flag work_item.state policy)))
        × (has_flag after "self_review_done" ≡ has_flag work_item "self_review_done")
  unfolding reduce_feature_delivery reduce_event reduce_pr_synchronized patched updated_record
      patch_for_state
  pr_synchronized-flags work_item policy flag delivery managed =
      let patch = patch_for_state auto_review (record {
        explicit_substate = some "waiting_ci";
        fallback_substate = none;
        default_substate = none;
        flags_to_add = [];
        flags_to_remove = flags_reset_by_commits work_item.state policy;
      }) in
      ground (
        arith,
        includes-next_flags flag work_item.flags patch,
        includes-next_flags "self_review_done" work_item.flags patch,
        includes-empty flag,
        includes-empty "self_review_done",
        flags_reset_by_commits-is_reset flag work_item.state policy,
        flags_reset_by_commits-is_reset "self_review_done" work_item.state policy,
      )
