-- ===== src/WorkItems/Reducer/PathEnd.antt =====
-- Where the path of a delivery that leaves auto_review ends.
use gooseherd.WorkItems.Reducer.Decision.{ReducerPolicy, has_flag}
use gooseherd.WorkItems.Types.{WorkItemRecord, auto_review, engineering_review}
use gooseherd.Prelude.{◌≡◌, Bool, ◌&&◌, not, arith, if◌then◌else◌, String-Eq, Nat-Eq, last_or}
use gooseherd.WorkItems.Reducer.Path.{state_path_after_auto_review, final_state_after_auto_review}
use gooseherd.WorkItems.Reducer.Gates.{is_past_engineering}

-- The path ends in the state that the policy computes from the flags, or, where that state is past
-- an engineering review that has not been done, in the engineering review. The empty path stays in
-- auto_review.
pub last-state_path :
    (work_item : WorkItemRecord) (ci_green self_review_done : Bool) (policy : ReducerPolicy)
    → last_or auto_review (state_path_after_auto_review work_item ci_green self_review_done policy)
      ≡ (if is_past_engineering
              (final_state_after_auto_review work_item ci_green self_review_done policy)
            && not (has_flag work_item "engineering_review_done")
          then engineering_review
          else final_state_after_auto_review work_item ci_green self_review_done policy)
unfolding state_path_after_auto_review
last-state_path work_item ci_green self_review_done policy = ground arith
