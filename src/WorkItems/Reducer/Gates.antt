-- ===== src/WorkItems/Reducer/Gates.antt =====
-- The gates of the delivery workflow: what must have happened for a decision to move a delivery
-- past CI, the engineering review and the QA review.
pub mod Qa
pub mod Engineering
pub mod Green
use gooseherd.Prelude.{
  ℕ, zero, suc, ◌+◌, ◌-◌, ◌*◌, ◌/◌, ◌%◌, ◌≤◌, ◌<◌, String, ◌≡◌, refl, sym, ap, subst, ◌∙◌, ◌≢◌, ◌↔◌,
  ◌⊎◌, inl, inr, Bool, true, false, ◌&&◌, ◌||◌, not, Option, none, some, List, [], ◌∷◌, ◌++◌, map,
  arith, eq_iff, ltb, leb, nat_eq, nat_eq_iff, if◌then◌else◌, or_default, ◌<|>◌, Bool-cases,
  Option-cases, Eq, ◌==◌, String-Eq, Nat-Eq, ==_refl, ==_sym, length, any, every, keep, is_empty,
  last_or, includes, add, delete, add_all, delete_all, distinct, includes-append, includes-add,
  includes-delete, includes-add_all, includes-delete_all, includes-distinct, delete_absent, Result,
  ok, err, ◌>>=◌, map_option,
}
use gooseherd.WorkItems.DeliveryPolicy.{
  advance_state_after_qa_entry, next_state_after_qa_preparation,
}
use gooseherd.WorkItems.Types.{
  WorkItemRecord, UpdateWorkItemStateInput, auto_review, WorkItemState, ready_for_merge,
  WorkItemState-Eq, qa_preparation, product_review, qa_review,
}
use gooseherd.WorkItems.Reducer.Ci.{reduce_progress_ready, reduce_successful_ci}
use gooseherd.WorkItems.Reducer.Decision.{
  ReducerEvent, ReducerPolicy, has_flag, review_labels_synced, is_managed_state, CiCompleted,
}
use gooseherd.WorkItems.Reducer.Path.{
  state_path_after_auto_review, patches_for_path, decision_for_state_path,
}

-- Some state on a path, and some patch of a list, is past the gate.
abbrev pub passes : (WorkItemState → Bool) → List UpdateWorkItemStateInput → Bool
passes past patches = any (λ patch. past patch.state) patches

abbrev pub is_ready : WorkItemState → Bool
is_ready state = state == ready_for_merge

-- The states behind the engineering review.
abbrev pub is_past_engineering : WorkItemState → Bool
is_past_engineering qa_preparation = true
is_past_engineering product_review = true
is_past_engineering qa_review = true
is_past_engineering ready_for_merge = true
is_past_engineering _ = false

abbrev pub is_not_auto_review : WorkItemState → Bool
is_not_auto_review state = not (state == auto_review)

passes-patches_for_path :
    (past : WorkItemState → Bool) (flags : Option (List String)) (fallback : Option String)
    (previous : Option WorkItemState) (path : List WorkItemState)
    → passes past (patches_for_path flags fallback previous path) ≡ any past path
unfolding patches_for_path
passes-patches_for_path past flags fallback previous [] = refl
passes-patches_for_path past flags fallback previous (state ∷ path) =
    ground (arith, passes-patches_for_path past none fallback (some state) path)

-- A property of the path is one of the patches that leave auto_review.
pub passes-decision :
    (past : WorkItemState → Bool) (state : WorkItemState) (path : List WorkItemState)
    (flags : List String) (fallback : Option String)
    → passes past (decision_for_state_path state path flags fallback).patches ≡ any past path
unfolding decision_for_state_path
passes-decision past state path flags fallback =
    passes-patches_for_path past (some flags) fallback none path
