-- ===== src/WorkItems/Apply/Labels.antt =====
-- The sync of the review labels: it makes the flags agree with the labels, and repeating it is
-- nothing.
use gooseherd.WorkItems.Reducer.Events.{reduce_feature_delivery, reduce_event}
use gooseherd.Prelude.{
  ℕ, String, ◌≡◌, ◌∙◌, true, false, ◌&&◌, none, List, [], arith, or_default, ◌==◌, String-Eq,
  Nat-Eq, includes, add_all, delete_all, distinct, includes-add_all, includes-delete_all,
  includes-distinct,
}
use gooseherd.WorkItems.DeliveryPolicy.{
  advance_state_after_qa_entry, next_state_after_engineering_review, next_state_after_qa_review,
}
use gooseherd.WorkItems.Store.Updates.{updated_record}
use gooseherd.WorkItems.Apply.Refinement.{patched}
use gooseherd.WorkItems.Types.{
  UpdateWorkItemStateInput, auto_review, WorkItemRecord, engineering_review, qa_review,
  WorkItemState-Eq, feature_delivery,
}
use gooseherd.WorkItems.Store.{next_flags}
use gooseherd.WorkItems.Apply.Flags.{includes-next_flags}
use gooseherd.WorkItems.Reducer.Decision.{
  ReviewLabelsSynced, non_empty, patch_for_state, is_managed_state, has_flag, empty_decision,
  ReducerPolicy, review_labels_synced,
}
use gooseherd.WorkItems.Reducer.Reviews.{
  label_flags_added, label_flags_removed, reduce_review_labels_synced,
}

abbrev eng : String
eng = "engineering_review_done"

abbrev qa : String
qa = "qa_review_done"

-- The flags that one update of the sync leaves.
synced_flags : List String → ReviewLabelsSynced → UpdateWorkItemStateInput
synced_flags flags event = record {
  state = auto_review;
  substate = none;
  flags_to_add = non_empty (label_flags_added flags event);
  flags_to_remove = non_empty (label_flags_removed flags event);
}

synced_flags-agree :
    (flags : List String) (event : ReviewLabelsSynced)
    → (includes eng (next_flags flags (synced_flags flags event)) ≡ event.engineering_review_done)
      × (includes qa (next_flags flags (synced_flags flags event)) ≡ event.qa_review_done)
unfolding synced_flags label_flags_added label_flags_removed includes
synced_flags-agree flags event = ground (
  arith,
  includes-next_flags eng flags (synced_flags flags event),
  includes-next_flags qa flags (synced_flags flags event),
)

-- The flags that the patches of the sync leave, whichever of its branches is taken.
includes-synced :
    (work_item : WorkItemRecord) (event : ReviewLabelsSynced) (clock : ℕ → ℕ) (n : ℕ)
    (flag : String)
    → is_managed_state work_item.state ≡ true
    → includes flag
        (patched clock n work_item (reduce_review_labels_synced work_item event).patches).flags
      ≡ includes flag (next_flags work_item.flags (synced_flags work_item.flags event))
unfolding patched updated_record next_flags reduce_review_labels_synced patch_for_state synced_flags
    advance_state_after_qa_entry next_state_after_engineering_review next_state_after_qa_review
    is_managed_state includes
includes-synced work_item event clock n flag managed =
    let added = or_default (non_empty (label_flags_added work_item.flags event)) [] in
    let removed = or_default (non_empty (label_flags_removed work_item.flags event)) [] in
    let flags = delete_all (add_all (distinct work_item.flags) added) removed in
    ground (
      arith,
      includes-delete_all flag [] (add_all (distinct flags) []),
      includes-add_all flag [] (distinct flags),
      includes-distinct flag flags,
      includes-delete_all flag removed (add_all (distinct work_item.flags) added),
      includes-add_all flag added (distinct work_item.flags),
      includes-distinct flag work_item.flags,
    )

-- A record whose flags agree with the labels, and whose state the labels do not move.
record IsSynced (work_item : WorkItemRecord) (event : ReviewLabelsSynced) : Type 0 where
  engineering : has_flag work_item eng ≡ event.engineering_review_done
  qa_done : has_flag work_item qa ≡ event.qa_review_done
  past_engineering :
      (work_item.state == engineering_review && event.engineering_review_done) ≡ false
  past_qa : (work_item.state == qa_review && event.qa_review_done) ≡ false

IsSynced-empty :
    (work_item : WorkItemRecord) (event : ReviewLabelsSynced)
    → IsSynced work_item event
    → reduce_review_labels_synced work_item event ≡ empty_decision
unfolding reduce_review_labels_synced label_flags_added label_flags_removed
    advance_state_after_qa_entry is_managed_state includes
IsSynced-empty work_item event synced = ground arith

patched-moved :
    (work_item : WorkItemRecord) (event : ReviewLabelsSynced) (clock : ℕ → ℕ) (n : ℕ)
    → is_managed_state work_item.state ≡ true
    → let after = patched clock n work_item (reduce_review_labels_synced work_item event).patches in
      ((after.state == engineering_review && event.engineering_review_done) ≡ false)
      × ((after.state == qa_review && event.qa_review_done) ≡ false)
unfolding patched updated_record reduce_review_labels_synced patch_for_state
    advance_state_after_qa_entry next_state_after_engineering_review next_state_after_qa_review
    is_managed_state includes
patched-moved work_item event clock n managed = ground arith

patched-IsSynced :
    (work_item : WorkItemRecord) (event : ReviewLabelsSynced) (clock : ℕ → ℕ) (n : ℕ)
    → is_managed_state work_item.state ≡ true
    → IsSynced
        (patched clock n work_item (reduce_review_labels_synced work_item event).patches)
        event
patched-IsSynced work_item event clock n managed =
    let agree = synced_flags-agree work_item.flags event in
    let moved = patched-moved work_item event clock n managed in
    record {
      engineering = includes-synced work_item event clock n eng managed ∙ agree.0;
      qa_done = includes-synced work_item event clock n qa managed ∙ agree.1;
      past_engineering = moved.0;
      past_qa = moved.1;
    }

-- The sync of the labels of a managed delivery: once its decision is applied, the flags of the
-- engineering and of the QA review are there exactly if their labels are, and the same event again
-- decides nothing.
pub labels_synced-settles :
    (clock : ℕ → ℕ) (n : ℕ) (work_item : WorkItemRecord) (event : ReviewLabelsSynced)
    (policy : ReducerPolicy)
    → work_item.workflow ≡ feature_delivery
    → is_managed_state work_item.state ≡ true
    → let after =
        patched clock n work_item
          (reduce_feature_delivery work_item (review_labels_synced event) policy).patches in
      (has_flag after "engineering_review_done" ≡ event.engineering_review_done)
      × (has_flag after "qa_review_done" ≡ event.qa_review_done)
      × (reduce_feature_delivery after (review_labels_synced event) policy ≡ empty_decision)
unfolding reduce_feature_delivery reduce_event
labels_synced-settles clock n work_item event policy delivery managed =
    let patches = (reduce_review_labels_synced work_item event).patches in
    let synced = patched-IsSynced work_item event clock n managed in
    ground (
      arith,
      synced.engineering,
      synced.qa_done,
      IsSynced-empty (patched clock n work_item patches) event synced,
    )
