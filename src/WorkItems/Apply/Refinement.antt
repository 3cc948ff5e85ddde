-- ===== src/WorkItems/Apply/Refinement.antt =====
-- Writing a decision to the store is folding its patches over the record.
use gooseherd.WorkItems.Workflow.{assert_state_transition_allowed}
use gooseherd.Prelude.{
  ℕ, suc, String, ◌≡◌, refl, ◌∙◌, ◌≢◌, none, some, List, [], ◌∷◌, arith, String-Eq, Nat-Eq, ok,
}
use gooseherd.WorkItems.Types.{WorkItemRecord, UpdateWorkItemStateInput, feature_delivery}
use gooseherd.WorkItems.Table.{WorkItemTable}
use gooseherd.WorkItems.Store.{get_work_item}
use gooseherd.WorkItems.Store.Updates.{updated_record, Updated, update_state-Updated}
use gooseherd.WorkItems.Reducer.Legal.{IsLegalChain, reduce-IsLegalChain}
use gooseherd.WorkItems.Reducer.Events.{reduce_feature_delivery}
use gooseherd.WorkItems.Reducer.Decision.{ReducerEvent, ReducerPolicy}
use gooseherd.WorkItems.Apply.{apply_patches}

-- The record that the patches make, with no store.
unfoldable pub patched :
    (ℕ → ℕ) → ℕ → WorkItemRecord → List UpdateWorkItemStateInput → WorkItemRecord
patched clock n current [] = current
patched clock n current (patch ∷ patches) =
    patched clock (suc n) (updated_record current patch (clock n)) patches

legal_head :
    (current : WorkItemRecord) (patch : UpdateWorkItemStateInput)
    (patches : List UpdateWorkItemStateInput)
    → current.workflow ≡ feature_delivery
    → IsLegalChain current.state (patch ∷ patches)
    → assert_state_transition_allowed current.workflow current.state patch.state ≡ none
legal_head current patch patches delivery legal = simp delivery legal.0

module _ (table : WorkItemTable) (clock : ℕ → ℕ) where
  open table use {Db}

  pub record Applied (n : ℕ) (current : WorkItemRecord) (patches : List UpdateWorkItemStateInput)
      (db : Db) : Type 0 where
    pub after : Db
    pub result :
        apply_patches table clock n current patches db
        ≡ (ok (patched clock n current patches), after)
    pub stored : get_work_item table current.id after ≡ some (patched clock n current patches)
    pub others :
        (j : String) → j ≢ current.id → get_work_item table j after ≡ get_work_item table j db

  apply_step :
      (n : ℕ) (current : WorkItemRecord) (patch : UpdateWorkItemStateInput)
      (patches : List UpdateWorkItemStateInput) (db : Db)
      → (u : Updated table current.id patch (clock n) current db)
      → Applied (suc n) (updated_record current patch (clock n)) patches u.after
      → Applied n current (patch ∷ patches) db
  unfolding apply_patches patched updated_record
  apply_step n current patch patches db u rest = record {
    after = rest.after;
    result = ground (arith, u.result, rest.result);
    stored = rest.stored;
    others = λ j ne. rest.others j ne ∙ u.others j ne;
  }

  apply_patches-Applied :
      (n : ℕ) (current : WorkItemRecord) (patches : List UpdateWorkItemStateInput) (db : Db)
      → get_work_item table current.id db ≡ some current
      → current.workflow ≡ feature_delivery
      → IsLegalChain current.state patches
      → Applied n current patches db
  unfolding apply_patches patched updated_record
  apply_patches-Applied n current [] db stored delivery legal = record {
    after = db;
    result = refl;
    stored = stored;
    others = λ j ne. refl;
  }
  apply_patches-Applied n current (patch ∷ patches) db stored delivery legal =
      let u =
        update_state-Updated table current.id patch (clock n) current db stored
          (legal_head current patch patches delivery legal) in
      apply_step n current patch patches db u (
        apply_patches-Applied (suc n) (updated_record current patch (clock n)) patches u.after
          u.stored delivery legal.1)

  -- For a feature delivery that the store holds, the decision of the reducer on any event is written
  -- to the end: no patch is refused, the result is the record with the patches folded over it, that
  -- record is then the stored one, and no other work item changes.
  pub apply-reduce-Applied :
      (work_item : WorkItemRecord) (event : ReducerEvent) (policy : ReducerPolicy) (db : Db)
      → get_work_item table work_item.id db ≡ some work_item
      → work_item.workflow ≡ feature_delivery
      → Applied 0 work_item (reduce_feature_delivery work_item event policy).patches db
  apply-reduce-Applied work_item event policy db stored delivery =
      apply_patches-Applied 0 work_item _ db stored delivery
        (reduce-IsLegalChain work_item event policy)
