-- ===== src/WorkItems/Apply.antt =====
-- src/work-items/feature-delivery-decision.ts: a decision is written to the store patch by patch.
pub mod Refinement
pub mod Flags
pub mod Labels
use gooseherd.Prelude.{
  ℕ, zero, suc, ◌+◌, ◌-◌, ◌*◌, ◌/◌, ◌%◌, ◌≤◌, ◌<◌, String, ◌≡◌, refl, sym, ap, subst, ◌∙◌, ◌≢◌, ◌↔◌,
  ◌⊎◌, inl, inr, Bool, true, false, ◌&&◌, ◌||◌, not, Option, none, some, List, [], ◌∷◌, ◌++◌, map,
  arith, eq_iff, ltb, leb, nat_eq, nat_eq_iff, if◌then◌else◌, or_default, ◌<|>◌, Bool-cases,
  Option-cases, Eq, ◌==◌, String-Eq, Nat-Eq, ==_refl, ==_sym, length, any, every, keep, is_empty,
  last_or, includes, add, delete, add_all, delete_all, distinct, includes-append, includes-add,
  includes-delete, includes-add_all, includes-delete_all, includes-distinct, delete_absent, Result,
  ok, err, ◌>>=◌, map_option,
}
use gooseherd.WorkItems.Types.{WorkItemRecord, UpdateWorkItemStateInput}
use gooseherd.WorkItems.Table.{WorkItemTable}
use gooseherd.WorkItems.Store.{StoreError, update_state}
use gooseherd.WorkItems.Reducer.Decision.{Decision}

module _ (table : WorkItemTable) (clock : ℕ → ℕ) where
  open table use {Db}

  -- The n-th update reads the time `clock n`. Nothing else writes between the updates.
  unfoldable pub apply_patches :
      ℕ
      → WorkItemRecord
      → List UpdateWorkItemStateInput
      → Db
      → Result StoreError WorkItemRecord × Db
  apply_patches n current [] db = (ok current, db)
  apply_patches n current (patch ∷ patches) db =
      let step = update_state table current.id patch (clock n) db in
      elim step.0 [ err e ↦ (err e, step.1) | ok next ↦ apply_patches (suc n) next patches step.1 ]

  unfoldable pub apply_work_item_decision :
      WorkItemRecord → Decision → Db → Result StoreError WorkItemRecord × Db
  unfolding apply_patches
  apply_work_item_decision work_item decision db = apply_patches 0 work_item decision.patches db
