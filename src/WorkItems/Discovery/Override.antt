-- ===== src/WorkItems/Discovery/Override.antt =====
-- src/work-items/service.ts: the override of a state by hand, and the stop of the runs of a work item.
-- The run store gives the runs of a work item; `cancelRun` is the caller's, and acts on a world of its
-- own.
pub mod Laws
pub mod Stops
use gooseherd.Prelude.{
  ℕ, zero, suc, ◌+◌, ◌-◌, ◌*◌, ◌/◌, ◌%◌, ◌≤◌, ◌<◌, String, ◌≡◌, refl, sym, ap, subst, ◌∙◌, ◌≢◌, ◌↔◌,
  ◌⊎◌, inl, inr, Bool, true, false, ◌&&◌, ◌||◌, not, Option, none, some, List, [], ◌∷◌, ◌++◌, map,
  max, arith, eq_iff, ltb, leb, nat_eq, nat_eq_iff, if◌then◌else◌, or_default, ◌<|>◌, Bool-cases,
  Option-cases, List-cases, Eq, ◌==◌, String-Eq, Nat-Eq, ==_refl, ==_sym, length, any, every,
  every-append, keep, is_empty, head?, last_or, includes, add, delete, add_all, delete_all,
  distinct, includes-append, includes-add, includes-delete, includes-add_all, includes-delete_all,
  includes-distinct, delete_absent, trim, map_get, map_set, map_delete, map_get-map_set, Result, ok,
  err, Result-cases, Call, ◌>>=◌, ◌>>◌, return, throw, reads, writes, given, check, map_option,
}
use gooseherd.WorkItems.Types.{
  WorkItemRecord, WorkItemState, WorkItemState-Eq, WorkItemWorkflow-Eq, feature_delivery,
  ready_for_merge,
}
use gooseherd.WorkItems.Workflow.{assert_state_transition_allowed}
use gooseherd.WorkItems.Table.{WorkItemTable}
use gooseherd.WorkItems.Store.{update_state}
use gooseherd.WorkItems.Discovery.Authorization.{
  Identity, WorkItemActor, user_actor, admin_session, require_user_actor,
  assert_can_override_work_item, assert_can_apply_manual_transition,
}
use gooseherd.WorkItems.Discovery.Calls.{
  ServiceCall, not_a_user, processing_active, of_authorization, of_policy, on_items, append_event,
  require_item,
}

pub record ItemRun : Type 0 where
  pub id : String
  pub status : String

unfoldable pub is_actively_processing_status : String → Bool
is_actively_processing_status status =
    includes status
      ("queued" ∷ "running" ∷ "validating" ∷ "pushing" ∷ "awaiting_ci" ∷ "ci_fixing" ∷ [])

-- `hasActiveProcessing`, over the runs of the work item.
unfoldable pub has_active_processing : List ItemRun → Bool
has_active_processing runs = any (λ r. is_actively_processing_status r.status) runs

pub record StopReport : Type 0 where
  pub stopped_run_ids : List String
  pub already_idle_run_ids : List String
  pub failed_run_ids : List String

-- The loop of `stopProcessing`, with what it has collected.
unfoldable pub stop_runs :
    {World : Type 0}
    → (String → World → Bool × World)
    → List ItemRun
    → StopReport
    → World
    → StopReport × World
stop_runs cancel_run [] report w = (report, w)
stop_runs cancel_run (run ∷ runs) report w =
    let cancelled = cancel_run run.id w in
    let idle =
      stop_runs cancel_run runs
        (record report { already_idle_run_ids = report.already_idle_run_ids ++ run.id ∷ [] }) w in
    let stopped =
      stop_runs cancel_run runs
        (record report { stopped_run_ids = report.stopped_run_ids ++ run.id ∷ [] }) cancelled.1 in
    let failed =
      stop_runs cancel_run runs
        (record report { failed_run_ids = report.failed_run_ids ++ run.id ∷ [] }) cancelled.1 in
    if not (is_actively_processing_status run.status)
    then idle
    else if cancelled.0
    then stopped
    else failed

abbrev pub empty_report : StopReport
empty_report = record { stopped_run_ids = []; already_idle_run_ids = []; failed_run_ids = [] }

abbrev pub actor_user_id : WorkItemActor → Option String
actor_user_id (user_actor user_id) = some user_id
actor_user_id (admin_session session_id) = none

module _ (table : WorkItemTable) (identity : Identity) where
  open table use {Db}

  -- The guard of `guardedOverrideState` on its actor: an admin session passes.
  unfoldable pub check_override_actor : WorkItemActor → ServiceCall Db (Unit {0})
  check_override_actor (admin_session session_id) = return tt
  check_override_actor (user_actor user_id) =
      check of_authorization (assert_can_override_work_item identity user_id)

  -- `handleReadyForMerge`
  unfoldable pub handle_ready_for_merge :
      Option (WorkItemRecord → ServiceCall Db (Unit {0}))
      → WorkItemRecord
      → ServiceCall Db (Unit {0})
  handle_ready_for_merge none item = return tt
  handle_ready_for_merge (some handler) item =
      if not (item.workflow == feature_delivery) || not (item.state == ready_for_merge)
      then return tt
      else handler item

  -- The guards of `guardedOverrideState`.
  unfoldable pub admit_override :
      String → WorkItemActor → (WorkItemRecord → Bool) → ServiceCall Db WorkItemRecord
  admit_override work_item_id actor is_processing = do
    item ← require_item table work_item_id
    check_override_actor actor
    check (λ e. e) (if is_processing item then some processing_active else none)
    return item

  -- `guardedOverrideState` behind its guards.
  unfoldable pub apply_override :
      WorkItemRecord
      → WorkItemState
      → Option String
      → WorkItemActor
      → Option (WorkItemRecord → ServiceCall Db (Unit {0}))
      → ℕ
      → ServiceCall Db WorkItemRecord
  apply_override item state substate actor handler now = do
    append_event item.id "override.requested" (actor_user_id actor)
    check of_policy (assert_state_transition_allowed item.workflow item.state state)
    updated ← on_items (
        update_state table item.id
          (record {
            state = state;
            substate = substate;
            flags_to_add = none;
            flags_to_remove = none;
          })
          now)
    append_event item.id "override.applied" (actor_user_id actor)
    handle_ready_for_merge handler updated
    return updated

  unfoldable pub guarded_override_state :
      String
      → WorkItemState
      → Option String
      → WorkItemActor
      → (WorkItemRecord → Bool)
      → Option (WorkItemRecord → ServiceCall Db (Unit {0}))
      → ℕ
      → ServiceCall Db WorkItemRecord
  unfolding apply_override
  guarded_override_state work_item_id state substate actor is_processing handler now = do
    item ← admit_override work_item_id actor is_processing
    apply_override item state substate actor handler now

  -- `stopProcessing`: the world of `cancelRun` is passed through.
  unfoldable pub stop_processing :
      {World : Type 0}
      → String
      → WorkItemActor
      → (String → List ItemRun)
      → (String → World → Bool × World)
      → World
      → ServiceCall Db (WorkItemRecord × StopReport × World)
  stop_processing work_item_id actor runs_of cancel_run w = do
    item ← require_item table work_item_id
    user_id ← given (require_user_actor actor) not_a_user
    check of_authorization (assert_can_apply_manual_transition identity user_id item)
    let stopped = stop_runs cancel_run (runs_of item.id) empty_report w
    append_event item.id "processing.stop_requested" (some user_id)
    return (item, stopped.0, stopped.1)

  -- `attachRunToWorkItem`: the run store links the run.
  unfoldable pub attach_run_to_work_item :
      String → String → Option String → (ServiceCall Db (Unit {0})) → ServiceCall Db WorkItemRecord
  attach_run_to_work_item work_item_id run_id user_id link_to_work_item = do
    item ← require_item table work_item_id
    link_to_work_item
    append_event item.id "run.attached" user_id
    return item
