-- ===== src/WorkItems/Discovery/Override/Stops.antt =====
-- Which runs `stopProcessing` of src/work-items/service.ts covers.
use gooseherd.Prelude.{
  String, ◌≡◌, refl, sym, inl, inr, Bool, ◌||◌, not, List, [], ◌∷◌, ◌++◌, map, arith, Option-cases,
  String-Eq, Nat-Eq, keep, includes, includes-append, ok,
}
use mathlib.Core.List.{append_assoc, append-nil}
use gooseherd.WorkItems.Types.{WorkItemRecord}
use gooseherd.WorkItems.Table.{WorkItemTable}
use gooseherd.WorkItems.Store.{get_work_item}
use gooseherd.WorkItems.Discovery.Authorization.{Identity, WorkItemActor}
use gooseherd.WorkItems.Discovery.Calls.{ServiceDb}
use gooseherd.WorkItems.Discovery.Override.{
  ItemRun, is_actively_processing_status, stop_runs, StopReport, stop_processing, empty_report,
}

abbrev pub is_active : ItemRun → Bool
is_active r = is_actively_processing_status r.status

-- The world after `cancelRun` of each of some runs, in their order.
unfoldable pub cancel_all :
    {World : Type 0} → (String → World → Bool × World) → List ItemRun → World → World
cancel_all cancel_run [] w = w
cancel_all cancel_run (run ∷ runs) w = cancel_all cancel_run runs (cancel_run run.id w).1

stop_runs-idle :
    {World : Type 0} (cancel_run : String → World → Bool × World) (runs : List ItemRun)
    (report : StopReport) (w : World)
    → (stop_runs cancel_run runs report w).0.already_idle_run_ids
      ≡ report.already_idle_run_ids ++ map (λ r. r.id) (keep (λ r. not (is_active r)) runs)
unfolding stop_runs
stop_runs-idle cancel_run [] report w = sym (append-nil report.already_idle_run_ids)
stop_runs-idle cancel_run (run ∷ runs) report w = ground (
  arith,
  append_assoc report.already_idle_run_ids (run.id ∷ [])
      (map (λ r. r.id) (keep (λ r. not (is_active r)) runs)),
  stop_runs-idle cancel_run runs
      (record report { already_idle_run_ids = report.already_idle_run_ids ++ run.id ∷ [] }) w,
  stop_runs-idle cancel_run runs
      (record report { stopped_run_ids = report.stopped_run_ids ++ run.id ∷ [] })
      (cancel_run run.id w).1,
  stop_runs-idle cancel_run runs
      (record report { failed_run_ids = report.failed_run_ids ++ run.id ∷ [] })
      (cancel_run run.id w).1,
)

stop_runs-world :
    {World : Type 0} (cancel_run : String → World → Bool × World) (runs : List ItemRun)
    (report : StopReport) (w : World)
    → (stop_runs cancel_run runs report w).1 ≡ cancel_all cancel_run (keep is_active runs) w
unfolding stop_runs cancel_all
stop_runs-world cancel_run [] report w = refl
stop_runs-world cancel_run (run ∷ runs) report w = ground (
  arith,
  stop_runs-world cancel_run runs
      (record report { already_idle_run_ids = report.already_idle_run_ids ++ run.id ∷ [] }) w,
  stop_runs-world cancel_run runs
      (record report { stopped_run_ids = report.stopped_run_ids ++ run.id ∷ [] })
      (cancel_run run.id w).1,
  stop_runs-world cancel_run runs
      (record report { failed_run_ids = report.failed_run_ids ++ run.id ∷ [] })
      (cancel_run run.id w).1,
)

stop_runs-active :
    {World : Type 0} (cancel_run : String → World → Bool × World) (runs : List ItemRun)
    (report : StopReport) (w : World) (id : String)
    → let r = (stop_runs cancel_run runs report w).0 in
      includes id r.stopped_run_ids || includes id r.failed_run_ids
      ≡ includes id report.stopped_run_ids
        || (includes id report.failed_run_ids
            || includes id (map (λ r. r.id) (keep is_active runs)))
unfolding stop_runs includes
stop_runs-active cancel_run [] report w id = ground arith
stop_runs-active cancel_run (run ∷ runs) report w id = ground (
  arith,
  includes-append id report.stopped_run_ids (run.id ∷ []),
  includes-append id report.failed_run_ids (run.id ∷ []),
  stop_runs-active cancel_run runs
      (record report { already_idle_run_ids = report.already_idle_run_ids ++ run.id ∷ [] }) w id,
  stop_runs-active cancel_run runs
      (record report { stopped_run_ids = report.stopped_run_ids ++ run.id ∷ [] })
      (cancel_run run.id w).1 id,
  stop_runs-active cancel_run runs
      (record report { failed_run_ids = report.failed_run_ids ++ run.id ∷ [] })
      (cancel_run run.id w).1 id,
)

module _ (table : WorkItemTable) (identity : Identity) where
  open table use {Db}

  -- Where stopProcessing returns, the idle runs are exactly those of the work item without an
  -- active status, an identifier is reported stopped or failed exactly when it is that of an
  -- active run, and cancelRun was called once for each active run, in their order.
  pub stop_processing-covers :
      {World : Type 0} (id : String) (actor : WorkItemActor) (runs_of : String → List ItemRun)
      (cancel_run : String → World → Bool × World) (w : World) (db : ServiceDb Db)
      (item : WorkItemRecord) (report : StopReport) (after : World) (run_id : String)
      → (stop_processing table identity id actor runs_of cancel_run w db).0
        ≡ ok (item, report, after)
      → (report.already_idle_run_ids
          ≡ map (λ r. r.id) (keep (λ r. not (is_active r)) (runs_of item.id)))
        × (includes run_id report.stopped_run_ids || includes run_id report.failed_run_ids
            ≡ includes run_id (map (λ r. r.id) (keep is_active (runs_of item.id))))
        × (after ≡ cancel_all cancel_run (keep is_active (runs_of item.id)) w)
  unfolding stop_processing includes
  stop_processing-covers id actor runs_of cancel_run w db item report after run_id stopped =
      elim (Option-cases (get_work_item table id db.items)) [
        | inl missing ↦ absurd (ground (arith, missing))
        | inr (found, stored) ↦ ground (
          arith,
          stored,
          stop_runs-idle cancel_run (runs_of found.id) empty_report w,
          stop_runs-world cancel_run (runs_of found.id) empty_report w,
          stop_runs-active cancel_run (runs_of found.id) empty_report w run_id,
        )
      ]
