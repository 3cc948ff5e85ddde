-- ===== src/Tests/Deliveries.antt =====
-- The confirmation of a discovery, an override of its state, and a stop of its runs.
use gooseherd.Prelude.{
  String, ◌≡◌, refl, ◌⊎◌, inl, inr, Bool, true, false, ◌&&◌, ◌||◌, not, none, some, List, [], ◌∷◌,
  map, Bool-cases, ◌==◌, String-Eq, Nat-Eq, keep, is_empty, includes, add, delete, add_all,
  delete_all, distinct, ok, err,
}
use gooseherd.WorkItems.Types.{
  WorkItemRecord, WorkItemState-Eq, WorkItemWorkflow-Eq, waiting_for_pm_confirmation, cancelled,
  done,
}
use gooseherd.WorkItems.Table.{list_table, find_row, set_row, insert_row}
use gooseherd.WorkItems.Workflow.{
  assert_state_transition_allowed, allowed_state_transitions, assert_can_confirm_discovery,
  assert_state_matches_workflow, workflow_states,
}
use gooseherd.WorkItems.Store.{get_work_item, update_state, update_current, updated_row, next_flags}
use gooseherd.WorkItems.Discovery.Authorization.{
  user_actor, require_user_actor, assert_can_apply_manual_transition, admin_session,
}
use gooseherd.WorkItems.Discovery.Calls.{ServiceDb, append_failed}
use gooseherd.WorkItems.Discovery.Deliveries.{
  DeliveryQuery, is_delivery_of, confirm_discovery, admit_confirmation, reject_discovery,
}
use gooseherd.WorkItems.Discovery.Requests.{next_discovery_state_after_pm_confirmation}
use gooseherd.WorkItems.Discovery.Delivered.{Delivered}
use gooseherd.WorkItems.Discovery.Confirmed.{confirm_discovery-keeps, IsUnrecorded}
use gooseherd.WorkItems.Discovery.Override.{
  ItemRun, StopReport, stop_processing, stop_runs, is_actively_processing_status,
  guarded_override_state, apply_override, admit_override, check_override_actor,
  handle_ready_for_merge,
}
use gooseherd.WorkItems.Discovery.Override.Laws.{may_override, guarded_override_state-allowed}
use gooseherd.WorkItems.Discovery.Override.Stops.{is_active, cancel_all, stop_processing-covers}
use gooseherd.Tests.Discovery.{identity, discovery, reviewed}

-- The deliveries of a discovery among rows in a list.
deliveries_of-insert_row :
    (s : String) (r : WorkItemRecord) (rows : List WorkItemRecord)
    → find_row r.id rows ≡ none
    → is_empty (keep (is_delivery_of s) (insert_row r rows))
      ≡ not (is_delivery_of s r) && is_empty (keep (is_delivery_of s) rows)
unfolding insert_row
deliveries_of-insert_row s r rows fresh = elim (Bool-cases (is_delivery_of s r)) [
  | inl h ↦ rw h refl
  | inr h ↦ rw h refl
]

deliveries_of-set_row :
    (s i : String) (f : WorkItemRecord → WorkItemRecord) (rows : List WorkItemRecord)
    → ((r : WorkItemRecord) → is_delivery_of s (f r) ≡ is_delivery_of s r)
    → is_empty (keep (is_delivery_of s) (set_row i f rows))
      ≡ is_empty (keep (is_delivery_of s) rows)
unfolding set_row
deliveries_of-set_row s i f [] keeps = refl
deliveries_of-set_row s i f (r ∷ rows) keeps = elim (Bool-cases (is_delivery_of s r)) [
  | inl h ↦ elim (Bool-cases (r.id == i)) [
    | inl g ↦ rw (g, keeps r, h) refl
    | inr g ↦ rw (g, h) refl
  ]
  | inr h ↦ elim (Bool-cases (r.id == i)) [
    | inl g ↦ rw (g, keeps r, h) (deliveries_of-set_row s i f rows keeps)
    | inr g ↦ rw (g, h) (deliveries_of-set_row s i f rows keeps)
  ]
]

abbrev list_query : DeliveryQuery list_table
list_query = record {
  deliveries_of = λ s rows. keep (is_delivery_of s) rows;
  deliveries_of-insert = deliveries_of-insert_row;
  deliveries_of-set = deliveries_of-set_row;
}

abbrev accepted : ServiceDb (List WorkItemRecord)
accepted = record {
  items = record discovery { state = waiting_for_pm_confirmation } ∷ [];
  requests = [];
  events = [];
  accepts = λ events. true;
}

abbrev completed : WorkItemRecord
completed = record discovery {
  state = done;
  substate = none;
  jira_issue_key = some "GH-1";
  flags = "pm_approved" ∷ "jira_created" ∷ "delivery_work_item_created" ∷ [];
  updated_at = 12;
  completed_at = some 12;
}

-- A rejection whose event cannot be appended.
abbrev closed : ServiceDb (List WorkItemRecord)
closed = record accepted { accepts = λ events. false }

unrecorded :
    (confirm_discovery list_table list_query identity "w1" "d1" false
      (user_actor "pm")
      none
      12
      closed).0
    ≡ err append_failed
unfolding confirm_discovery reject_discovery next_discovery_state_after_pm_confirmation
    admit_confirmation assert_can_apply_manual_transition assert_can_confirm_discovery
    require_user_actor get_work_item update_state update_current updated_row next_flags find_row
    set_row assert_state_transition_allowed allowed_state_transitions assert_state_matches_workflow
    workflow_states includes add_all delete_all distinct add delete
unrecorded = refl

confirm_discovery-keeps_example :
    let after =
      (confirm_discovery list_table list_query identity "w1" "d1" false
        (user_actor "pm")
        none
        12
        closed).1 in
    (after ≡ closed)
    ⊎ ((false ≡ false)
        × IsUnrecorded list_table list_query identity "d1" 12 closed append_failed after)
confirm_discovery-keeps_example =
    confirm_discovery-keeps list_table list_query identity "w1" "d1" false (user_actor "pm") none 12
      closed append_failed unrecorded

abbrev overridden : WorkItemRecord
overridden = record discovery {
  state = cancelled;
  substate = none;
  updated_at = 20;
  completed_at = some 20;
}

by_hand :
    (guarded_override_state list_table identity "d1" cancelled none
      (admin_session "s1")
      (λ item. false)
      none
      20
      reviewed).0
    ≡ ok overridden
unfolding guarded_override_state apply_override admit_override check_override_actor
    handle_ready_for_merge get_work_item update_state update_current updated_row next_flags find_row
    set_row assert_state_transition_allowed allowed_state_transitions includes add_all delete_all
    distinct add delete
by_hand = refl

guarded_override_state-allowed_example :
    (item : WorkItemRecord) × (get_work_item list_table "d1" reviewed.items ≡ some item)
    × (false ≡ false)
    × (may_override identity (admin_session "s1") ≡ true)
    × (assert_state_transition_allowed item.workflow item.state cancelled ≡ none)
    × (overridden.state ≡ cancelled)
guarded_override_state-allowed_example =
    guarded_override_state-allowed list_table identity "d1" cancelled none (admin_session "s1")
      (λ item. false) none 20 reviewed overridden by_hand

-- The second event cannot be appended.
abbrev half_open : ServiceDb (List WorkItemRecord)
half_open = record reviewed {
  accepts = λ events. elim events [ [] ↦ true | e ∷ rest ↦ is_empty rest ];
}

abbrev runs : List ItemRun
runs =
    record { id = "r1"; status = "running" }
    ∷ record { id = "r2"; status = "completed" }
    ∷ record { id = "r3"; status = "awaiting_ci" }
    ∷ []

-- A canceller that refuses one run, and logs each call.
abbrev cancel_logged : String → List String → Bool × List String
cancel_logged run_id log = (not (run_id == "r3"), run_id ∷ log)

abbrev report : StopReport
report = record {
  stopped_run_ids = "r1" ∷ [];
  already_idle_run_ids = "r2" ∷ [];
  failed_run_ids = "r3" ∷ [];
}

stopped :
    (stop_processing list_table identity "d1"
      (user_actor "pm")
      (λ id. runs)
      cancel_logged
      []
      reviewed).0
    ≡ ok (discovery, report, "r3" ∷ "r1" ∷ [])
unfolding stop_processing stop_runs is_actively_processing_status assert_can_apply_manual_transition
    require_user_actor get_work_item find_row includes
stopped = refl

stop_processing-covers_example :
    (report.already_idle_run_ids ≡ map (λ r. r.id) (keep (λ r. not (is_active r)) runs))
    × (includes "r3" report.stopped_run_ids || includes "r3" report.failed_run_ids
        ≡ includes "r3" (map (λ r. r.id) (keep is_active runs)))
    × ("r3" ∷ "r1" ∷ [] ≡ cancel_all cancel_logged (keep is_active runs) [])
stop_processing-covers_example =
    stop_processing-covers list_table identity "d1" (user_actor "pm") (λ id. runs) cancel_logged []
      reviewed discovery report ("r3" ∷ "r1" ∷ []) "r3" stopped
