-- ===== src/WorkItems/Discovery/Calls.antt =====
-- What the methods of src/work-items/service.ts share: the database of the service, its errors, and
-- the calls of the stores. A method that throws leaves what it has written before, unless it runs in
-- a transaction. The payload of an event, which nothing reads, is left out.
use gooseherd.Prelude.{
  String, Bool, true, false, Option, none, some, List, [], ◌∷◌, ◌++◌, String-Eq, Nat-Eq, Result, ok,
  err, Call, given,
}
use gooseherd.WorkItems.Types.{WorkItemRecord, WorkItemWorkflow, WorkItemState}
use gooseherd.WorkItems.Workflow.{PolicyError}
use gooseherd.WorkItems.Table.{WorkItemTable}
use gooseherd.WorkItems.Store.{StoreError, get_work_item}
use gooseherd.WorkItems.Discovery.Requests.{ReviewRequestRecord, RoundError}
use gooseherd.WorkItems.Discovery.Authorization.{AuthorizationError}

pub data ServiceError : Type 0 where
  not_a_user : ServiceError
  work_item_not_found : String → ServiceError
  review_request_not_found : String → ServiceError
  jira_key_required : ServiceError
  delivery_exists : String → ServiceError
  not_discovery_source : WorkItemWorkflow → ServiceError
  discovery_not_done : WorkItemState → ServiceError
  processing_active : ServiceError
  of_authorization : AuthorizationError → ServiceError
  of_policy : PolicyError → ServiceError
  of_store : StoreError → ServiceError
  of_round : RoundError → ServiceError
  append_failed : ServiceError

pub record WorkItemEvent : Type 0 where
  pub work_item_id : String
  pub event_type : String
  pub actor_user_id : Option String

pub record ServiceDb (Items : Type 0) : Type 0 where
  pub items : Items
  pub requests : List ReviewRequestRecord
  pub events : List WorkItemEvent
  -- Whether the insert of an event succeeds, of the events with it at the end.
  pub accepts : List WorkItemEvent → Bool

abbrev pub ServiceCall : Type 0 → Type 0 → Type 0
ServiceCall Items A = Call ServiceError (ServiceDb Items) A

module _ {Items : Type 0} where
  -- A method of the work item store.
  abbrev pub on_items : {A : Type 0} → (Items → Result StoreError A × Items) → ServiceCall Items A
  on_items method db =
      let ran = method db.items in
      let db' : ServiceDb Items = record db { items = ran.1 } in
      elim ran.0 [ ok a ↦ (ok a, db') | err e ↦ (err (of_store e), db') ]

  -- A method of the review request store, which may miss its row.
  abbrev pub on_requests :
      String
      → (List ReviewRequestRecord → Option ReviewRequestRecord × List ReviewRequestRecord)
      → ServiceCall Items ReviewRequestRecord
  on_requests id method db =
      let ran = method db.requests in
      let db' : ServiceDb Items = record db { requests = ran.1 } in
      elim ran.0 [ some r ↦ (ok r, db') | none ↦ (err (review_request_not_found id), db') ]

  abbrev pub from_round : {A : Type 0} → Result RoundError A → ServiceCall Items A
  from_round r db = elim r [ ok a ↦ (ok a, db) | err e ↦ (err (of_round e), db) ]

  -- `events.append`: an insert that fails throws.
  abbrev pub append_event : String → String → Option String → ServiceCall Items (Unit {0})
  append_event work_item_id event_type actor_user_id db =
      let events =
        db.events
        ++ record {
          work_item_id = work_item_id;
          event_type = event_type;
          actor_user_id = actor_user_id;
        }
          ∷ [] in
      elim (db.accepts events) [
        | true ↦ (ok tt, record db { events = events })
        | false ↦ (err append_failed, db)
      ]

  -- `db.transaction`: a throw restores the database.
  abbrev pub transaction : {A : Type 0} → ServiceCall Items A → ServiceCall Items A
  transaction body db =
      let ran = body db in elim ran.0 [ ok a ↦ (ok a, ran.1) | err e ↦ (err e, db) ]

module _ (table : WorkItemTable) where
  open table use {Db}

  abbrev pub require_item : String → ServiceCall Db WorkItemRecord
  require_item id db = given (get_work_item table id db.items) (work_item_not_found id) db
