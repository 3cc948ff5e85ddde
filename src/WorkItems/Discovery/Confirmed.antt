-- ===== src/WorkItems/Discovery/Confirmed.antt =====
-- What `confirmDiscovery` of src/work-items/service.ts leaves in the database.
use gooseherd.Prelude.{
  ℕ, String, ◌≡◌, sym, ap, ◌∙◌, ◌⊎◌, inl, inr, Bool, false, Option, arith, Bool-cases, String-Eq,
  Nat-Eq, ok, err, Result-cases,
}
use gooseherd.WorkItems.Types.{WorkItemRecord}
use gooseherd.WorkItems.Table.{WorkItemTable}
use gooseherd.WorkItems.Store.{update_state}
use gooseherd.WorkItems.Store.Effects.{update_state-err}
use gooseherd.WorkItems.Discovery.Authorization.{Identity, WorkItemActor}
use gooseherd.WorkItems.Discovery.Calls.{ServiceDb, ServiceError, append_failed}
use gooseherd.WorkItems.Discovery.Deliveries.{
  DeliveryQuery, reject_discovery, rejected_update, admit_confirmation, confirm_discovery,
}
use gooseherd.WorkItems.Discovery.Delivered.{Delivered}

module _ (table : WorkItemTable) (query : DeliveryQuery table) (identity : Identity) where
  open table use {Db, find}

  admit_confirmation-keeps :
      (id : String) (actor : WorkItemActor) (db : ServiceDb Db)
      → (admit_confirmation table query identity id actor db).1 ≡ db
  unfolding admit_confirmation
  admit_confirmation-keeps id actor db = ground arith

  -- A rejection whose update succeeded and whose event could not be appended.
  abbrev pub IsUnrecorded : String → ℕ → ServiceDb Db → ServiceError → ServiceDb Db → Type 0
  IsUnrecorded id now db e after =
      (e ≡ append_failed)
      × (updated : WorkItemRecord) × ((update_state table id rejected_update now db.items).0
          ≡ ok updated)
      × (after ≡ record db { items = (update_state table id rejected_update now db.items).1 })

  reject_discovery-keeps :
      (id user_id : String) (now : ℕ) (db : ServiceDb Db) (e : ServiceError)
      → (reject_discovery table query identity id user_id now db).0 ≡ err e
      → let after = (reject_discovery table query identity id user_id now db).1 in
        (after ≡ db) ⊎ IsUnrecorded id now db e after
  unfolding reject_discovery
  reject_discovery-keeps id user_id now db e failed =
      elim (Result-cases (update_state table id rejected_update now db.items).0) [
        | inl (u, moved) ↦ inr (ground (arith, moved), u, moved, ground (arith, moved))
        | inr (f, refused) ↦ inl (
            ground
              (arith, refused, update_state-err table id rejected_update now db.items f refused))
      ]

  -- A confirmDiscovery that throws, wherever it throws, leaves the database as it was, but for
  -- one case: of a rejection, which runs in no transaction, the update is kept when its event
  -- cannot be appended.
  pub confirm_discovery-keeps :
      (new_id id : String) (approved : Bool) (actor : WorkItemActor) (key : Option String) (now : ℕ)
      (db : ServiceDb Db) (e : ServiceError)
      → (confirm_discovery table query identity new_id id approved actor key now db).0 ≡ err e
      → let after =
          (confirm_discovery table query identity new_id id approved actor key now db).1 in
        (after ≡ db) ⊎ ((approved ≡ false) × IsUnrecorded id now db e after)
  unfolding confirm_discovery
  confirm_discovery-keeps new_id id approved actor key now db e failed =
      elim (Result-cases (admit_confirmation table query identity id actor db).0) [
        | inr (f, refused) ↦ inl (ground (arith, refused, admit_confirmation-keeps id actor db))
        | inl ((user_id, item), admitted) ↦ elim (Bool-cases approved) [
          | inl approves ↦
              inl (ground (arith, admitted, approves, admit_confirmation-keeps id actor db))
          | inr rejects ↦
              let run : confirm_discovery table query identity new_id id approved actor key now db
                  ≡ reject_discovery table query identity id user_id now db =
                ground (arith, admitted, rejects, admit_confirmation-keeps id actor db) in
              elim (reject_discovery-keeps id user_id now db e (ap (λ r. r.0) (sym run) ∙ failed)) [
                | inl same ↦ inl (ap (λ r. r.1) run ∙ same)
                | inr (append, u, moved, left) ↦
                    inr (rejects, (append, u, moved, ap (λ r. r.1) run ∙ left))
              ]
        ]
      ]
