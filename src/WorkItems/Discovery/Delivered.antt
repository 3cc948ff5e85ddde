-- ===== src/WorkItems/Discovery/Delivered.antt =====
-- The transaction of `confirmDiscovery` of src/work-items/service.ts: the delivery that it leaves.
use gooseherd.Prelude.{
  ℕ, String, ◌≡◌, refl, subst, ◌≢◌, inl, inr, true, false, Option, none, some, arith, Option-cases,
  ◌==◌, String-Eq, Nat-Eq, ==_refl, is_empty, ok, Result-cases,
}
use gooseherd.WorkItems.Store.Updates.{update_state-ok}
use gooseherd.WorkItems.Types.{done, WorkItemRecord, CreateWorkItemInput}
use gooseherd.WorkItems.Table.{WorkItemTable}
use gooseherd.WorkItems.Store.{
  update_state, set_jira_issue_key, get_work_item, new_row, updated_row, create_work_item,
}
use gooseherd.WorkItems.Store.Effects.{
  update_state-written, update_state-others, set_jira_issue_key-written, create_work_item-written,
}
use gooseherd.WorkItems.Discovery.Authorization.{Identity}
use gooseherd.WorkItems.Discovery.Calls.{ServiceDb}
use gooseherd.WorkItems.Discovery.Deliveries.{
  DeliveryQuery, approved_update, jira_key, delivery_input, admit_completion, remember_key, deliver,
  non_empty, is_delivery_of, complete_discovery,
}

module _ (table : WorkItemTable) (query : DeliveryQuery table) (identity : Identity) where
  open table use {Db, find}

  update_state-deliveries :
      (s id : String) (now : ℕ) (db : Db) (u : WorkItemRecord)
      → (update_state table id approved_update now db).0 ≡ ok u
      → is_empty (query.deliveries_of s (update_state table id approved_update now db).1)
        ≡ is_empty (query.deliveries_of s db)
  update_state-deliveries s id now db u moved =
      let (current, written) = update_state-written table id approved_update now db u moved in
      rw written (
        query.deliveries_of-set s id (updated_row current approved_update now) db
          (λ r. unfold updated_row in refl))

  set_jira_issue_key-deliveries :
      (s id key : String) (now : ℕ) (db : Db) (u : WorkItemRecord)
      → (set_jira_issue_key table id key now db).0 ≡ ok u
      → is_empty (query.deliveries_of s (set_jira_issue_key table id key now db).1)
        ≡ is_empty (query.deliveries_of s db)
  set_jira_issue_key-deliveries s id key now db u moved =
      rw (set_jira_issue_key-written table id key now db u moved)
        (query.deliveries_of-set s id _ db (λ r. refl))

  -- What a completed discovery leaves.
  abbrev pub Delivered :
      String
      → String
      → ℕ
      → Option String
      → String
      → ServiceDb Db
      → Db
      → WorkItemRecord
      → String
      → WorkItemRecord
      → Type 0
  Delivered new_id id now key user_id db after current k updated =
      (get_work_item table id db.items ≡ some current)
      × (is_empty (query.deliveries_of current.id db.items) ≡ true)
      × (jira_key key current ≡ some k)
      × ((k == "") ≡ false)
      × (get_work_item table new_id after
          ≡ some (new_row new_id (delivery_input current k user_id) now))
      × (is_empty (query.deliveries_of current.id after) ≡ false)
      × (updated.state ≡ done)
      × (get_work_item table id after ≡ some updated)

  jira_key-filled :
      (key : Option String) (current : WorkItemRecord) (k : String)
      → jira_key key current ≡ some k
      → (k == "") ≡ false
  unfolding jira_key
  jira_key-filled key current k keyed = ground arith

  admit_completion-ok :
      (id : String) (key : Option String) (db : ServiceDb Db) (current : WorkItemRecord)
      (k : String)
      → (admit_completion table query identity id key db).0 ≡ ok (current, k)
      → (get_work_item table id db.items ≡ some current)
        × (jira_key key current ≡ some k)
        × (is_empty (query.deliveries_of current.id db.items) ≡ true)
        × ((admit_completion table query identity id key db).1 ≡ db)
  unfolding admit_completion
  admit_completion-ok id key db current k admitted =
      elim (Option-cases (get_work_item table id db.items)) [
        | inl missing ↦ absurd (ground (arith, missing))
        | inr (item, stored) ↦ ground (arith, stored)
      ]

  remember_key-ok :
      (new_id s : String) (current : WorkItemRecord) (k : String) (now : ℕ) (db : ServiceDb Db)
      (u : Unit {0})
      → find new_id db.items ≡ none
      → (remember_key table query identity current k now db).0 ≡ ok u
      → (find new_id (remember_key table query identity current k now db).1.items ≡ none)
        × (is_empty
              (query.deliveries_of s (remember_key table query identity current k now db).1.items)
            ≡ is_empty (query.deliveries_of s db.items))
  unfolding remember_key
  remember_key-ok new_id s current k now db u fresh remembered =
      elim (Option-cases (non_empty current.jira_issue_key)) [
        | inr (known, keyed) ↦ ground (arith, keyed)
        | inl unkeyed ↦ elim (Result-cases (set_jira_issue_key table current.id k now db.items).0) [
          | inr (e, refused) ↦ absurd (ground (arith, unkeyed, refused))
          | inl (item, wrote) ↦ ground (
            arith,
            unkeyed,
            wrote,
            set_jira_issue_key-written table current.id k now db.items item wrote,
            set_jira_issue_key-deliveries s current.id k now db.items item wrote,
            table.find-set current.id new_id
                (λ row. record row { jira_issue_key = some k; updated_at = now }) db.items
                (λ r. refl),
          )
        ]
      ]

  new_row-id :
      (new_id : String) (input : CreateWorkItemInput) (now : ℕ)
      → (new_row new_id input now).id ≡ new_id
  unfolding new_row
  new_row-id new_id input now = refl

  new_delivery :
      (new_id user_id k : String) (now : ℕ) (current : WorkItemRecord)
      → is_delivery_of current.id (new_row new_id (delivery_input current k user_id) now) ≡ true
  unfolding new_row delivery_input
  new_delivery new_id user_id k now current = rw (==_refl current.id) refl

  module _ (new_id id user_id k : String) (now : ℕ) (current : WorkItemRecord) (db : ServiceDb Db)
      (updated : WorkItemRecord) where
    deliver-ok :
        find new_id db.items ≡ none
        → new_id ≢ id
        → (deliver table query identity new_id id current k user_id now db).0 ≡ ok updated
        → let after = (deliver table query identity new_id id current k user_id now db).1.items in
          (is_empty (query.deliveries_of current.id after) ≡ false)
          × (get_work_item table new_id after
              ≡ some (new_row new_id (delivery_input current k user_id) now))
          × (updated.state ≡ done)
          × (get_work_item table id after ≡ some updated)
    unfolding deliver
    deliver-ok fresh other finished =
        elim (Result-cases
          (create_work_item table new_id (delivery_input current k user_id) now db.items).0) [
            | inr (e, refused) ↦ absurd (ground (arith, refused))
            | inl (d, created) ↦
                let (inserted, same, stored) =
                  create_work_item-written table new_id (delivery_input current k user_id) now
                    db.items d fresh created in
                let mid =
                  (create_work_item table new_id (delivery_input current k user_id) now
                    db.items).1 in
                elim (Result-cases (update_state table id approved_update now mid).0) [
                  | inr (e, refused) ↦ absurd (ground (arith, created, refused))
                  | inl (u, moved) ↦
                      let (is_done, kept) =
                        update_state-ok table id approved_update now mid u moved in
                      ground (
                        arith,
                        created,
                        moved,
                        is_done,
                        kept,
                        stored,
                        inserted,
                        update_state-others table id new_id approved_update now mid u other moved,
                        update_state-deliveries current.id id now mid u moved,
                        query.deliveries_of-insert current.id
                            (new_row new_id (delivery_input current k user_id) now) db.items,
                        new_delivery new_id user_id k now current,
                        new_row-id new_id (delivery_input current k user_id) now,
                      )
                ]
          ]

  module _ (new_id id user_id : String) (key : Option String) (now : ℕ) (db : ServiceDb Db)
      (updated : WorkItemRecord) (fresh : find new_id db.items ≡ none) where
    fresh_ne :
        (current : WorkItemRecord) → get_work_item table id db.items ≡ some current → new_id ≢ id
    unfolding get_work_item
    fresh_ne current stored same = absurd (ground (arith, fresh, stored, same))

    pub complete_discovery-delivers :
        (complete_discovery table query identity new_id id user_id key now db).0 ≡ ok updated
        → (current : WorkItemRecord) × (k : String) × Delivered new_id id now key user_id db
            (complete_discovery table query identity new_id id user_id key now db).1.items
            current
            k
            updated
    unfolding complete_discovery
    complete_discovery-delivers finished =
        elim (Result-cases (admit_completion table query identity id key db).0) [
          | inr (e, refused) ↦ absurd (ground (arith, refused))
          | inl ((current, k), admitted) ↦
              let (stored, keyed, none_yet, same) =
                admit_completion-ok id key db current k admitted in
              elim (Result-cases (remember_key table query identity current k now db).0) [
                | inr (e, refused) ↦ absurd (ground (arith, admitted, same, refused))
                | inl (u, remembered) ↦
                    let mid = (remember_key table query identity current k now db).1 in
                    let (still_fresh, unchanged) =
                      remember_key-ok new_id current.id current k now db u fresh remembered in
                    let run : complete_discovery table query identity new_id id user_id key now db
                        ≡ deliver table query identity new_id id current k user_id now mid =
                      ground (arith, admitted, same, remembered) in
                    let (some_now, delivery, is_done, kept) =
                      deliver-ok new_id id user_id k now current mid updated still_fresh
                        (fresh_ne current stored) (subst (λ r. r.0 ≡ ok updated) run finished) in
                    (
                      current,
                      k,
                      (
                        stored,
                        none_yet,
                        keyed,
                        jira_key-filled key current k keyed,
                        rw run delivery,
                        rw run some_now,
                        is_done,
                        rw run kept,
                      ),
                    )
              ]
        ]
