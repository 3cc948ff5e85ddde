-- ===== src/WorkItems/Discovery/Override/Laws.antt =====
-- What an override by hand needs, and what a refused one leaves.
use gooseherd.Prelude.{
  ℕ, String, ◌≡◌, sym, ap, subst, ◌∙◌, inl, inr, Bool, true, false, ◌&&◌, Option, none, some, List,
  [], ◌∷◌, ◌++◌, arith, Bool-cases, Option-cases, String-Eq, Nat-Eq, ok, Result-cases, bind-ok,
  bind-err,
}
use gooseherd.WorkItems.Types.{WorkItemRecord, WorkItemState, UpdateWorkItemStateInput}
use gooseherd.WorkItems.Workflow.{assert_state_transition_allowed}
use gooseherd.WorkItems.Table.{WorkItemTable}
use gooseherd.WorkItems.Store.{get_work_item, update_state}
use gooseherd.WorkItems.Store.Updates.{update_state-ok}
use gooseherd.WorkItems.Discovery.Authorization.{
  Identity, WorkItemActor, user_actor, admin_session, assert_can_override_work_item,
}
use gooseherd.WorkItems.Discovery.Calls.{ServiceCall, ServiceDb, WorkItemEvent}
use gooseherd.WorkItems.Discovery.Override.{
  check_override_actor, admit_override, guarded_override_state, apply_override, actor_user_id,
}

-- Whether an actor may override: an admin session, or an active administrator.
abbrev pub may_override : Identity → WorkItemActor → Bool
may_override identity (admin_session s) = true
may_override identity (user_actor u) = identity.is_active_user u && identity.user_is_admin u

module _ (table : WorkItemTable) (identity : Identity) where
  open table use {Db}

  admit_override-ok :
      (id : String) (actor : WorkItemActor) (is_processing : WorkItemRecord → Bool)
      (db : ServiceDb Db) (item : WorkItemRecord)
      → (admit_override table identity id actor is_processing db).0 ≡ ok item
      → (get_work_item table id db.items ≡ some item)
        × (is_processing item ≡ false)
        × (may_override identity actor ≡ true)
  unfolding admit_override check_override_actor assert_can_override_work_item
  admit_override-ok id actor is_processing db item admitted =
      elim (Option-cases (get_work_item table id db.items)) [
        | inl missing ↦ absurd (ground (arith, missing))
        | inr (found, stored) ↦
            elim actor
                as (λ a.
                  (admit_override table identity id a is_processing db).0 ≡ ok item
                  → (get_work_item table id db.items ≡ some item)
                    × (is_processing item ≡ false)
                    × (may_override identity a ≡ true)) [
                      | admin_session t ↦ λ h. ground (arith, stored)
                      | user_actor u ↦ λ h. ground (arith, stored)
                    ]
              admitted
      ]

  admit_override-keeps :
      (id : String) (actor : WorkItemActor) (is_processing : WorkItemRecord → Bool)
      (db : ServiceDb Db)
      → (admit_override table identity id actor is_processing db).1 ≡ db
  unfolding admit_override check_override_actor
  admit_override-keeps id actor is_processing db = ground arith

  -- What an override asks of the store.
  abbrev pub override_input : WorkItemState → Option String → UpdateWorkItemStateInput
  override_input state substate = record {
    state = state;
    substate = substate;
    flags_to_add = none;
    flags_to_remove = none;
  }

  module _ (item : WorkItemRecord) (state : WorkItemState) (substate : Option String)
      (actor : WorkItemActor) (handler : Option (WorkItemRecord → ServiceCall Db (Unit {0})))
      (now : ℕ) (db : ServiceDb Db) where
    abbrev asked_events : List WorkItemEvent
    asked_events =
        db.events
        ++ record {
          work_item_id = item.id;
          event_type = "override.requested";
          actor_user_id = actor_user_id actor;
        }
          ∷ []

    apply_override-allowed :
        (updated : WorkItemRecord)
        → (apply_override table identity item state substate actor handler now db).0 ≡ ok updated
        → (assert_state_transition_allowed item.workflow item.state state ≡ none)
          × (updated.state ≡ state)
    unfolding apply_override
    apply_override-allowed updated finished = elim (Bool-cases (db.accepts asked_events)) [
      | inr unwritten ↦ absurd (ground (arith, unwritten))
      | inl written ↦
          elim (Option-cases (assert_state_transition_allowed item.workflow item.state state)) [
            | inr (e, forbidden) ↦ absurd (ground (arith, written, forbidden))
            | inl allowed ↦
                elim (Result-cases
                  (update_state table item.id (override_input state substate) now db.items).0) [
                    | inr (e, refused) ↦ absurd (ground (arith, written, allowed, refused))
                    | inl (u, moved) ↦
                        let (is_state, kept) =
                          update_state-ok table item.id (override_input state substate) now db.items
                            u moved in
                        (allowed, ground (arith, written, allowed, moved, is_state))
                  ]
          ]
    ]

  module _ (id : String) (state : WorkItemState) (substate : Option String) (actor : WorkItemActor)
      (is_processing : WorkItemRecord → Bool)
      (handler : Option (WorkItemRecord → ServiceCall Db (Unit {0}))) (now : ℕ)
      (db : ServiceDb Db) where
    -- guardedOverrideState returns only for a stored work item that is not being processed, by an
    -- admin session or an active administrator, and along an allowed transition; the work item is
    -- then in the requested state.
    pub guarded_override_state-allowed :
        (updated : WorkItemRecord)
        → (guarded_override_state table identity id state substate actor is_processing handler now
            db).0
          ≡ ok updated
        → (item : WorkItemRecord) × (get_work_item table id db.items ≡ some item)
          × (is_processing item ≡ false)
          × (may_override identity actor ≡ true)
          × (assert_state_transition_allowed item.workflow item.state state ≡ none)
          × (updated.state ≡ state)
    unfolding guarded_override_state
    guarded_override_state-allowed updated finished =
        let admits = admit_override table identity id actor is_processing in
        let applies = λ (found : WorkItemRecord).
          apply_override table identity found state substate actor handler now in
        elim (Result-cases (admits db).0) [
          | inr (e, refused) ↦ absurd (
              ground (arith, sym (ap (λ r. r.0) (bind-err admits applies db e refused)) ∙ finished))
          | inl (item, admitted) ↦
              let (stored, idle, may) = admit_override-ok id actor is_processing db item admitted in
              let applied = sym (bind-ok admits applies db item admitted) in
              let (allowed, is_state) =
                apply_override-allowed item state substate actor handler now db updated (
                  subst (λ d. (applies item d).0 ≡ ok updated)
                    (admit_override-keeps id actor is_processing db)
                    (ap (λ r. r.0) applied ∙ finished)) in
              (item, stored, idle, may, allowed, is_state)
        ]
