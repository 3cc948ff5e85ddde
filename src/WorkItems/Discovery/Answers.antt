-- ===== src/WorkItems/Discovery/Answers.antt =====
-- What `recordReviewOutcome` of src/work-items/service.ts does with an answer, from end to end.
use gooseherd.Prelude.{
  ℕ, String, ◌≡◌, sym, subst, inl, inr, true, ◌&&◌, ◌||◌, none, some, List, [], ◌∷◌, arith,
  Option-cases, ◌==◌, String-Eq, Nat-Eq, ==_refl, any, ok, err, Result-cases,
}
use gooseherd.WorkItems.Store.{get_work_item}
use gooseherd.WorkItems.Types.{
  WorkItemRecord, waiting_for_review, in_progress, product_discovery, WorkItemState-Eq,
  WorkItemWorkflow-Eq,
}
use gooseherd.WorkItems.Table.{WorkItemTable}
use gooseherd.WorkItems.Workflow.{assert_can_resolve_discovery_review}
use gooseherd.WorkItems.Discovery.Requests.{
  ReviewRequestRecord, ReviewRequestOutcome, changes_requested, is_pending, asks_for_changes,
  list_for_round, set_request, completed_by, get_review_request, complete_review_request,
}
use gooseherd.WorkItems.Discovery.Authorization.{
  Identity, WorkItemActor, user_actor, is_target, require_user_actor,
  assert_can_respond_to_review_request,
}
use gooseherd.WorkItems.Discovery.Calls.{ServiceDb, ServiceError}
use gooseherd.WorkItems.Discovery.Service.{
  OutcomeComment, settle_round, admit_outcome, record_comment, record_review_outcome,
}
use gooseherd.WorkItems.Discovery.Rounds.{state_of_round, settle_round-settles}

module _ (table : WorkItemTable) (identity : Identity) where
  open table use {Db}

  get_work_item-id :
      (i : String) (r : WorkItemRecord) (db : Db) → get_work_item table i db ≡ some r → r.id ≡ i
  unfolding get_work_item
  get_work_item-id i r db stored = elim (Option-cases (table.find i db)) [
    | inl missing ↦ absurd (ground (arith, missing))
    | inr (row, found) ↦ ground (arith, found, table.find_key i row db)
  ]

  -- The database after the comment of an outcome: only the events differ.
  record_comment-keeps :
      (work_item_id user_id : String) (note : OutcomeComment) (db : ServiceDb Db)
      → let ran = record_comment table identity work_item_id user_id note db in
        (ran.1.requests ≡ db.requests) × (ran.1.items ≡ db.items)
  unfolding record_comment
  record_comment-keeps work_item_id user_id note db = ground arith

  admit_outcome-keeps :
      (id : String) (actor : WorkItemActor) (db : ServiceDb Db)
      → (admit_outcome table identity id actor db).1 ≡ db
  unfolding admit_outcome
  admit_outcome-keeps id actor db = ground arith

  -- What an answer by a user to a request of a work item needs.
  abbrev pub MayAnswer :
      String → WorkItemActor → ServiceDb Db → String → ReviewRequestRecord → WorkItemRecord → Type 0
  MayAnswer id actor db user_id r work_item =
      (actor ≡ user_actor user_id)
      × (get_review_request id db.requests ≡ some r)
      × (get_work_item table r.work_item_id db.items ≡ some work_item)
      × (work_item.workflow ≡ product_discovery)
      × (work_item.state ≡ waiting_for_review)
      × ((user_id == ""
            || (identity.is_active_user user_id
                && (identity.user_is_admin user_id || is_target identity user_id work_item r)))
          ≡ true)

  module _ (id : String) (actor : WorkItemActor) (outcome : ReviewRequestOutcome)
      (note : OutcomeComment) (now : ℕ) (db : ServiceDb Db) where
    -- Where recordReviewOutcome returns, the work item that it returns is stored and is in the
    -- state that the requests of the round of the answered request call for, the answer among
    -- them; requests of that round are left pending exactly when that state is
    -- waiting_for_review.
    pub record_review_outcome-settles :
        (updated : WorkItemRecord)
        → (record_review_outcome table identity id actor outcome note now db).0 ≡ ok updated
        → let after = (record_review_outcome table identity id actor outcome note now db).1 in
          let rows = set_request id (completed_by outcome now) db.requests in
          (r : ReviewRequestRecord) × (get_review_request id rows ≡ some r)
          × (updated.state ≡ state_of_round (list_for_round r.work_item_id r.review_round rows))
          × (any is_pending (list_for_round r.work_item_id r.review_round after.requests)
              ≡ (updated.state == waiting_for_review))
          × (get_work_item table updated.id after.items ≡ some updated)
    unfolding record_review_outcome complete_review_request
    record_review_outcome-settles updated done =
        let before = set_request id (completed_by outcome now) db.requests in
        elim (Result-cases (admit_outcome table identity id actor db).0) [
          | inr (e, refused) ↦ absurd (ground (arith, refused))
          | inl ((user_id, work_item), admitted) ↦
              elim (Option-cases (get_review_request id before)) [
                | inl missing ↦
                    absurd (ground (arith, admitted, missing, admit_outcome-keeps id actor db))
                | inr (r, found) ↦
                    let answered : ServiceDb Db = record db { requests = before } in
                    let noted =
                      (record_comment table identity r.work_item_id user_id note answered).1 in
                    let (same, same_items) =
                      record_comment-keeps r.work_item_id user_id note answered in
                    elim (Result-cases
                      (record_comment table identity r.work_item_id user_id note answered).0) [
                        | inr (e, unnoted) ↦ absurd (
                            ground
                              (arith, admitted, found, unnoted, admit_outcome-keeps id actor db))
                        | inl (t, quiet) ↦
                            let run : record_review_outcome table identity id actor outcome note now
                                  db
                                ≡ settle_round table identity user_id work_item r now noted =
                              ground
                                (arith, admitted, found, quiet, admit_outcome-keeps id actor db) in
                            let settled =
                              settle_round-settles table identity user_id work_item r now noted
                                updated (subst (λ x. x.0 ≡ ok updated) run done) in
                            let (state, left, stored) = settled in
                            let same_id =
                              get_work_item-id work_item.id updated
                                (settle_round table identity user_id work_item r now noted).1.items
                                stored in
                            (
                              r,
                              found,
                              ground (arith, state, same),
                              ground (arith, run, left),
                              rw run (
                                  subst
                                    (λ i.
                                      get_work_item table i
                                        (settle_round table identity user_id work_item r now
                                          noted).1.items
                                      ≡ some updated)
                                    (sym same_id) stored),
                            )
                      ]
              ]
        ]

    -- A completed request is a request of its own round.
    answered-round :
        (r : ReviewRequestRecord) (rows : List ReviewRequestRecord)
        → get_review_request id (set_request id (completed_by changes_requested now) rows) ≡ some r
        → any asks_for_changes (
            list_for_round r.work_item_id r.review_round
              (set_request id (completed_by changes_requested now) rows))
          ≡ true
    unfolding get_review_request set_request list_for_round
    answered-round r [] found = ground (arith, found)
    answered-round r (s ∷ rows) found =
        ground (arith, ==_refl r.work_item_id, ==_refl r.review_round, answered-round r rows)

    -- An answer that asks for changes, where recordReviewOutcome returns, takes the discovery
    -- back to in_progress.
    pub record_review_outcome-changes :
        (updated : WorkItemRecord)
        → outcome ≡ changes_requested
        → (record_review_outcome table identity id actor outcome note now db).0 ≡ ok updated
        → updated.state ≡ in_progress
    record_review_outcome-changes updated asked done =
        let (r, found, state, left, stored) = record_review_outcome-settles updated done in
        ground (arith, answered-round r db.requests)

    may_respond :
        (user_id : String) (item : WorkItemRecord) (r : ReviewRequestRecord)
        → assert_can_respond_to_review_request identity user_id item r ≡ none
        → (user_id == ""
            || (identity.is_active_user user_id
                && (identity.user_is_admin user_id || is_target identity user_id item r)))
          ≡ true
    unfolding assert_can_respond_to_review_request
    may_respond user_id item r passed = ground arith

    may_resolve :
        (item : WorkItemRecord)
        → assert_can_resolve_discovery_review item.workflow item.state ≡ none
        → (item.workflow ≡ product_discovery) × (item.state ≡ waiting_for_review)
    unfolding assert_can_resolve_discovery_review
    may_resolve item passed = ground arith

    may_act :
        (user_id : String) → require_user_actor actor ≡ some user_id → actor ≡ user_actor user_id
    unfolding require_user_actor
    may_act user_id passed = ground arith

    admit_outcome-allowed :
        (user_id : String) (work_item : WorkItemRecord)
        → (admit_outcome table identity id actor db).0 ≡ ok (user_id, work_item)
        → (r : ReviewRequestRecord) × MayAnswer id actor db user_id r work_item
    unfolding admit_outcome
    admit_outcome-allowed user_id work_item done =
        elim (Option-cases (get_review_request id db.requests)) [
          | inl missing ↦ absurd (ground (arith, missing))
          | inr (r, found) ↦ elim (Option-cases (get_work_item table r.work_item_id db.items)) [
            | inl missing ↦ absurd (ground (arith, found, missing))
            | inr (item, stored) ↦
                let (acts, same, responds, resolves) : (require_user_actor actor ≡ some user_id)
                    × (item ≡ work_item)
                    × (assert_can_respond_to_review_request identity user_id item r ≡ none)
                    × (assert_can_resolve_discovery_review item.workflow item.state ≡ none) =
                  ground (arith, found, stored) in
                let (a, b) = may_resolve item resolves in
                subst (λ i. (s : ReviewRequestRecord) × MayAnswer id actor db user_id s i) same
                  (
                    r,
                    (
                      may_act user_id acts,
                      found,
                      stored,
                      a,
                      b,
                      may_respond user_id item r responds,
                    ),
                  )
          ]
        ]

    -- recordReviewOutcome returns only for a user: the request is stored, its work item is a
    -- discovery that waits for review, and the user has no identifier or is active and either an
    -- administrator or among the reviewers that the request is for.
    pub record_review_outcome-allowed :
        (updated : WorkItemRecord)
        → (record_review_outcome table identity id actor outcome note now db).0 ≡ ok updated
        → (user_id : String) × (r : ReviewRequestRecord) × (work_item : WorkItemRecord) × MayAnswer
            id actor db user_id r work_item
    unfolding record_review_outcome
    record_review_outcome-allowed updated done =
        elim (Result-cases (admit_outcome table identity id actor db).0) [
          | inr (e, refused) ↦ absurd (ground (arith, refused))
          | inl ((user_id, work_item), admitted) ↦
              let (r, allowed) = admit_outcome-allowed user_id work_item admitted in
              (user_id, r, work_item, allowed)
        ]

    pub record_review_outcome-refused :
        (e : ServiceError)
        → (admit_outcome table identity id actor db).0 ≡ err e
        → record_review_outcome table identity id actor outcome note now db ≡ (err e, db)
    unfolding record_review_outcome
    record_review_outcome-refused e refused =
        ground (arith, refused, admit_outcome-keeps id actor db)
