-- ===== src/WorkItems/Discovery/Rounds.antt =====
-- What an answer to a review request makes of its round.
use gooseherd.Prelude.{
  ℕ, String, ◌≡◌, refl, inl, inr, Bool, false, ◌&&◌, ◌||◌, not, some, List, [], ◌∷◌, map, arith,
  eq_iff, if◌then◌else◌, ◌==◌, String-Eq, Nat-Eq, ==_refl, any, keep, is_empty, includes, ok,
  Result-cases,
}
use gooseherd.WorkItems.Store.{get_work_item}
use gooseherd.WorkItems.Types.{
  WorkItemRecord, WorkItemState, WorkItemWorkflow, waiting_for_review, in_progress,
  waiting_for_pm_confirmation, WorkItemState-Eq,
}
use gooseherd.WorkItems.Table.{WorkItemTable}
use gooseherd.WorkItems.Discovery.Requests.{
  ReviewRequestRecord, is_pending, asks_for_changes, is_of_round, list_for_round, set_request,
  set_status, superseded, with_status, evaluate_discovery_review_round, DiscoveryReviewRoundResult,
}
use gooseherd.WorkItems.Store.{update_state}
use gooseherd.WorkItems.Store.Updates.{update_state-ok}
use gooseherd.WorkItems.Discovery.Authorization.{Identity}
use gooseherd.WorkItems.Discovery.Calls.{ServiceDb}
use gooseherd.WorkItems.Discovery.Service.{supersede_all, settle_round, round_update}

-- The rows after `setStatus` of each of some requests.
abbrev superseded_rows : ℕ → List String → List ReviewRequestRecord → List ReviewRequestRecord
superseded_rows now [] rows = rows
superseded_rows now (id ∷ ids) rows =
    superseded_rows now ids (set_request id (with_status superseded now) rows)

-- Whether a request of the round is pending, but for those with some identifiers.
unfoldable pending_but : String → ℕ → List String → List ReviewRequestRecord → Bool
pending_but w n ids [] = false
pending_but w n ids (r ∷ rows) =
    (is_of_round w n r && (is_pending r && not (includes r.id ids))) || pending_but w n ids rows

module _ (w : String) (n : ℕ) where
  pending_but-set :
      (id : String) (ids : List String) (now : ℕ) (rows : List ReviewRequestRecord)
      → pending_but w n (id ∷ ids) rows ≡ false
      → pending_but w n ids (set_request id (with_status superseded now) rows) ≡ false
  unfolding pending_but set_request includes
  pending_but-set id ids now [] h = refl
  pending_but-set id ids now (r ∷ rows) h =
      ground (arith, eq_iff id r.id, eq_iff r.id id, pending_but-set id ids now rows)

  pending_but-all :
      (now : ℕ) (ids : List String) (rows : List ReviewRequestRecord)
      → pending_but w n ids rows ≡ false
      → pending_but w n [] (superseded_rows now ids rows) ≡ false
  pending_but-all now [] rows h = h
  pending_but-all now (id ∷ ids) rows h =
      pending_but-all now ids (set_request id (with_status superseded now) rows)
        (pending_but-set id ids now rows h)

  pending_but-more :
      (id : String) (ids : List String) (rows : List ReviewRequestRecord)
      → pending_but w n ids rows ≡ false
      → pending_but w n (id ∷ ids) rows ≡ false
  unfolding pending_but includes
  pending_but-more id ids [] h = refl
  pending_but-more id ids (r ∷ rows) h = ground (arith, pending_but-more id ids rows)

  pending_but-own :
      (rows : List ReviewRequestRecord)
      → pending_but w n (map (λ r. r.id) (keep is_pending (list_for_round w n rows))) rows ≡ false
  unfolding pending_but includes list_for_round
  pending_but-own [] = refl
  pending_but-own (r ∷ rows) = ground (
    arith,
    eq_iff r.id r.id,
    ==_refl r.id,
    pending_but-own rows,
    pending_but-more r.id (map (λ r. r.id) (keep is_pending (list_for_round w n rows))) rows,
  )

  pending_but-none :
      (rows : List ReviewRequestRecord)
      → any is_pending (list_for_round w n rows) ≡ pending_but w n [] rows
  unfolding pending_but list_for_round includes
  pending_but-none [] = refl
  pending_but-none (r ∷ rows) = ground (arith, pending_but-none rows)

-- The state that the requests of a round call for.
abbrev pub state_of_round : List ReviewRequestRecord → WorkItemState
state_of_round round =
    if any asks_for_changes round
    then in_progress
    else if any is_pending round
    then waiting_for_review
    else waiting_for_pm_confirmation

any-keep : {A : Type 0} (p : A → Bool) (xs : List A) → is_empty (keep p xs) ≡ not (any p xs)
any-keep p [] = refl
any-keep p (x ∷ xs) = ground (arith, any-keep p xs)

evaluate-state_of_round :
    (workflow : WorkItemWorkflow) (state : WorkItemState) (round : List ReviewRequestRecord)
    (r : DiscoveryReviewRoundResult)
    → evaluate_discovery_review_round workflow state round ≡ ok r
    → (r.next_state ≡ state_of_round round)
      × (r.supersede_pending_request_ids
          ≡ (if any asks_for_changes round then map (λ s. s.id) (keep is_pending round) else []))
unfolding evaluate_discovery_review_round
evaluate-state_of_round workflow state round r done =
    (ground (arith, any-keep is_pending round), ground (arith, any-keep is_pending round))

module _ (table : WorkItemTable) (identity : Identity) where
  open table use {Db}

  supersede_all-requests :
      (now : ℕ) (ids : List String) (db : ServiceDb Db) (u : Unit {0})
      → (supersede_all table identity now ids db).0 ≡ ok u
      → (supersede_all table identity now ids db).1.requests ≡ superseded_rows now ids db.requests
  unfolding supersede_all set_status
  supersede_all-requests now [] db u done = refl
  supersede_all-requests now (id ∷ ids) db u done = ground (
    arith,
    supersede_all-requests now ids
        (record db { requests = set_request id (with_status superseded now) db.requests }) u,
  )

  module _ (user_id : String) (work_item : WorkItemRecord) (completed : ReviewRequestRecord)
      (now : ℕ) (db : ServiceDb Db) where
    pub settle_round-settles :
        (updated : WorkItemRecord)
        → (settle_round table identity user_id work_item completed now db).0 ≡ ok updated
        → let after = (settle_round table identity user_id work_item completed now db).1 in
          let w = completed.work_item_id in
          let n = completed.review_round in
          (updated.state ≡ state_of_round (list_for_round w n db.requests))
          × (any is_pending (list_for_round w n after.requests)
              ≡ (updated.state == waiting_for_review))
          × (get_work_item table work_item.id after.items ≡ some updated)
    unfolding settle_round
    settle_round-settles updated done =
        let w = completed.work_item_id in
        let n = completed.review_round in
        let round = list_for_round w n db.requests in
        elim (Result-cases
          (evaluate_discovery_review_round work_item.workflow work_item.state round)) [
            | inr (e, refused) ↦ ground (arith, refused)
            | inl (r, evaluated) ↦
                let (state, ids) =
                  evaluate-state_of_round work_item.workflow work_item.state round r evaluated in
                let sup = supersede_all table identity now r.supersede_pending_request_ids db in
                elim (Result-cases sup.0) [
                  | inr (e, missing) ↦ ground (arith, evaluated, missing)
                  | inl (u, closed) ↦
                      let rows =
                        supersede_all-requests now r.supersede_pending_request_ids db u closed in
                      elim (Result-cases
                        (update_state table work_item.id (round_update r.next_state) now
                          sup.1.items).0) [
                            | inr (e, refused) ↦ ground (arith, evaluated, closed, refused)
                            | inl (after, done') ↦
                                let (moved, stored) =
                                  update_state-ok table work_item.id (round_update r.next_state) now
                                    sup.1.items after done' in
                                ground (
                                  arith,
                                  evaluated,
                                  closed,
                                  done',
                                  moved,
                                  stored,
                                  state,
                                  ids,
                                  rows,
                                  pending_but-none w n sup.1.requests,
                                  pending_but-none w n db.requests,
                                  pending_but-own w n db.requests,
                                  pending_but-all w n now r.supersede_pending_request_ids
                                      db.requests,
                                )
                          ]
                ]
          ]
