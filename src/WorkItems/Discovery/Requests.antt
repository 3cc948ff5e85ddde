-- ===== src/WorkItems/Discovery/Requests.antt =====
-- src/work-items/review-request-store.ts and product-discovery-policy.ts, with the review requests of
-- types.ts. The table is the list of its rows, oldest first. A reference to a reviewer is read by its
-- texts only, so it is the texts of its fields. Comments are left out: nothing reads them here.
use gooseherd.Prelude.{
  ℕ, String, Bool, true, false, ◌&&◌, not, Option, none, some, List, [], ◌∷◌, ◌++◌, map,
  if◌then◌else◌, or_default, ◌==◌, String-Eq, Nat-Eq, any, keep, is_empty, Result, ok, err,
}
use gooseherd.WorkItems.Types.{
  WorkItemWorkflow, WorkItemState, product_discovery, waiting_for_review, in_progress,
  waiting_for_pm_confirmation, done, WorkItemWorkflow-Eq, WorkItemState-Eq,
}

pub data ReviewRequestType : Type 0 where
  review approval : ReviewRequestType

pub data ReviewRequestTargetType : Type 0 where
  user_target team_target team_role_target org_role_target : ReviewRequestTargetType

pub data ReviewRequestStatus : Type 0 where
  pending completed_request cancelled_request superseded : ReviewRequestStatus

pub data ReviewRequestOutcome : Type 0 where
  approved_outcome changes_requested commented no_response : ReviewRequestOutcome

pub record ReviewRequestRecord : Type 0 where
  pub id : String
  pub work_item_id : String
  pub review_round : ℕ
  pub type : ReviewRequestType
  pub target_type : ReviewRequestTargetType
  pub target_ref : String → Option String
  pub status : ReviewRequestStatus
  pub outcome : Option ReviewRequestOutcome
  pub title : String
  pub request_message : String
  pub focus_points : List String
  pub requested_by_user_id : String
  pub requested_at : ℕ
  pub resolved_at : Option ℕ
  pub created_at : ℕ
  pub updated_at : ℕ

pub record CreateReviewRequestInput : Type 0 where
  pub work_item_id : String
  pub review_round : ℕ
  pub type : ReviewRequestType
  pub target_type : ReviewRequestTargetType
  pub target_ref : String → Option String
  pub status : ReviewRequestStatus
  pub title : String
  pub request_message : Option String
  pub focus_points : Option (List String)
  pub requested_by_user_id : String

abbrev pub is_pending : ReviewRequestRecord → Bool
is_pending r = elim r.status [ pending ↦ true | status ↦ false ]

abbrev pub is_completed_request : ReviewRequestStatus → Bool
is_completed_request completed_request = true
is_completed_request status = false

abbrev pub is_changes_requested : Option ReviewRequestOutcome → Bool
is_changes_requested (some changes_requested) = true
is_changes_requested outcome = false

-- A completed request that asks for changes.
abbrev pub asks_for_changes : ReviewRequestRecord → Bool
asks_for_changes r = is_completed_request r.status && is_changes_requested r.outcome

unfoldable pub new_request : String → CreateReviewRequestInput → ℕ → ReviewRequestRecord
new_request id input now = record {
  id = id;
  work_item_id = input.work_item_id;
  review_round = input.review_round;
  type = input.type;
  target_type = input.target_type;
  target_ref = input.target_ref;
  status = input.status;
  outcome = none;
  title = input.title;
  request_message = or_default input.request_message "";
  focus_points = or_default input.focus_points [];
  requested_by_user_id = input.requested_by_user_id;
  requested_at = now;
  resolved_at = none;
  created_at = now;
  updated_at = now;
}

unfoldable pub create_review_request :
    String → CreateReviewRequestInput → ℕ → List ReviewRequestRecord → List ReviewRequestRecord
unfolding new_request
create_review_request id input now rows = rows ++ new_request id input now ∷ []

unfoldable pub get_review_request : String → List ReviewRequestRecord → Option ReviewRequestRecord
get_review_request id [] = none
get_review_request id (r ∷ rows) =
    let later = get_review_request id rows in if r.id == id then some r else later

-- `update … where id = …`
unfoldable pub set_request :
    String
    → (ReviewRequestRecord → ReviewRequestRecord)
    → List ReviewRequestRecord
    → List ReviewRequestRecord
set_request id f [] = []
set_request id f (r ∷ rows) = (if r.id == id then f r else r) ∷ set_request id f rows

abbrev pub is_of_work_item : String → ReviewRequestRecord → Bool
is_of_work_item work_item_id r = r.work_item_id == work_item_id

abbrev pub is_of_round : String → ℕ → ReviewRequestRecord → Bool
is_of_round work_item_id review_round r =
    r.work_item_id == work_item_id && r.review_round == review_round

-- `listReviewRequestsForWorkItem`, of all rounds and of one. Nothing here reads their order.
unfoldable pub list_for_work_item : String → List ReviewRequestRecord → List ReviewRequestRecord
list_for_work_item work_item_id rows = keep (is_of_work_item work_item_id) rows

unfoldable pub list_for_round : String → ℕ → List ReviewRequestRecord → List ReviewRequestRecord
list_for_round work_item_id review_round rows = keep (is_of_round work_item_id review_round) rows

abbrev pub completed_by : ReviewRequestOutcome → ℕ → ReviewRequestRecord → ReviewRequestRecord
completed_by outcome now r = record r {
  status = completed_request;
  outcome = some outcome;
  resolved_at = some now;
  updated_at = now;
}

unfoldable pub complete_review_request :
    String
    → ReviewRequestOutcome
    → ℕ
    → List ReviewRequestRecord
    → Option ReviewRequestRecord × List ReviewRequestRecord
unfolding get_review_request set_request
complete_review_request id outcome now rows =
    let rows' = set_request id (completed_by outcome now) rows in
    (get_review_request id rows', rows')

abbrev pub with_status : ReviewRequestStatus → ℕ → ReviewRequestRecord → ReviewRequestRecord
with_status status now r = record r { status = status; updated_at = now }

unfoldable pub set_status :
    String
    → ReviewRequestStatus
    → ℕ
    → List ReviewRequestRecord
    → Option ReviewRequestRecord × List ReviewRequestRecord
unfolding get_review_request set_request
set_status id status now rows =
    let rows' = set_request id (with_status status now) rows in (get_review_request id rows', rows')

pub record DiscoveryReviewRoundResult : Type 0 where
  pub next_state : WorkItemState
  pub supersede_pending_request_ids : List String

pub data RoundError : Type 0 where
  not_a_discovery : WorkItemWorkflow → RoundError
  not_waiting_for_review : WorkItemState → RoundError

unfoldable pub evaluate_discovery_review_round :
    WorkItemWorkflow
    → WorkItemState
    → List ReviewRequestRecord
    → Result RoundError DiscoveryReviewRoundResult
evaluate_discovery_review_round workflow state requests =
    let pending_requests = keep is_pending requests in
    if not (workflow == product_discovery)
    then err (not_a_discovery workflow)
    else if not (state == waiting_for_review)
    then err (not_waiting_for_review state)
    else if any asks_for_changes requests
    then ok (record {
      next_state = in_progress;
      supersede_pending_request_ids = map (λ r. r.id) pending_requests;
    })
    else if not (is_empty pending_requests)
    then ok (record { next_state = waiting_for_review; supersede_pending_request_ids = [] })
    else ok
        (record { next_state = waiting_for_pm_confirmation; supersede_pending_request_ids = [] })

unfoldable pub next_discovery_state_after_pm_confirmation : Bool → WorkItemState
next_discovery_state_after_pm_confirmation approved = if approved then done else in_progress
