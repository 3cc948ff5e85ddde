-- ===== src/WorkItems/Discovery/Authorization.antt =====
-- src/work-items/authorization.ts and actor.ts: who may do what with a work item. What the identity
-- store reads from its tables is a parameter.
use gooseherd.Prelude.{
  String, Bool, true, false, ◌||◌, not, Option, none, some, if◌then◌else◌, or_default, ◌<|>◌, ◌==◌,
  String-Eq, Nat-Eq,
}
use gooseherd.WorkItems.Types.{WorkItemRecord}
use gooseherd.WorkItems.Discovery.Requests.{
  ReviewRequestRecord, user_target, team_target, team_role_target, org_role_target,
}

pub data WorkItemActor : Type 0 where
  user_actor : String → WorkItemActor
  admin_session : String → WorkItemActor

-- `requireUserActor`; `none` is a throw.
unfoldable pub require_user_actor : WorkItemActor → Option String
require_user_actor (user_actor user_id) = some user_id
require_user_actor (admin_session session_id) = none

unfoldable pub is_admin_override_actor : WorkItemActor → Bool
is_admin_override_actor (user_actor user_id) = false
is_admin_override_actor (admin_session session_id) = true

pub record Identity : Type 0 where
  -- `getUser`, and whether the user is active
  pub is_active_user : String → Bool
  pub is_user_on_team : String → String → Bool
  pub user_is_admin : String → Bool
  pub user_is_pm_for_team : String → String → Bool
  pub user_has_team_functional_role : String → String → String → Bool
  pub user_has_org_role : String → String → Bool

pub data AuthorizationError : Type 0 where
  unknown_or_inactive_actor : AuthorizationError
  may_not_create may_not_request may_not_transition may_not_override may_not_respond :
      AuthorizationError

-- Each assertion is `none` where it returns.
module _ (identity : Identity) where
  open identity use {
    is_active_user, is_user_on_team, user_is_admin, user_is_pm_for_team,
    user_has_team_functional_role, user_has_org_role,
  }

  -- `requireActiveUser`, and then a test.
  abbrev active_and : String → Bool → AuthorizationError → Option AuthorizationError
  active_and actor_user_id may e =
      if not (is_active_user actor_user_id)
      then some unknown_or_inactive_actor
      else if may
      then none
      else some e

  unfoldable pub assert_can_create_work_item : String → String → Option AuthorizationError
  assert_can_create_work_item actor_user_id owner_team_id =
      active_and actor_user_id
        (is_user_on_team actor_user_id owner_team_id || user_is_admin actor_user_id) may_not_create

  unfoldable pub assert_can_request_review : String → WorkItemRecord → Option AuthorizationError
  assert_can_request_review actor_user_id work_item =
      active_and actor_user_id
        (user_is_pm_for_team actor_user_id work_item.owner_team_id || user_is_admin actor_user_id)
        may_not_request

  unfoldable pub assert_can_apply_manual_transition :
      String → WorkItemRecord → Option AuthorizationError
  assert_can_apply_manual_transition actor_user_id work_item =
      active_and actor_user_id
        (user_is_pm_for_team actor_user_id work_item.owner_team_id || user_is_admin actor_user_id)
        may_not_transition

  unfoldable pub assert_can_override_work_item : String → Option AuthorizationError
  assert_can_override_work_item actor_user_id =
      active_and actor_user_id (user_is_admin actor_user_id) may_not_override

  -- The role that a request names under one of two fields: an empty one is no role.
  abbrev pub named_role : (String → Option String) → String → String → Option String
  named_role ref first second = elim (ref first <|> ref second) [
    | none ↦ none
    | some role ↦ if role == "" then none else some role
  ]

  -- Whether the reviewers that a request is for include a user who is no administrator.
  unfoldable pub is_target : String → WorkItemRecord → ReviewRequestRecord → Bool
  is_target actor_user_id work_item request =
      let team_id = or_default (request.target_ref "teamId") work_item.owner_team_id in
      elim request.target_type [
        | user_target ↦ elim (request.target_ref "userId") [
          | none ↦ false
          | some user_id ↦ user_id == actor_user_id
        ]
        | team_target ↦ is_user_on_team actor_user_id team_id
        | team_role_target ↦ elim (named_role request.target_ref "role" "teamRole") [
          | none ↦ false
          | some role ↦ user_has_team_functional_role actor_user_id team_id role
        ]
        | org_role_target ↦ elim (named_role request.target_ref "role" "orgRole") [
          | none ↦ false
          | some role ↦ user_has_org_role actor_user_id role
        ]
      ]

  -- A user without an identifier passes: the callers give one.
  unfoldable pub assert_can_respond_to_review_request :
      String → WorkItemRecord → ReviewRequestRecord → Option AuthorizationError
  unfolding is_target
  assert_can_respond_to_review_request actor_user_id work_item request =
      if actor_user_id == ""
      then none
      else active_and actor_user_id
          (user_is_admin actor_user_id || is_target actor_user_id work_item request) may_not_respond
