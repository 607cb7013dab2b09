-- ===== src/Auth/Permissions.antt =====
-- Administration of users by rank, and the permission classes:
-- src/django_core_micha/auth/permissions.py. A permission that is asked with no request skips the
-- admin policy; with one, the memo on the request is passed through.
pub mod Ranks
pub mod Gate
use django_core_micha.Base.{
  ℕ, String, Bool, true, false, not, ◌&&◌, Option, none, some, if◌then◌else◌, ltb, leb, ◌==◌,
}
use django_core_micha.Auth.Roles.{Settings, User, get_role_level_for_user}
use django_core_micha.Auth.Access.{
  has_full_auth_admin_rights as base_has_full_auth_admin_rights,
  has_invite_admin_rights as base_has_invite_admin_rights,
  can_manage_support_agents as base_can_manage_support_agents,
  has_access_code_admin_rights as base_has_access_code_admin_rights,
  can_assign_support_contact as base_can_assign_support_contact,
}
use django_core_micha.Auth.Security.{FactorPolicy, Request, is_signed_in, admin_policy_satisfied}

-- Whether `actor` may administer `target`.
unfoldable pub can_act_on_user : Settings → Option User → Option User → Bool
can_act_on_user s none target = false
can_act_on_user s (some actor) target =
    if not actor.is_authenticated then false else if actor.is_superuser then true else elim target [
      | none ↦ false
      | some t ↦
          if t.is_superuser
          then false
          else if ltb (get_role_level_for_user s t) (get_role_level_for_user s actor)
          then true
          else get_role_level_for_user s actor == get_role_level_for_user s t
            && base_has_full_auth_admin_rights s (some actor)
    ]

-- `right and _admin_policy_satisfied(user, request)`: the policy is asked only if the right holds.
unfoldable pub with_policy :
    Settings → FactorPolicy → Bool → Option User → Option Request → Bool × Option Request
with_policy s p right u none = (right, none)
with_policy s p right u (some r) =
    if right
    then (let (ok, r') = admin_policy_satisfied s p u r in (ok, some r'))
    else (false, some r)

unfoldable pub has_full_auth_admin_rights :
    Settings → FactorPolicy → Option User → Option Request → Bool × Option Request
has_full_auth_admin_rights s p u r = with_policy s p (base_has_full_auth_admin_rights s u) u r

unfoldable pub has_invite_admin_rights :
    Settings → FactorPolicy → Option User → Option Request → Bool × Option Request
has_invite_admin_rights s p u r = with_policy s p (base_has_invite_admin_rights s u) u r

unfoldable pub can_manage_support_agents :
    Settings → FactorPolicy → Option User → Option Request → Bool × Option Request
can_manage_support_agents s p u r = with_policy s p (base_can_manage_support_agents s u) u r

unfoldable pub has_access_code_admin_rights :
    Settings → FactorPolicy → Option User → Option Request → Bool × Option Request
has_access_code_admin_rights s p u r = with_policy s p (base_has_access_code_admin_rights s u) u r

unfoldable pub can_assign_support_contact :
    Settings → FactorPolicy → Option User → Option Request → Bool × Option Request
can_assign_support_contact s p u r = with_policy s p (base_can_assign_support_contact s u) u r

-- The names under which views ask for the two rights.
module _ (s : Settings) (p : FactorPolicy) where
  unfoldable pub can_view_users_admin : Option User → Option Request → Bool × Option Request
  can_view_users_admin = has_invite_admin_rights s p

  unfoldable pub can_view_invite_admin : Option User → Option Request → Bool × Option Request
  can_view_invite_admin = has_invite_admin_rights s p

  unfoldable pub can_view_auth_policy : Option User → Option Request → Bool × Option Request
  can_view_auth_policy = has_invite_admin_rights s p

  unfoldable pub can_send_admin_invites : Option User → Option Request → Bool × Option Request
  can_send_admin_invites = has_invite_admin_rights s p

  unfoldable pub can_manage_signup_qr : Option User → Option Request → Bool × Option Request
  can_manage_signup_qr = has_invite_admin_rights s p

  unfoldable pub can_write_auth_policy : Option User → Option Request → Bool × Option Request
  can_write_auth_policy = has_full_auth_admin_rights s p

  -- `has_permission` of IsInviteAdminOrSuperuser, IsAccessCodeAdminOrSuperuser and
  -- IsAssignedSupportOrAdmin, about the request's own user.
  unfoldable pub is_invite_admin_or_superuser : Request → Bool × Option Request
  is_invite_admin_or_superuser r = has_invite_admin_rights s p r.user (some r)

  unfoldable pub is_access_code_admin_or_superuser : Request → Bool × Option Request
  is_access_code_admin_or_superuser r = has_access_code_admin_rights s p r.user (some r)

  unfoldable pub is_assigned_support_or_admin : Request → Bool × Option Request
  is_assigned_support_or_admin r = can_manage_support_agents s p r.user (some r)

-- `MinRoleLevelPermission.has_permission`
unfoldable pub min_role_level_permission : Settings → ℕ → Option User → Bool
min_role_level_permission s min_level none = false
min_role_level_permission s min_level (some u) =
    if not u.is_authenticated
    then false
    else if u.is_superuser
    then true
    else leb min_level (get_role_level_for_user s u)

-- `IsSupportAgent.has_permission`, about the request's own user.
unfoldable pub is_support_agent : Settings → FactorPolicy → Option Request → Bool × Option Request
is_support_agent s p none = (false, none)
is_support_agent s p (some r) =
    if not (is_signed_in r.user)
    then (false, some r)
    else let (ok, r') = admin_policy_satisfied s p r.user r in
      if not ok then (false, some r') else elim r.user [
        | none ↦ (false, some r')
        | some u ↦ (if u.is_superuser then true else u.is_support_agent, some r')
      ]
