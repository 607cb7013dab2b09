-- ===== src/Auth/Permissions/Gate.antt =====
-- The rights of auth/permissions.py require the admin policy of the request that asks.
use django_core_micha.Base.{sym, ap, ◌∙◌, ℕ, Bool, true, some, ◌≡◌, arith}
use django_core_micha.Auth.Roles.{Settings, User}
use django_core_micha.Auth.Access.{has_full_auth_admin_rights, has_invite_admin_rights}
use django_core_micha.Auth.Security.{FactorPolicy, Request}
use django_core_micha.Auth.Security.Memo.{
  plain_answer, IsFresh, IsAccount, admin_policy_satisfied-IsFresh,
}
use django_core_micha.Auth.Permissions.{
  has_full_auth_admin_rights as gated_full_auth_admin_rights,
  has_invite_admin_rights as gated_invite_admin_rights, with_policy, can_write_auth_policy,
  is_invite_admin_or_superuser,
}

module _ (s : Settings) (p : FactorPolicy) (account : ℕ → User) where
  with_policy_granted :
      (right : Bool) (u : User) (r : Request)
      → IsAccount s p account u
      → IsFresh s p account r
      → (with_policy s p right (some u) (some r)).0 ≡ true
      → (right ≡ true) × (plain_answer s p account (some u) r ≡ true)
  unfolding with_policy
  with_policy_granted right u r same fresh h =
      ground (arith, admin_policy_satisfied-IsFresh s p account u r same fresh)

  -- On a request whose memo agrees with the present level of its session, a user may write the
  -- policy only with full auth-admin rights, and may manage invites only with invite rights, and in
  -- both cases only if the session meets the admin policy.
  pub admin_rights_granted :
      (u : User) (r : Request)
      → IsAccount s p account u
      → IsFresh s p account r
      → r.user ≡ some u
      → ((can_write_auth_policy s p (some u) (some r)).0 ≡ true
          → (has_full_auth_admin_rights s (some u) ≡ true)
            × (plain_answer s p account (some u) r ≡ true))
        × ((is_invite_admin_or_superuser s p r).0 ≡ true
            → (has_invite_admin_rights s (some u) ≡ true)
              × (plain_answer s p account (some u) r ≡ true))
  unfolding can_write_auth_policy is_invite_admin_or_superuser gated_full_auth_admin_rights
      gated_invite_admin_rights
  admin_rights_granted u r same fresh own = (
    λ h. with_policy_granted (has_full_auth_admin_rights s (some u)) u r same fresh h,
    λ h.
        with_policy_granted (has_invite_admin_rights s (some u)) u r same fresh
          (sym (ap (λ v. (with_policy s p (has_invite_admin_rights s v) v (some r)).0) own) ∙ h),
  )
