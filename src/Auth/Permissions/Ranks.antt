-- ===== src/Auth/Permissions/Ranks.antt =====
-- Who may administer whom (`can_act_on_user` of auth/permissions.py).
use django_core_micha.Base.{◌<◌, true, false, some, ◌≡◌, ◌↔◌, ◌⊎◌, arith}
use django_core_micha.Auth.Roles.{Settings, User, get_role_level_for_user}
use django_core_micha.Auth.Access.{has_full_auth_admin_rights}
use django_core_micha.Auth.Permissions.{can_act_on_user}

-- An authenticated actor may administer a target exactly if the actor is a superuser, or the
-- target is no superuser and stands below the actor, or is no superuser at the same level where
-- the actor has full auth-admin rights.
pub can_act_on_user_iff :
    (s : Settings) (actor target : User)
    → actor.is_authenticated ≡ true
    → (can_act_on_user s (some actor) (some target) ≡ true) ↔ (
        (actor.is_superuser ≡ true)
        ⊎ ((target.is_superuser ≡ false)
            × ((get_role_level_for_user s target < get_role_level_for_user s actor)
                ⊎ ((get_role_level_for_user s actor ≡ get_role_level_for_user s target)
                    × (has_full_auth_admin_rights s (some actor) ≡ true)))))
unfolding can_act_on_user
can_act_on_user_iff s actor target auth = (λ h. ground arith, λ h. ground arith)

-- If a user who is no superuser may act on a second one who is no superuser, and that one on a
-- third, the first may act on the third.
pub can_act_on_user_trans :
    (s : Settings) (a b c : User)
    → a.is_superuser ≡ false
    → b.is_superuser ≡ false
    → can_act_on_user s (some a) (some b) ≡ true
    → can_act_on_user s (some b) (some c) ≡ true
    → can_act_on_user s (some a) (some c) ≡ true
unfolding can_act_on_user
can_act_on_user_trans s a b c p q h k = ground arith
