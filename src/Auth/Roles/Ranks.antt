-- ===== src/Auth/Roles/Ranks.antt =====
-- Who may change whose role to what (auth/roles.py).
use django_core_micha.Base.{String, some, true, false, ◌≡◌, ◌≤◌, ◌<◌, ◌↔◌, arith}
use django_core_micha.Auth.Roles.{
  Settings, User, get_role_level_for_user, get_role_level_for_code, is_valid_code, can_change_role,
}

-- An actor who is no superuser may change a role exactly if the actor is authenticated, the new
-- role is defined and not above the actor's own level, and the target stands below the actor.
pub can_change_role_iff :
    (s : Settings) (acting target : User) (code : String)
    → acting.is_superuser ≡ false
    → (can_change_role s (some acting) target code ≡ true) ↔ (
        (acting.is_authenticated ≡ true)
        × (is_valid_code s code ≡ true)
        × (get_role_level_for_code s code ≤ get_role_level_for_user s acting)
        × (get_role_level_for_user s target < get_role_level_for_user s acting))
unfolding can_change_role
can_change_role_iff s acting target code plain = (λ h. ground arith, λ h. ground arith)

-- Of two users who are no superusers, if one may give the other some role, the other may give the
-- first none; in particular neither may change the own role.
pub can_change_role_asymm :
    (s : Settings) (u v : User) (code code' : String)
    → u.is_superuser ≡ false
    → v.is_superuser ≡ false
    → can_change_role s (some u) v code ≡ true
    → can_change_role s (some v) u code' ≡ false
unfolding can_change_role
can_change_role_asymm s u v code code' p q h = ground arith
