-- ===== src/Auth/Access.antt =====
-- Administrative rights by role level: src/django_core_micha/auth/access.py. `stripped` stands for
-- the configured role names, which the source strips and drops where nothing is left.
pub mod Threshold
use django_core_micha.Base.{
  ℕ, suc, ◌+◌, String, Bool, true, false, not, ◌||◌, Option, none, some, List, [], ◌∷◌,
  if◌then◌else◌, ltb, leb, ◌==◌, str_eq, lookup, contains, max, strip, any_where,
}
use django_core_micha.Auth.Roles.{
  Settings, User, level_or_0, role_level_2, role_level_3, get_role_code_for_user,
  get_role_level_for_code, get_role_level_for_user,
}

unfoldable pub has_min_level : Settings → Option User → Option ℕ → ℕ → Bool
has_min_level s none configured default_level = false
has_min_level s (some u) configured default_level =
    if not u.is_authenticated
    then false
    else if u.is_superuser
    then true
    else leb (elim configured [ none ↦ default_level | some n ↦ n ]) (get_role_level_for_user s u)

unfoldable pub get_configured_roles : List String → List String
get_configured_roles [] = []
get_configured_roles (r ∷ raw) =
    let rest = get_configured_roles raw in if str_eq (strip r) "" then rest else strip r ∷ rest

unfoldable pub has_role_from_setting : Settings → Option User → List String → Bool
has_role_from_setting s none raw = false
has_role_from_setting s (some u) raw =
    if not u.is_authenticated
    then false
    else if u.is_superuser
    then true
    else contains (get_role_code_for_user s u) (get_configured_roles raw)

abbrev pub defined_levels : List (String × Option ℕ) → List ℕ
defined_levels [] = []
defined_levels ((code, level) ∷ rest) = level_or_0 level ∷ defined_levels rest

-- `max(levels, default=ROLE_LEVEL_0)`
abbrev pub max_level : List ℕ → ℕ
max_level [] = 0
max_level (n ∷ rest) = max n (max_level rest)

-- `len(set(levels)) > 1`: some level differs from the first.
abbrev pub is_mixed : List ℕ → Bool
is_mixed [] = false
is_mixed (n ∷ rest) = any_where (λ m. not (m == n)) rest

-- The level that the default threshold is laid above: where the default role is not defined, it may
-- be more than the level 0 of a user without a role.
unfoldable pub flat_default_level : Settings → ℕ
flat_default_level s = elim (lookup s.default_role_code s.role_definitions) [
  | some level ↦ get_role_level_for_code s s.default_role_code
  | none ↦
      if is_mixed (defined_levels s.role_definitions)
      then 0
      else max_level (defined_levels s.role_definitions)
]

unfoldable pub default_auth_policy_write_level : Settings → ℕ
default_auth_policy_write_level s =
    if any_where (λ level. ltb (flat_default_level s) level) (defined_levels s.role_definitions)
    then max_level (defined_levels s.role_definitions)
    else max role_level_3 (flat_default_level s + 1)

unfoldable pub has_full_auth_admin_rights : Settings → Option User → Bool
has_full_auth_admin_rights s u =
    has_min_level s u s.auth_policy_write_min (default_auth_policy_write_level s)

unfoldable pub has_invite_admin_rights : Settings → Option User → Bool
has_invite_admin_rights s none = false
has_invite_admin_rights s (some u) =
    if not u.is_authenticated
    then false
    else if u.is_superuser
    then true
    else if has_full_auth_admin_rights s (some u)
    then true
    else if has_role_from_setting s (some u) s.invite_admin_roles
    then true
    else has_min_level s (some u) s.invite_min role_level_2

unfoldable pub has_access_code_admin_rights : Settings → Option User → Bool
has_access_code_admin_rights = has_invite_admin_rights

unfoldable pub can_manage_support_agents : Settings → Option User → Bool
can_manage_support_agents s u = has_min_level s u s.support_assign_min role_level_3

unfoldable pub can_assign_support_contact : Settings → Option User → Bool
can_assign_support_contact = can_manage_support_agents

unfoldable pub is_subject_to_admin_auth_policy : Settings → Option User → Bool
is_subject_to_admin_auth_policy = has_full_auth_admin_rights
