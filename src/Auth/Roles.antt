-- ===== src/Auth/Roles.antt =====
-- Role codes and levels, and who may change a role: src/django_core_micha/auth/roles.py. The
-- project's settings and the attributes of a user that the auth package reads are records; the
-- levels of the role definitions are natural numbers.
pub mod Ranks
use django_core_micha.Base.{
  ℕ, String, Bool, true, false, not, ◌&&◌, Option, none, some, List, if◌then◌else◌, ltb, leb,
  str_eq, lookup,
}

pub record Settings : Type 0 where
  -- ROLE_DEFINITIONS: codes with their levels; a definition may lack a level.
  pub role_definitions : List (String × Option ℕ)
  pub default_role_code : String
  pub auth_policy_write_min : Option ℕ  -- AUTH_POLICY_WRITE_MIN_ROLE_LEVEL
  pub invite_min : Option ℕ  -- INVITE_MIN_ROLE_LEVEL
  pub invite_admin_roles : List String  -- INVITE_ADMIN_ROLES
  pub support_assign_min : Option ℕ  -- SUPPORT_ASSIGN_ROLE_LEVEL
  pub security_levels : List String  -- SECURITY_LEVELS, from weak to strong
  pub security_default_level : String  -- SECURITY_DEFAULT_LEVEL

-- `role` is that of the user's profile, `none` if there is no profile.
pub record User : Type 0 where
  pub pk : Option ℕ
  pub is_authenticated : Bool
  pub is_superuser : Bool
  pub is_staff : Bool
  pub role : Option String
  pub is_support_agent : Bool

abbrev pub role_level_1 : ℕ
role_level_1 = 1

abbrev pub role_level_2 : ℕ
role_level_2 = 2

abbrev pub role_level_3 : ℕ
role_level_3 = 3

-- An absent level counts as level 0.
abbrev pub level_or_0 : Option ℕ → ℕ
level_or_0 none = 0
level_or_0 (some n) = n

-- An empty role code counts as none.
unfoldable pub get_role_code_for_user : Settings → User → String
get_role_code_for_user s u = elim u.role [
  | none ↦ s.default_role_code
  | some code ↦ if str_eq code "" then s.default_role_code else code
]

unfoldable pub get_role_level_for_code : Settings → String → ℕ
get_role_level_for_code s code = elim (lookup code s.role_definitions) [
  | none ↦ 0
  | some level ↦ level_or_0 level
]

unfoldable pub get_role_level_for_user : Settings → User → ℕ
get_role_level_for_user s u = get_role_level_for_code s (get_role_code_for_user s u)

unfoldable pub is_valid_code : Settings → String → Bool
is_valid_code s code = elim (lookup code s.role_definitions) [ none ↦ false | some level ↦ true ]

-- `RolePolicy.can_change_role`; an absent acting user is `none`.
unfoldable pub can_change_role : Settings → Option User → User → String → Bool
can_change_role s none target code = false
can_change_role s (some acting) target code =
    if not acting.is_authenticated
    then false
    else if not (is_valid_code s code)
    then false
    else if acting.is_superuser
    then true
    else if ltb (get_role_level_for_user s acting) (get_role_level_for_code s code)
    then false
    else if leb (get_role_level_for_user s acting) (get_role_level_for_user s target)
    then false
    else true

-- `RolePolicy.is_admin_like`
unfoldable pub is_admin_like : Settings → Option User → Bool
is_admin_like s none = false
is_admin_like s (some u) =
    if not u.is_authenticated
    then false
    else if u.is_superuser
    then true
    else leb role_level_2 (get_role_level_for_user s u)
