-- ===== src/Auth/Access/Threshold.antt =====
-- The default threshold of the full auth-admin right (auth/access.py): a role hierarchy keeps its
-- top, and no setup makes a user without a role an admin.
use django_core_micha.Base.{
  ℕ, ◌≤◌, ◌<◌, ◌≡◌, ◌↔◌, String, true, false, Option, none, some, List, [], ◌∷◌, arith, Bool-cases,
  Option-cases, inl, inr, ltb, lookup, any_where, ◌⊎◌,
}
use django_core_micha.Auth.Roles.{
  Settings, User, level_or_0, get_role_level_for_code, get_role_level_for_user,
  get_role_code_for_user,
}
use django_core_micha.Auth.Access.{
  max_level, defined_levels, flat_default_level, default_auth_policy_write_level,
  has_full_auth_admin_rights, has_min_level, leb,
}

any_lt-max_level :
    (d : ℕ) (levels : List ℕ)
    → any_where (λ level. ltb d level) levels ≡ true
    → d < max_level levels
any_lt-max_level d [] h = cc
any_lt-max_level d (n ∷ rest) h = ground (arith, any_lt-max_level d rest)

not_any_lt-max_level :
    (d : ℕ) (levels : List ℕ)
    → any_where (λ level. ltb d level) levels ≡ false
    → max_level levels ≤ d
not_any_lt-max_level d [] h = omega arith
not_any_lt-max_level d (n ∷ rest) h = ground (arith, not_any_lt-max_level d rest)

-- The default threshold lies above the flat default level.
flat_default_level-lt : (s : Settings) → flat_default_level s < default_auth_policy_write_level s
unfolding default_auth_policy_write_level
flat_default_level-lt s =
    elim (Bool-cases
      (any_where (λ level. ltb (flat_default_level s) level) (defined_levels s.role_definitions))) [
        | inl some_ ↦ rw some_ (any_lt-max_level _ _ some_)
        | inr none_ ↦ rw none_ (omega arith)
      ]

default_role-le :
    (s : Settings) → get_role_level_for_code s s.default_role_code ≤ flat_default_level s
unfolding flat_default_level get_role_level_for_code
default_role-le s = ground arith

-- Where no threshold is configured, a user without a role who is no superuser has no full
-- auth-admin rights, whatever the role definitions are.
pub default_role_not_admin :
    (s : Settings) (u : User)
    → s.auth_policy_write_min ≡ none
    → u.is_superuser ≡ false
    → (u.role ≡ none) ⊎ (u.role ≡ some "")
    → has_full_auth_admin_rights s (some u) ≡ false
unfolding has_full_auth_admin_rights has_min_level get_role_level_for_user get_role_code_for_user
default_role_not_admin s u unset plain norole =
    ground (arith, flat_default_level-lt s, default_role-le s)

lookup-le-max_level :
    (code : String) (defs : List (String × Option ℕ)) (level : Option ℕ)
    → lookup code defs ≡ some level
    → level_or_0 level ≤ max_level (defined_levels defs)
lookup-le-max_level code [] level h = cc
lookup-le-max_level code ((j, l) ∷ defs) level h =
    ground (arith, lookup-le-max_level code defs level)

level-le-max_level :
    (s : Settings) (code : String)
    → get_role_level_for_code s code ≤ max_level (defined_levels s.role_definitions)
unfolding get_role_level_for_code
level-le-max_level s code = elim (Option-cases (lookup code s.role_definitions)) [
  | inl missing ↦ rw (missing, get_role_level_for_code) (omega arith)
  | inr (level, found) ↦
      rw (found, get_role_level_for_code) (lookup-le-max_level code s.role_definitions level found)
]

threshold_of_hierarchy :
    (s : Settings)
    → any_where (λ level. ltb (flat_default_level s) level) (defined_levels s.role_definitions)
      ≡ true
    → default_auth_policy_write_level s ≡ max_level (defined_levels s.role_definitions)
unfolding default_auth_policy_write_level
threshold_of_hierarchy s h = rw (h, default_auth_policy_write_level)

-- Whether the level meets the threshold decides the right.
full_auth_admin_level :
    (s : Settings) (u : User)
    → s.auth_policy_write_min ≡ none
    → u.is_authenticated ≡ true
    → u.is_superuser ≡ false
    → has_full_auth_admin_rights s (some u)
      ≡ leb (default_auth_policy_write_level s) (get_role_level_for_user s u)
unfolding has_full_auth_admin_rights has_min_level
full_auth_admin_level s u unset auth plain = ground arith

-- Where no threshold is configured, an authenticated user who is no superuser has full auth-admin
-- rights exactly if some defined level is above the flat default level, and the user's own level is
-- the highest one that is defined. The flat default level is that of the default role, or, where the
-- default role is not defined, 0 if the defined levels differ and else their one value.
pub full_auth_admin_iff :
    (s : Settings) (u : User)
    → s.auth_policy_write_min ≡ none
    → u.is_authenticated ≡ true
    → u.is_superuser ≡ false
    → (has_full_auth_admin_rights s (some u) ≡ true) ↔ (
        (flat_default_level s < max_level (defined_levels s.role_definitions))
        × (get_role_level_for_user s u ≡ max_level (defined_levels s.role_definitions)))
unfolding get_role_level_for_user
full_auth_admin_iff s u unset auth plain =
    let levels = defined_levels s.role_definitions in
    let top = level-le-max_level s (get_role_code_for_user s u) in
    let up = flat_default_level-lt s in
    elim (Bool-cases (any_where (λ level. ltb (flat_default_level s) level) levels)) [
      | inl some_ ↦
          let above = any_lt-max_level (flat_default_level s) levels some_ in
          let same = threshold_of_hierarchy s some_ in
          rw (full_auth_admin_level s u unset auth plain, same)
            (λ h. (above, ground arith), λ h. ground arith)
      | inr none_ ↦
          let below = not_any_lt-max_level (flat_default_level s) levels none_ in
          rw (full_auth_admin_level s u unset auth plain) (λ h. ground arith, λ h. ground arith)
    ]
