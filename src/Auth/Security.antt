-- ===== src/Auth/Security.antt =====
-- Security levels of a session, the required level of a user, and the per-request memo of the
-- admin policy: src/django_core_micha/auth/security.py, and `_admin_policy_satisfied` of
-- auth/permissions.py.
pub mod Memo
pub mod State
use django_core_micha.Base.{
  ℕ, suc, String, Bool, true, false, not, ◌&&◌, ◌||◌, Option, none, some, List, [], ◌∷◌,
  if◌then◌else◌, leb, ◌==◌, str_eq, contains, length,
}
use django_core_micha.Auth.Roles.{Settings, User}
use django_core_micha.Auth.Access.{is_subject_to_admin_auth_policy}

-- The two fields of `RegistrationPolicyState` that the security level depends on.
pub record FactorPolicy : Type 0 where
  pub required_auth_factor_count : ℕ
  pub admin_required_auth_factor_count : ℕ

-- The request: its user, the session's `auth_level`, and `_dcm_admin_policy_cache`.
pub record Request : Type 0 where
  pub user : Option User
  pub auth_level : Option String
  pub memo : Option (List (ℕ × Bool))

abbrev pub auth_factor_two : ℕ
auth_factor_two = 2

abbrev pub is_signed_in : Option User → Bool
is_signed_in none = false
is_signed_in (some u) = u.is_authenticated

unfoldable pub get_security_level : Settings → Request → String
get_security_level s r =
    if not (is_signed_in r.user)
    then "anon"
    else elim r.auth_level [ none ↦ s.security_default_level | some level ↦ level ]

unfoldable pub set_security_level : Settings → String → Request → Request
set_security_level s level r =
    if not (is_signed_in r.user)
    then r
    else if not (contains level s.security_levels)
    then r
    else record r { auth_level = some level; memo = none }

-- `levels.index(level)`, `none` where it raises ValueError.
unfoldable pub index_of : String → List String → Option ℕ
index_of level [] = none
index_of level (l ∷ levels) =
    if str_eq l level
    then some 0
    else elim (index_of level levels) [ none ↦ none | some i ↦ some (suc i) ]

unfoldable pub is_level_sufficient : Settings → String → String → Bool
is_level_sufficient s current required = elim (index_of current s.security_levels) [
  | none ↦ false
  | some i ↦ elim (index_of required s.security_levels) [ none ↦ false | some j ↦ leb j i ]
]

unfoldable pub get_required_auth_factor_count_for_user : Settings → FactorPolicy → Option User → ℕ
get_required_auth_factor_count_for_user s p u =
    if is_subject_to_admin_auth_policy s u
    then p.admin_required_auth_factor_count
    else p.required_auth_factor_count

unfoldable pub get_required_security_level_for_user : Settings → FactorPolicy → Option User → String
get_required_security_level_for_user s p u =
    if leb auth_factor_two (get_required_auth_factor_count_for_user s p u)
    then "strong"
    else s.security_default_level

-- `request=None` is `none`.
unfoldable pub is_user_security_sufficient :
    Settings → FactorPolicy → Option User → Option Request → Bool
is_user_security_sufficient s p u r =
    if not (is_signed_in u)
    then false
    else is_level_sufficient s
        (elim r [ none ↦ s.security_default_level | some q ↦ get_security_level s q ])
        (get_required_security_level_for_user s p u)

abbrev pub memo_get : ℕ → List (ℕ × Bool) → Option Bool
memo_get k [] = none
memo_get k ((j, b) ∷ rest) = if j == k then some b else memo_get k rest

abbrev pub memo_entries : Option (List (ℕ × Bool)) → List (ℕ × Bool)
memo_entries none = []
memo_entries (some entries) = entries

-- The answer for a user with no primary key is not kept.
unfoldable pub remember : Option ℕ → Bool → Request → Request
remember none result r = r
remember (some k) result r = record r { memo = some ((k, result) ∷ memo_entries r.memo) }

abbrev pub key_of : Option User → Option ℕ
key_of none = none
key_of (some u) = u.pk

abbrev pub recall : Option ℕ → Request → Option Bool
recall none r = none
recall (some k) r = memo_get k (memo_entries r.memo)

-- The kept answer, or a computed one that is kept.
unfoldable pub answer :
    Settings → FactorPolicy → Option User → Option Bool → Request → Bool × Request
answer s p u (some b) r = (b, r)
answer s p u none r =
    let result = is_user_security_sufficient s p u (some r) in
    (result, remember (key_of u) result r)

-- `_admin_policy_satisfied` with a request: the answer, and the request with its memo.
unfoldable pub admin_policy_satisfied :
    Settings → FactorPolicy → Option User → Request → Bool × Request
admin_policy_satisfied s p u r =
    if not (is_subject_to_admin_auth_policy s u)
    then (true, r)
    else answer s p u (recall (key_of u) r) r
