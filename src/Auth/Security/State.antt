-- ===== src/Auth/Security/State.antt =====
-- The security state that the client is shown: `get_user_security_state` of auth/security.py.
-- The types of the user's authenticators are read through the query's outcome.
use django_core_micha.Base.{
  ℕ, ◌≤◌, String, Bool, true, false, not, ◌||◌, Option, none, some, List, if◌then◌else◌, leb,
  str_eq, contains, ◌≡◌, ◌↔◌, arith,
}
use django_core_micha.Auth.Roles.{Settings, User}
use django_core_micha.Auth.Access.{is_subject_to_admin_auth_policy}
use django_core_micha.Auth.Security.{
  FactorPolicy, Request, auth_factor_two, is_signed_in, get_security_level, is_level_sufficient,
  get_required_auth_factor_count_for_user, get_required_security_level_for_user,
  is_user_security_sufficient,
}

-- The counts are there only for a user who is signed in.
pub record FactorCounts : Type 0 where
  pub required_auth_factor_count : ℕ
  pub base_required_auth_factor_count : ℕ
  pub admin_required_auth_factor_count : ℕ
  pub is_subject_to_admin_auth_policy : Bool

pub record SecurityState : Type 0 where
  pub required_level : String
  pub current_level : String
  pub has_totp : Bool
  pub has_webauthn : Bool
  pub has_recovery_codes : Bool
  pub counts : Option FactorCounts
  pub requires_additional_security : Bool

abbrev pub has_any_second_factor : List String → Bool
has_any_second_factor types =
    contains "totp" types || contains "webauthn" types || contains "recovery_codes" types

unfoldable pub requires_additional : Settings → ℕ → String → String → List String → Bool
requires_additional s count required current types =
    if leb auth_factor_two count
    then not (has_any_second_factor types) || not (is_level_sufficient s current "strong")
    else if str_eq required "strong"
    then not (is_level_sufficient s current "strong")
    else false

unfoldable pub get_user_security_state :
    Settings → FactorPolicy → Option User → Option Request → List String → SecurityState
get_user_security_state s p u r types =
    let required = get_required_security_level_for_user s p u in
    let count = get_required_auth_factor_count_for_user s p u in
    let current : String = elim r [ none ↦ "basic" | some q ↦ get_security_level s q ] in
    if not (is_signed_in u)
    then record {
      required_level = "anon";
      current_level = "anon";
      has_totp = false;
      has_webauthn = false;
      has_recovery_codes = false;
      counts = none;
      requires_additional_security = false;
    }
    else record {
      required_level = required;
      current_level = current;
      has_totp = contains "totp" types;
      has_webauthn = contains "webauthn" types;
      has_recovery_codes = contains "recovery_codes" types;
      counts = some (record {
        required_auth_factor_count = count;
        base_required_auth_factor_count = p.required_auth_factor_count;
        admin_required_auth_factor_count = p.admin_required_auth_factor_count;
        is_subject_to_admin_auth_policy = is_subject_to_admin_auth_policy s u;
      });
      requires_additional_security = requires_additional s count required current types;
    }

-- Where an authenticated user needs at least two factors, the state of a request asks for nothing
-- more exactly if the user has some second factor and the session suffices for the policy.
pub state_agrees_iff :
    (s : Settings) (p : FactorPolicy) (u : User) (r : Request) (types : List String)
    → u.is_authenticated ≡ true
    → 2 ≤ get_required_auth_factor_count_for_user s p (some u)
    → ((get_user_security_state s p (some u) (some r) types).requires_additional_security ≡ false)
      ↔ ((has_any_second_factor types ≡ true)
          × (is_user_security_sufficient s p (some u) (some r) ≡ true))
unfolding get_user_security_state requires_additional get_required_security_level_for_user
    is_user_security_sufficient
state_agrees_iff s p u r types auth two = (λ h. ground arith, λ h. ground arith)
