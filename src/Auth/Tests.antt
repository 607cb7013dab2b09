-- ===== src/Auth/Tests.antt =====
-- The auth package on concrete users, requests and tokens.
use Prim.Native.Char.{code}
use django_core_micha.Auth.Security.State.{
  state_agrees_iff, get_user_security_state, has_any_second_factor,
}
use django_core_micha.Auth.Security.{
  get_required_auth_factor_count_for_user, is_user_security_sufficient,
}
use django_core_micha.Auth.Policy.Signup.{ok, err, signature_expired}
use django_core_micha.Auth.Policy.Pending.{
  PendingSigning, PendingPayload, decode-create_pending, create_pending_registration_token,
  decode_pending_registration_token, pending_payload,
}
use django_core_micha.Auth.Permissions.Gate.{admin_rights_granted}
use django_core_micha.Auth.Policy.Domains.{is_allowed_email_domain_iff}
use django_core_micha.Auth.Roles.Ranks.{can_change_role_asymm, can_change_role_iff}
use django_core_micha.Auth.Permissions.Ranks.{can_act_on_user_trans, can_act_on_user_iff}
use django_core_micha.Auth.AdminMfa.Gate.{gate_passed}
use django_core_micha.Auth.WsPermissions.Connect.{OpensWith, connect_accepts_iff}
use django_core_micha.Auth.Policy.Signup.Redeem.{
  redeem_all, is_ok, row_of, redeem_all_bounded, consume_ok,
}
use django_core_micha.Auth.Permissions.{
  can_act_on_user, can_write_auth_policy, is_invite_admin_or_superuser,
}
use django_core_micha.Auth.Access.Threshold.{default_role_not_admin, full_auth_admin_iff}
use django_core_micha.Auth.Policy.Domains.{
  HasNoRepeats, IsDomain, normalize_domains-HasNoRepeats, Occurs, normalize_domains_iff,
}
use django_core_micha.Auth.Security.{Request, admin_policy_satisfied, FactorPolicy}
use mathlib.Core.List.{Memᴰ}
use django_core_micha.Base.{
  ◌≡◌, refl, ◌≢◌, ◌⊎◌, ◌↔◌, inl, inr, String, true, false, none, some, List, [], ◌∷◌, Option, arith,
  ℕ, All, ◌<◌, ◌≤◌, contains, has_char, ◌+◌, strip, ap, eq_iff, ◌*◌, decimal, ◌/◌, ◌-◌,
  if◌then◌else◌, leb, ◌==◌, str_eq,
}
use django_core_micha.Auth.Access.{
  has_invite_admin_rights, has_full_auth_admin_rights, flat_default_level, max_level,
  defined_levels, is_subject_to_admin_auth_policy, has_min_level, default_auth_policy_write_level,
}
use django_core_micha.Auth.Roles.{
  Settings, User, can_change_role, is_valid_code, get_role_level_for_user, get_role_level_for_code,
  get_role_code_for_user,
}
use django_core_micha.Auth.AdminMfa.{
  MfaSettings, AdminRequest, AuthRecord, routed, listed, record_of, enrolled, passed, call,
  needs_mfa_check, is_admin_request, has_mfa, session_used_mfa,
}
use django_core_micha.Auth.WsPermissions.{granted, raised, accept, set_up, connect, is_auth}
use django_core_micha.Auth.Policy.{
  text, other, is_allowed_email_domain, normalize_domains, after_last_at, as_items,
}
use django_core_micha.Auth.Policy.Signup.{QrToken, consume, is_redeemable}
use django_core_micha.Auth.Security.Memo.{
  ask, set_level, IsAccount, after, plain_answer, memo_transparent,
}

abbrev project : Settings
project = record {
  role_definitions = ("guest", some 0) ∷ ("member", some 1) ∷ ("admin", some 3) ∷ [];
  default_role_code = "guest";
  auth_policy_write_min = none;
  invite_min = none;
  invite_admin_roles = [];
  support_assign_min = none;
  security_levels = "basic" ∷ "strong" ∷ [];
  security_default_level = "basic";
}

abbrev person : ℕ → Option String → User
person k code = record {
  pk = some k;
  is_authenticated = true;
  is_superuser = false;
  is_staff = false;
  role = code;
  is_support_agent = false;
}

abbrev chief : User
chief = person 1 (some "admin")

abbrev worker : User
worker = person 2 (some "member")

abbrev newcomer : User
newcomer = person 3 none

can_change_role_iff_example : (can_change_role project (some chief) worker "member" ≡ true) ↔ (
    (chief.is_authenticated ≡ true)
    × (is_valid_code project "member" ≡ true)
    × (get_role_level_for_code project "member" ≤ get_role_level_for_user project chief)
    × (get_role_level_for_user project worker < get_role_level_for_user project chief))
can_change_role_iff_example = can_change_role_iff project chief worker "member" refl

chief_changes_worker : can_change_role project (some chief) worker "guest" ≡ true
unfolding can_change_role get_role_level_for_user get_role_code_for_user get_role_level_for_code
    is_valid_code
chief_changes_worker = refl

can_change_role_asymm_case : can_change_role project (some worker) chief "member" ≡ false
can_change_role_asymm_case =
    can_change_role_asymm project chief worker "guest" "member" refl refl chief_changes_worker

can_act_on_user_iff_case : (can_act_on_user project (some chief) (some worker) ≡ true) ↔ (
    (chief.is_superuser ≡ true)
    ⊎ ((worker.is_superuser ≡ false)
        × ((get_role_level_for_user project worker < get_role_level_for_user project chief)
            ⊎ ((get_role_level_for_user project chief ≡ get_role_level_for_user project worker)
                × (has_full_auth_admin_rights project (some chief) ≡ true)))))
can_act_on_user_iff_case = can_act_on_user_iff project chief worker refl

chief_on_worker : can_act_on_user project (some chief) (some worker) ≡ true
unfolding can_act_on_user get_role_level_for_user get_role_code_for_user get_role_level_for_code
chief_on_worker = refl

worker_on_newcomer : can_act_on_user project (some worker) (some newcomer) ≡ true
unfolding can_act_on_user get_role_level_for_user get_role_code_for_user get_role_level_for_code
worker_on_newcomer = refl

can_act_on_user_trans_case : can_act_on_user project (some chief) (some newcomer) ≡ true
can_act_on_user_trans_case =
    can_act_on_user_trans project chief worker newcomer refl refl chief_on_worker worker_on_newcomer

default_role_not_admin_example : has_full_auth_admin_rights project (some newcomer) ≡ false
default_role_not_admin_example = default_role_not_admin project newcomer refl refl (inl refl)

full_auth_admin_iff_example : (has_full_auth_admin_rights project (some chief) ≡ true) ↔ (
    (flat_default_level project < max_level (defined_levels project.role_definitions))
    × (get_role_level_for_user project chief ≡ max_level (defined_levels project.role_definitions)))
full_auth_admin_iff_example = full_auth_admin_iff project chief refl refl refl

abbrev two_factors : FactorPolicy
two_factors = record { required_auth_factor_count = 1; admin_required_auth_factor_count = 2 }

abbrev chief_request : Request
chief_request = record { user = some chief; auth_level = none; memo = none }

-- Every key is the chief's in this small store.
abbrev account : ℕ → User
account k = record chief { pk = some k }

chief-IsAccount : IsAccount project two_factors account chief
chief-IsAccount k h = ap (λ key. record chief { pk = key }) h

-- The chief is refused at the basic level, then signs in with a second factor.
memo_transparent_example :
    let acts = ask chief chief-IsAccount ∷ set_level "strong" ∷ [] in
    (admin_policy_satisfied project two_factors
      (some chief)
      (after project two_factors account acts chief_request)).0
    ≡ plain_answer project two_factors account
        (some chief)
        (after project two_factors account acts chief_request)
memo_transparent_example =
    memo_transparent project two_factors account
      (ask chief chief-IsAccount ∷ set_level "strong" ∷ []) chief_request chief refl chief-IsAccount

abbrev gate_settings : MfaSettings
gate_settings = record { admin_mfa_required = true; is_local = false }

abbrev staff_member : User
staff_member = record worker { is_staff = true }

abbrev admin_page : AdminRequest
admin_page = record {
  user = some staff_member;
  path_is_admin = true;
  resolution = routed ("admin" ∷ []);
  records = listed (record_of (some "password") none ∷ record_of (some "mfa") (some "totp") ∷ []);
  authenticators = enrolled ("recovery_codes" ∷ "totp" ∷ []);
}

admin_page_passes : call gate_settings admin_page ≡ passed
unfolding call needs_mfa_check is_admin_request has_mfa session_used_mfa
admin_page_passes = refl

gate_passed_example :
    ((types : List String) × (t : String) × (admin_page.authenticators ≡ enrolled types)
      × Memᴰ t types
      × (t ≢ "recovery_codes"))
    × ((records : List AuthRecord) × (type_ : String) × (admin_page.records ≡ listed records)
        × Memᴰ (record_of (some "mfa") (some type_)) records
        × ((type_ ≡ "totp") ⊎ (type_ ≡ "webauthn")))
gate_passed_example =
    gate_passed gate_settings admin_page staff_member (refl, refl, refl, refl, inr refl, inl refl)
      admin_page_passes

connect_accepts_iff_example :
    OpensWith accept (connect false (some worker) (granted ∷ raised ∷ []) set_up) ↔ (
      ((false ≡ true) ⊎ (is_auth (some worker) ≡ true))
      × All (λ c. c ≡ granted) (granted ∷ raised ∷ []))
connect_accepts_iff_example = connect_accepts_iff false (some worker) (granted ∷ raised ∷ []) set_up

-- Texts of this project are in lower case already.
abbrev lower : String → String
lower s = s

is_allowed_email_domain_iff_example :
    (is_allowed_email_domain lower "a@x.org" ("@x.org" ∷ []) ≡ true) ↔ (
      (has_char b'@' "a@x.org" ≡ true)
      × IsDomain lower (lower (strip (after_last_at "a@x.org" "a@x.org")))
      × Occurs lower (lower (strip (after_last_at "a@x.org" "a@x.org"))) (as_items ("@x.org" ∷ [])))
is_allowed_email_domain_iff_example = is_allowed_email_domain_iff lower "a@x.org" ("@x.org" ∷ [])

normalize_domains_iff_case :
    (contains "x.org" (normalize_domains lower (text " @x.org" ∷ other ∷ [])) ≡ true)
    ↔ (IsDomain lower "x.org" × Occurs lower "x.org" (text " @x.org" ∷ other ∷ []))
normalize_domains_iff_case = normalize_domains_iff lower "x.org" (text " @x.org" ∷ other ∷ [])

normalize_domains-HasNoRepeats_case :
    HasNoRepeats lower (normalize_domains lower (text "x.org" ∷ text "@x.org" ∷ []))
normalize_domains-HasNoRepeats_case =
    normalize_domains-HasNoRepeats lower (text "x.org" ∷ text "@x.org" ∷ [])

abbrev poster : QrToken
poster = record { token_hash = "h"; use_count = 0; max_redemptions = 1; expires_at = 100 }

abbrev other_token : QrToken
other_token = record poster { token_hash = "g" }

abbrev tokens : List QrToken
tokens = other_token ∷ poster ∷ []

h_ne_g : ◌≢◌ {A = String} "h" "g"
h_ne_g e = ground (arith, eq_iff "h" "g")

-- Two visitors redeem one poster, and one the other token.
redeem_all_bounded_example :
    let (n, rows') = redeem_all "h" (("h", 5) ∷ ("g", 6) ∷ ("h", 7) ∷ []) tokens in
    (r' : QrToken) × (row_of "h" rows' ≡ some r') × (n + 0 ≡ r'.use_count) × (r'.use_count ≤ 1)
redeem_all_bounded_example =
    redeem_all_bounded "h" (("h", 5) ∷ ("g", 6) ∷ ("h", 7) ∷ []) tokens poster
      ((h_ne_g, tt), (tt, tt)) refl (omega arith)

consume_ok_case : is_ok (consume "h" 100 tokens).0 ≡ is_redeemable "h" 100 poster
consume_ok_case = consume_ok "h" 100 tokens poster ((h_ne_g, tt), (tt, tt)) refl

admin_rights_granted_example :
    ((can_write_auth_policy project two_factors (some chief) (some chief_request)).0 ≡ true
      → (has_full_auth_admin_rights project (some chief) ≡ true)
        × (plain_answer project two_factors account (some chief) chief_request ≡ true))
    × ((is_invite_admin_or_superuser project two_factors chief_request).0 ≡ true
        → (has_invite_admin_rights project (some chief) ≡ true)
          × (plain_answer project two_factors account (some chief) chief_request ≡ true))
admin_rights_granted_example =
    admin_rights_granted project two_factors account chief chief_request chief-IsAccount tt refl

two_needed : 2 ≤ get_required_auth_factor_count_for_user project two_factors (some chief)
unfolding get_required_auth_factor_count_for_user is_subject_to_admin_auth_policy
    has_full_auth_admin_rights has_min_level default_auth_policy_write_level flat_default_level
    get_role_level_for_user get_role_code_for_user get_role_level_for_code
two_needed = omega arith

state_agrees_iff_example :
    let state =
      get_user_security_state project two_factors (some chief) (some chief_request) ("totp" ∷ []) in
    (state.requires_additional_security ≡ false) ↔ (
      (has_any_second_factor ("totp" ∷ []) ≡ true)
      × (is_user_security_sufficient project two_factors (some chief) (some chief_request) ≡ true))
state_agrees_iff_example =
    state_agrees_iff project two_factors chief chief_request ("totp" ∷ []) refl two_needed

-- A signing that knows one payload, made at time 5, and one time.
abbrev signed_payload : PendingPayload
signed_payload = record {
  email = "a@x.org";
  mode = "self_signup_open";
  registration_context = "{}";
  access_code = none;
  qr_signup_token = none;
  expiry = some "tomorrow";
}

-- A signing whose token is the second in which it was made.
abbrev read_digits : ℕ → String → ℕ
read_digits n String.[] = n
read_digits n (String.◌∷◌ c s) = read_digits (n * 10 + (code c - 48)) s

abbrev one_token : PendingSigning
one_token = record {
  lower = λ s. s;
  dumps = λ payload made. decimal (made / 1000000);
  loads = λ token age now.
      if leb now (read_digits 0 token * 1000000 + age * 1000000)
      then ok signed_payload
      else err signature_expired;
  isoformat = λ t. if t == 86405000007 then "tomorrow" else "";
  parse_datetime = λ s. if str_eq s "tomorrow" then some 86405000007 else none;
}

decode-create_pending_example :
    let token =
      create_pending_registration_token one_token " a@x.org" "self_signup_open" "{}"
        (some "")
        none
        5000007 in
    let payload =
      pending_payload one_token " a@x.org" "self_signup_open" "{}" (some "") none 5000007 in
    (86404000000 ≤ 86405000000
      → 86404000000 < 86405000007
      → decode_pending_registration_token one_token token 86404000000 ≡ ok payload)
    × (86405000000 < 86404000000 ⊎ 86405000007 ≤ 86404000000
        → decode_pending_registration_token one_token token 86404000000 ≡ err signature_expired)
unfolding create_pending_registration_token strip decimal
decode-create_pending_example =
    decode-create_pending one_token " a@x.org" "self_signup_open" "{}" (some "") none 5000007
      86404000000 refl (λ age time h. ground arith) (λ age time h. ground arith) refl
