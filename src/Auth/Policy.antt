-- ===== src/Auth/Policy.antt =====
-- The registration policy: src/django_core_micha/auth/policy.py. `lower` stands for Python's
-- `str.lower`; a value that `int()` may refuse is an `IntInput`.
pub mod Domains
pub mod Signup
pub mod Pending
use Prim.Native.Char.{code}
use django_core_micha.Base.{
  ℕ, suc, ◌+◌, ◌*◌, ◌<◌, String, Bool, true, false, not, ◌&&◌, ◌||◌, Option, none, some, List, [],
  ◌∷◌, ◌++◌, if◌then◌else◌, ltb, leb, ◌==◌, str_eq, contains, max, strip, lstrip_char, has_char,
}
use django_core_micha.Base.Int.{ℤ, pos, negsuc}

-- What `int(value)` gives: a number, or a TypeError or ValueError.
pub data IntInput : Type 0 where
  number : ℤ → IntInput
  refused : IntInput

pub record RegistrationPolicyState : Type 0 where
  pub allow_admin_invite : Bool
  pub allow_self_signup_access_code : Bool
  pub allow_self_signup_open : Bool
  pub allow_self_signup_email_domain : Bool
  pub allow_self_signup_qr : Bool
  pub allowed_email_domains : List String
  pub required_auth_factor_count : ℕ
  pub admin_required_auth_factor_count : ℕ
  pub signup_qr_expiry_days : ℕ
  pub access_code_single_use : Bool

-- `modes.append(m)` under a flag.
abbrev pub when_set : Bool → String → List String → List String
when_set b m modes = if b then m ∷ modes else modes

unfoldable pub signup_modes : RegistrationPolicyState → List String
signup_modes p = when_set p.allow_self_signup_access_code "self_signup_access_code" (
    when_set p.allow_self_signup_open "self_signup_open" (
      when_set p.allow_self_signup_email_domain "self_signup_email_domain"
        (when_set p.allow_self_signup_qr "self_signup_qr" [])))

unfoldable pub two_factor_required : RegistrationPolicyState → Bool
two_factor_required p = leb 2 p.required_auth_factor_count

unfoldable pub admin_two_factor_required : RegistrationPolicyState → Bool
admin_two_factor_required p = leb 2 p.admin_required_auth_factor_count

-- An item of the configured domains: a text, or something else.
pub data Item : Type 0 where
  text : String → Item
  other : Item

-- `AUTH_POLICY` row attributes as they are stored, `none` where the model has no such field.
pub record PolicyRow : Type 0 where
  pub allow_admin_invite : Option Bool
  pub allow_self_signup_access_code : Option Bool
  pub allow_self_signup_open : Option Bool
  pub allow_self_signup_email_domain : Option Bool
  pub allow_self_signup_qr : Option Bool
  pub allowed_email_domains : List Item
  pub required_auth_factor_count : Option IntInput
  pub admin_required_auth_factor_count : Option IntInput
  pub signup_qr_expiry_days : Option IntInput
  pub access_code_single_use : Option Bool

pub record PolicySettings : Type 0 where
  pub access_code_registration_enabled : Bool
  pub enforce_strong_auth : Bool  -- SECURITY_ENFORCE_STRONG_AUTH
  pub default_level_is_strong : Bool  -- SECURITY_DEFAULT_LEVEL, lower-cased, is "strong"
  pub default_signup_qr_expiry_days : Option IntInput

-- `max(1, n)`
abbrev pub at_least_one : ℤ → ℕ
at_least_one (pos n) = max 1 n
at_least_one (negsuc n) = 1

unfoldable pub default_required_factor_count : PolicySettings → ℕ
default_required_factor_count s =
    if s.enforce_strong_auth && s.default_level_is_strong then 2 else 1

-- The fallback constant is 90 days.
unfoldable pub default_expiry_days : PolicySettings → ℕ
default_expiry_days s = elim s.default_signup_qr_expiry_days [
  | none ↦ 90
  | some v ↦ elim v [ number n ↦ at_least_one n | refused ↦ 90 ]
]

unfoldable pub normalize_expiry_days : PolicySettings → IntInput → ℕ
normalize_expiry_days s (number n) = at_least_one n
normalize_expiry_days s refused = default_expiry_days s

abbrev pub two_or_one : ℤ → ℕ
two_or_one (pos n) = if leb 2 n then 2 else 1
two_or_one (negsuc n) = 1

-- `fallback=None` is 1, AUTH_FACTOR_SINGLE.
unfoldable pub normalize_factor_count : IntInput → ℕ → ℕ
normalize_factor_count (number n) fallback = two_or_one n
normalize_factor_count refused fallback = if leb 2 fallback then 2 else 1

abbrev pub flag_or : Option Bool → Bool → Bool
flag_or none d = d
flag_or (some b) d = b

module _ (lower : String → String) where
  -- `item.strip().lower().lstrip("@")`
  unfoldable pub clean_domain : String → String
  clean_domain item = lstrip_char b'@' (lower (strip item))

  -- The loop of `_normalize_domains`; `seen` holds the domains that are out already.
  unfoldable pub normalize_from : List String → List Item → List String
  normalize_from seen [] = []
  normalize_from seen (other ∷ items) = normalize_from seen items
  normalize_from seen (text item ∷ items) =
      let domain = clean_domain item in
      let skipped = normalize_from seen items in
      let kept = normalize_from (domain ∷ seen) items in
      if str_eq domain "" || has_char b'@' domain || contains domain seen
      then skipped
      else domain ∷ kept

  unfoldable pub normalize_domains : List Item → List String
  normalize_domains items = normalize_from [] items

  -- `get_policy_state` without a policy row.
  unfoldable pub state_without_policy : PolicySettings → RegistrationPolicyState
  state_without_policy s = record {
    allow_admin_invite = true;
    allow_self_signup_access_code = s.access_code_registration_enabled;
    allow_self_signup_open = false;
    allow_self_signup_email_domain = false;
    allow_self_signup_qr = false;
    allowed_email_domains = [];
    required_auth_factor_count = default_required_factor_count s;
    admin_required_auth_factor_count = default_required_factor_count s;
    signup_qr_expiry_days = default_expiry_days s;
    access_code_single_use = false;
  }

  -- `get_policy_state` of a policy row. A missing count is 1; a missing admin count is the
  -- required one.
  unfoldable pub state_of_policy : PolicySettings → PolicyRow → RegistrationPolicyState
  state_of_policy s p =
      let required : ℕ = elim p.required_auth_factor_count [
        | none ↦ 1
        | some v ↦ normalize_factor_count v 1
      ] in
      record {
        allow_admin_invite = flag_or p.allow_admin_invite true;
        allow_self_signup_access_code = flag_or p.allow_self_signup_access_code false;
        allow_self_signup_open = flag_or p.allow_self_signup_open false;
        allow_self_signup_email_domain = flag_or p.allow_self_signup_email_domain false;
        allow_self_signup_qr = flag_or p.allow_self_signup_qr false;
        allowed_email_domains = normalize_domains p.allowed_email_domains;
        required_auth_factor_count = required;
        admin_required_auth_factor_count = elim p.admin_required_auth_factor_count [
          | none ↦ required
          | some v ↦ normalize_factor_count v required
        ];
        signup_qr_expiry_days = elim p.signup_qr_expiry_days [
          | none ↦ default_expiry_days s
          | some v ↦ normalize_expiry_days s v
        ];
        access_code_single_use = flag_or p.access_code_single_use false;
      }

  -- `get_policy_state(policy)`, the row having been looked up.
  unfoldable pub get_policy_state : PolicySettings → Option PolicyRow → RegistrationPolicyState
  get_policy_state s none = state_without_policy s
  get_policy_state s (some p) = state_of_policy s p

-- `after_last_at t s`: what follows the last "@" of `s`, `t` if it has none.
unfoldable pub after_last_at : String → String → String
after_last_at t String.[] = t
after_last_at t (String.◌∷◌ c s) = after_last_at (if code c == b'@' then s else t) s

abbrev pub as_items : List String → List Item
as_items [] = []
as_items (d ∷ ds) = text d ∷ as_items ds

unfoldable pub is_allowed_email_domain : (String → String) → String → List String → Bool
is_allowed_email_domain lower email allowed =
    if not (has_char b'@' email)
    then false
    else contains (lower (strip (after_last_at email email)))
        (normalize_domains lower (as_items allowed))

unfoldable pub is_valid_signup_mode : String → Bool
is_valid_signup_mode mode = contains mode (
    "self_signup_access_code" ∷ "self_signup_open" ∷ "self_signup_email_domain" ∷ "self_signup_qr"
    ∷ [])

-- `mode_requires_access_code`, `mode_requires_email_domain` and `mode_requires_qr_token`
unfoldable pub mode_requires_access_code : String → Bool
mode_requires_access_code mode = str_eq mode "self_signup_access_code"

unfoldable pub mode_requires_email_domain : String → Bool
mode_requires_email_domain mode = str_eq mode "self_signup_email_domain"

unfoldable pub mode_requires_qr_token : String → Bool
mode_requires_qr_token mode = str_eq mode "self_signup_qr"
