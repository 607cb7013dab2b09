-- ===== src/Auth/AdminMfa.antt =====
-- The middleware that asks for a second factor before the admin:
-- src/django_core_micha/auth/admin_mfa_middleware.py. The URL resolver and allauth's stores are
-- read through their outcomes, which are arguments here.
pub mod Gate
use django_core_micha.Base.{
  String, Bool, true, false, not, ◌&&◌, ◌||◌, Option, none, some, List, [], ◌∷◌, if◌then◌else◌,
  str_eq, contains, any_where,
}
use django_core_micha.Auth.Roles.{User}

-- What `resolve` gives: the application namespaces of the match, no route (or no URL conf), or any
-- other exception.
pub data Resolution : Type 0 where
  routed : List String → Resolution
  no_route : Resolution
  resolver_error : Resolution

-- One authentication record of the session: a value that is no dict, or the entries `method` and
-- `type` of a dict where they are texts.
pub data AuthRecord : Type 0 where
  not_a_dict : AuthRecord
  record_of : Option String → Option String → AuthRecord

-- What `get_authentication_records` gives.
pub data Records : Type 0 where
  listed : List AuthRecord → Records
  not_a_list : Records
  records_error : Records

-- What the query for the user's authenticators gives: their types, or an exception.
pub data Authenticators : Type 0 where
  enrolled : List String → Authenticators
  store_error : Authenticators

pub record AdminRequest : Type 0 where
  pub user : Option User
  pub path_is_admin : Bool  -- `path_info.startswith("/admin/")`
  pub resolution : Resolution
  pub records : Records
  pub authenticators : Authenticators

pub record MfaSettings : Type 0 where
  pub admin_mfa_required : Bool
  pub is_local : Bool

pub data Response : Type 0 where
  not_enrolled not_used passed : Response

abbrev pub text_is : String → Option String → Bool
text_is t none = false
text_is t (some u) = str_eq u t

-- A record of a login with TOTP or WebAuthn.
abbrev pub is_mfa_record : AuthRecord → Bool
is_mfa_record not_a_dict = false
is_mfa_record (record_of method type_) =
    text_is "mfa" method && (text_is "totp" type_ || text_is "webauthn" type_)

abbrev has_key : User → Bool
has_key u = elim u.pk [ none ↦ false | some k ↦ true ]

unfoldable pub session_used_mfa : AdminRequest → Bool
session_used_mfa r = elim r.user [
  | none ↦ false
  | some u ↦
      if not u.is_authenticated then false else if not (has_key u) then false else elim r.records [
        | listed records ↦ any_where is_mfa_record records
        | not_a_list ↦ false
        | records_error ↦ false
      ]
]

unfoldable pub is_admin_request : AdminRequest → Bool
is_admin_request r = if r.path_is_admin then true else elim r.resolution [
  | routed names ↦ contains "admin" names
  | no_route ↦ false
  | resolver_error ↦ true
]

unfoldable pub needs_mfa_check : MfaSettings → AdminRequest → Bool
needs_mfa_check s r =
    if not s.admin_mfa_required then false else if s.is_local then false else elim r.user [
      | none ↦ false
      | some u ↦
          if not u.is_authenticated
          then false
          else if not (u.is_superuser || u.is_staff)
          then false
          else is_admin_request r
    ]

-- `_has_mfa`, with the exception handler of `__call__`.
unfoldable pub has_mfa : Authenticators → Bool
has_mfa (enrolled types) = any_where (λ t. not (str_eq t "recovery_codes")) types
has_mfa store_error = false

-- `__call__`: `passed` hands the request on.
unfoldable pub call : MfaSettings → AdminRequest → Response
call s r =
    if needs_mfa_check s r
    then if not (has_mfa r.authenticators)
      then not_enrolled
      else if not (session_used_mfa r)
      then not_used
      else passed
    else passed
