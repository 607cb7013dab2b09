-- ===== src/Auth/AdminMfa/Gate.antt =====
-- What the admin gate lets through (auth/admin_mfa_middleware.py).
use mathlib.Core.Option.{none}
use django_core_micha.Auth.AdminMfa.{
  call, needs_mfa_check, has_mfa, MfaSettings, session_used_mfa, AdminRequest, is_admin_request,
  Authenticators, User, String, AuthRecord, false, enrolled, listed, passed, some, record_of, not,
  resolver_error, str_eq, is_mfa_record, routed, contains, store_error, not_a_dict,
}
use django_core_micha.Base.{
  Bool, true, List, [], ◌∷◌, ◌≡◌, refl, inl, inr, any_where, Bool-cases, arith, ◌≢◌, ◌⊎◌, eq_iff,
  ap,
}
use mathlib.Core.List.{Memᴰ}

-- A test that holds somewhere holds of a member.
any_where-Memᴰ {ℓ} :
    {A : Type ℓ} (p : A → Bool) (xs : List A)
    → any_where p xs ≡ true
    → (x : A) × Memᴰ x xs × (p x ≡ true)
any_where-Memᴰ p [] h = cc
any_where-Memᴰ p (x ∷ xs) h = elim (Bool-cases (p x)) [
  | inl t ↦ (x, Memᴰ.head refl, t)
  | inr f ↦ let (y, m, t) = any_where-Memᴰ p xs (rw f at h) in (y, Memᴰ.tail m, t)
]

-- The requests that the gate is about: the check is required and the environment is not local, the
-- user is an authenticated superuser or staff member, and the request is routed to an admin site
-- or may be.
abbrev pub IsGated : MfaSettings → AdminRequest → User → Type 0
IsGated s r u =
    (s.admin_mfa_required ≡ true)
    × (s.is_local ≡ false)
    × (r.user ≡ some u)
    × (u.is_authenticated ≡ true)
    × ((u.is_superuser ≡ true) ⊎ (u.is_staff ≡ true))
    × ((r.path_is_admin ≡ true)
        ⊎ (r.resolution ≡ resolver_error)
        ⊎ ((names : List String) × (r.resolution ≡ routed names) × (contains "admin" names ≡ true)))

needs_mfa_check-IsGated :
    (s : MfaSettings) (r : AdminRequest) (u : User) → IsGated s r u → needs_mfa_check s r ≡ true
unfolding needs_mfa_check is_admin_request
needs_mfa_check-IsGated s r u h = ground arith

has_mfa_sound :
    (a : Authenticators)
    → has_mfa a ≡ true
    → (types : List String) × (t : String) × (a ≡ enrolled types)
      × Memᴰ t types
      × (t ≢ "recovery_codes")
unfolding has_mfa
has_mfa_sound store_error h = cc
has_mfa_sound (enrolled types) h =
    let (t, m, p) = any_where-Memᴰ (λ t. not (str_eq t "recovery_codes")) types h in
    (types, t, refl, m, ground (arith, eq_iff t "recovery_codes"))

mfa_record_sound :
    (rec : AuthRecord)
    → is_mfa_record rec ≡ true
    → (type_ : String) × (rec ≡ record_of (some "mfa") (some type_))
      × ((type_ ≡ "totp") ⊎ (type_ ≡ "webauthn"))
mfa_record_sound not_a_dict h = cc
mfa_record_sound (record_of none t) h = cc
mfa_record_sound (record_of (some m) none) h = ground arith
mfa_record_sound (record_of (some m) (some t)) h = (
  t,
  ap (λ x. record_of (some x) (some t)) ((eq_iff m "mfa").0 (ground arith)),
  ground (arith, eq_iff t "totp", eq_iff t "webauthn"),
)

session_records :
    (r : AdminRequest)
    → session_used_mfa r ≡ true
    → (records : List AuthRecord) × (r.records ≡ listed records)
      × (any_where is_mfa_record records ≡ true)
unfolding session_used_mfa
session_records r h = ground arith

session_used_mfa_sound :
    (r : AdminRequest)
    → session_used_mfa r ≡ true
    → (records : List AuthRecord) × (type_ : String) × (r.records ≡ listed records)
      × Memᴰ (record_of (some "mfa") (some type_)) records
      × ((type_ ≡ "totp") ⊎ (type_ ≡ "webauthn"))
session_used_mfa_sound r h =
    let (records, found, used) = session_records r h in
    let (rec, m, p) = any_where-Memᴰ is_mfa_record records used in
    let (type_, same, kind) = mfa_record_sound rec p in (records, type_, found, rw (← same) m, kind)

-- Where the check is required outside a local environment, a request of an authenticated superuser
-- or staff member that is routed to an admin site, or for which the resolver fails, gets through
-- only if the user has an authenticator other than recovery codes and the session has a record of
-- an MFA login by TOTP or WebAuthn.
pub gate_passed :
    (s : MfaSettings) (r : AdminRequest) (u : User)
    → IsGated s r u
    → call s r ≡ passed
    → ((types : List String) × (t : String) × (r.authenticators ≡ enrolled types)
        × Memᴰ t types
        × (t ≢ "recovery_codes"))
      × ((records : List AuthRecord) × (type_ : String) × (r.records ≡ listed records)
          × Memᴰ (record_of (some "mfa") (some type_)) records
          × ((type_ ≡ "totp") ⊎ (type_ ≡ "webauthn")))
unfolding call
gate_passed s r u g h =
    let gated = needs_mfa_check-IsGated s r u g in
    (has_mfa_sound r.authenticators (ground arith), session_used_mfa_sound r (ground arith))
