-- ===== src/Auth/Policy/Pending.antt =====
-- Pending registrations, which leave no row until they are confirmed (auth/policy.py). Signing and
-- the text form of a time are parameters; a time is a number of microseconds.
use django_core_micha.Base.{
  ℕ, ◌+◌, ◌*◌, ◌<◌, ◌≤◌, ◌≡◌, String, false, Option, none, some, if◌then◌else◌, leb, str_eq, strip,
  arith, ◌/◌, ◌⊎◌, inl, inr, refl, Bool-cases,
}
use django_core_micha.Auth.Policy.Signup.{bad_signature, signature_expired, Outcome, ok, err}

-- The signed payload; `registration_context` is passed through as a text.
pub record PendingPayload : Type 0 where
  pub email : String
  pub mode : String
  pub registration_context : String
  pub access_code : Option String
  pub qr_signup_token : Option String
  pub expiry : Option String  -- the entry `expires_at`, where it is a text

pub record PendingSigning : Type 0 where
  pub lower : String → String
  pub dumps : PendingPayload → ℕ → String  -- at a time, which the token carries
  pub loads : String → ℕ → ℕ → Outcome PendingPayload  -- the token, `max_age` in seconds, the time
  pub isoformat : ℕ → String
  pub parse_datetime : String → Option ℕ

abbrev pub pending_max_age_seconds : ℕ
pending_max_age_seconds = 24 * 60 * 60

-- `value or None`
abbrev pub or_none : Option String → Option String
or_none none = none
or_none (some s) = if str_eq s "" then none else some s

le_or_lt : (a b : ℕ) → (a ≤ b) ⊎ (b < a)
le_or_lt a b = elim (Bool-cases (leb a b)) [
  | inl t ↦ inl (ground arith)
  | inr f ↦ inr (ground arith)
]

module _ (sg : PendingSigning) where
  open sg use {lower, dumps, loads, isoformat, parse_datetime}

  abbrev pub pending_payload :
      String → String → String → Option String → Option String → ℕ → PendingPayload
  pending_payload email mode context access_code qr now = record {
    email = lower (strip email);
    mode = mode;
    registration_context = context;
    access_code = or_none access_code;
    qr_signup_token = or_none qr;
    expiry = some (isoformat (now + pending_max_age_seconds * 1000000));
  }

  unfoldable pub create_pending_registration_token :
      String → String → String → Option String → Option String → ℕ → String
  create_pending_registration_token email mode context access_code qr now =
      dumps (pending_payload email mode context access_code qr now) now

  unfoldable pub decode_pending_registration_token : String → ℕ → Outcome PendingPayload
  decode_pending_registration_token token now =
      if str_eq token ""
      then err bad_signature
      else elim (loads token pending_max_age_seconds now) [
        | err e ↦ err e
        | ok payload ↦ elim payload.expiry [
          | none ↦ err bad_signature
          | some raw ↦ elim (parse_datetime raw) [
            | none ↦ err bad_signature
            | some expires_at ↦ if leb expires_at now then err signature_expired else ok payload
          ]
        ]
      ]

  -- Where the signing makes a token that is not empty, gives the payload back until `max_age`
  -- seconds after the second in which it was made, and says that it is expired from then on, and
  -- where the expiry is read back as it was written: a token of a pending registration gives back
  -- what was signed for 24 hours from that second, as long as 24 hours have not passed since it was
  -- made, and it is expired otherwise.
  pub decode-create_pending :
      (email mode context : String) (access_code qr : Option String) (made now : ℕ)
      → let token = create_pending_registration_token email mode context access_code qr made in
        let payload = pending_payload email mode context access_code qr made in
        let last : ℕ → ℕ = λ age. made / 1000000 * 1000000 + age * 1000000 in
        str_eq token "" ≡ false
        → ((age time : ℕ) → time ≤ last age → loads token age time ≡ ok payload)
        → ((age time : ℕ) → last age < time → loads token age time ≡ err signature_expired)
        → parse_datetime (isoformat (made + 86400000000)) ≡ some (made + 86400000000)
        → (now ≤ last 86400
            → now < made + 86400000000
            → decode_pending_registration_token token now ≡ ok payload)
          × (last 86400 < now ⊎ made + 86400000000 ≤ now
              → decode_pending_registration_token token now ≡ err signature_expired)
  unfolding decode_pending_registration_token
  decode-create_pending email mode context access_code qr made now given in_time too_old parsed = (
    λ fresh young. rw (given, in_time 86400 now fresh, parsed) (ground arith),
    λ late. elim (le_or_lt now (made / 1000000 * 1000000 + 86400000000)) [
      | inr old ↦ rw (given, too_old 86400 now (omega arith)) refl
      | inl fresh ↦
          let passed : made + 86400000000 ≤ now = ground arith in
          rw (given, in_time 86400 now (omega arith), parsed) (ground arith)
    ],
  )
