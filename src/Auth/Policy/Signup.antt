-- ===== src/Auth/Policy/Signup.antt =====
-- Signup-context tokens and their use counter (auth/policy.py). Signing, hashing and the text form
-- of a time are parameters; a time is a number of microseconds. The token table is the list of its
-- rows, and the conditional UPDATE of a redemption is one step.
pub mod Redeem
use django_core_micha.Base.{
  ℕ, suc, ◌+◌, ◌*◌, String, Bool, true, false, not, ◌&&◌, Option, none, some, List, [], ◌∷◌, ◌++◌,
  if◌then◌else◌, ltb, leb, str_eq, max, strip, first_where, any_where,
}
use django_core_micha.Base.Int.{ℤ}
use django_core_micha.Auth.Policy.{RegistrationPolicyState, at_least_one}

pub record QrToken : Type 0 where
  pub token_hash : String
  pub use_count : ℕ
  pub max_redemptions : ℕ
  pub expires_at : ℕ

-- The signed payload; `registration_context` is passed through as a text.
pub record Payload : Type 0 where
  pub mode : String
  pub label : String
  pub expiry : Option String  -- the entry `expires_at`, where it is a text
  pub registration_context : String

pub data SignError : Type 0 where
  bad_signature signature_expired : SignError

pub data Outcome (A : Type 0) : Type 0 where
  ok : A → Outcome A
  err : SignError → Outcome A

-- Django's signing and date parsing, and the token hash.
pub record Signing : Type 0 where
  pub dumps : Payload → String
  pub loads : String → ℕ → Outcome Payload  -- the token and `max_age` in seconds
  pub hash_token : String → String
  pub isoformat : ℕ → String
  pub parse_datetime : String → Option ℕ

abbrev pub minute : ℕ
minute = 60000000

-- The lifetime in minutes: the policy's days, or the caller's minutes.
abbrev pub lifetime_minutes : RegistrationPolicyState → Option ℤ → ℕ
lifetime_minutes p none = p.signup_qr_expiry_days * 24 * 60
lifetime_minutes p (some m) = at_least_one m

-- `max_age` of `decode_signup_context_token`, in seconds; `none` where no policy row is found.
abbrev pub max_age : Option RegistrationPolicyState → ℕ
max_age none = 60 * 60 * 24 * 365
max_age (some p) = max p.signup_qr_expiry_days 1 * 86400

module _ (sg : Signing) where
  open sg use {dumps, loads, hash_token, isoformat, parse_datetime}

  -- The token table is `none` where no model is configured. `stored` tells whether the row could
  -- be written: a failure leaves the token usable, without a counter.
  unfoldable pub create_signup_context_token :
      RegistrationPolicyState
      → String
      → String
      → Option ℤ
      → ℤ
      → Bool
      → ℕ
      → Option (List QrToken)
      → String × Option (List QrToken)
  create_signup_context_token p context label expires_minutes max_redemptions stored now table =
      let expires_at = now + lifetime_minutes p expires_minutes * minute in
      let payload : Payload = record {
        mode = "self_signup_qr";
        label = strip label;
        expiry = some (isoformat expires_at);
        registration_context = context;
      } in
      let token = dumps payload in
      (
        token,
        elim table [
          | none ↦ none
          | some rows ↦
              if stored
              then some (
                  rows
                  ++ record {
                    token_hash = hash_token token;
                    use_count = 0;
                    max_redemptions = at_least_one max_redemptions;
                    expires_at = expires_at;
                  }
                    ∷ [])
              else some rows
        ],
      )

  abbrev pub find_row : String → List QrToken → Option QrToken
  find_row h = first_where (λ r. str_eq r.token_hash h)

  -- The check of the row; a missing row is allowed.
  unfoldable pub check_row : ℕ → Payload → Option QrToken → Outcome Payload
  check_row now payload none = ok payload
  check_row now payload (some r) =
      if leb r.expires_at now
      then err signature_expired
      else if leb r.max_redemptions r.use_count
      then err signature_expired
      else ok payload

  unfoldable pub decode_signup_context_token :
      Option RegistrationPolicyState → String → ℕ → Option (List QrToken) → Outcome Payload
  decode_signup_context_token p token now table =
      if str_eq token "" then err bad_signature else elim (loads token (max_age p)) [
        | err e ↦ err e
        | ok payload ↦ elim payload.expiry [
          | none ↦ err bad_signature
          | some raw ↦ elim (parse_datetime raw) [
            | none ↦ err bad_signature
            | some expires_at ↦ if leb expires_at now then err signature_expired else elim table [
              | none ↦ ok payload
              | some rows ↦ check_row now payload (find_row (hash_token token) rows)
            ]
          ]
        ]
      ]

-- The condition of the UPDATE.
abbrev pub is_redeemable : String → ℕ → QrToken → Bool
is_redeemable h now r =
    str_eq r.token_hash h && ltb r.use_count r.max_redemptions && ltb now r.expires_at

abbrev pub redeem_row : String → ℕ → QrToken → QrToken
redeem_row h now r = if is_redeemable h now r then record r { use_count = suc r.use_count } else r

unfoldable pub redeem_rows : String → ℕ → List QrToken → List QrToken
redeem_rows h now [] = []
redeem_rows h now (r ∷ rows) = redeem_row h now r ∷ redeem_rows h now rows

-- `consume_signup_context_token` on a configured table, by the hash of the token.
unfoldable pub consume : String → ℕ → List QrToken → Outcome (Unit {0}) × List QrToken
consume h now rows =
    if any_where (is_redeemable h now) rows then (ok tt, redeem_rows h now rows) else (
      (if any_where (λ r. str_eq r.token_hash h) rows then err signature_expired else ok tt),
      redeem_rows h now rows,
    )
