-- ===== src/Billing/Refund.antt =====
-- A purchase, who may withdraw from it, and what is refunded: the first half of
-- src/django_core_micha/billing/withdrawal.py, over the row Purchase of billing/models.py and the token
-- ledger. A time is a number of microseconds.
pub mod Bounds
use django_core_micha.Base.{
  ℕ, ◌+◌, ◌-◌, ◌*◌, ◌/◌, min, max, String, Bool, true, false, not, ◌&&◌, ◌||◌, Option, none, some,
  List, [], ◌∷◌, if◌then◌else◌, ltb, ◌==◌, contains, select, any_where,
}
use django_core_micha.Base.Int.{ℤ, pos, pos_part, neg_part}
use django_core_micha.Billing.Ledger.{
  TokenEntry, TokenAccount, Ledger, user, team_package, same_owner, grant, purchase, expiry,
  same_kind, left_of, find_reference,
}
use django_core_micha.Billing.Tokens.{expiry_reference}

pub data PurchaseKind : Type 0 where
  subscription team_purchase token_purchase : PurchaseKind

pub data Status : Type 0 where
  active withdrawn : Status

-- A row of Purchase, without the plan's name and the parts of the confirmation mail.
pub record Purchase : Type 0 where
  pub pk : ℕ
  pub user_id : ℕ
  pub kind : PurchaseKind
  -- the team package with this purchase's Stripe object, if there is one
  pub team : Option ℕ
  pub stripe_payment_intent_id : String
  pub amount_paid_cents : ℕ
  pub billing_country : String
  pub has_business_tax_id : Bool
  pub purchased_at : ℕ
  pub term_start : Option ℕ
  pub term_end : Option ℕ
  pub grant_references : List String
  pub tokens_granted : ℕ
  pub status : Status
  pub withdrawn_at : Option ℕ
  pub refund_cents : Option ℕ
  pub stripe_refund_id : String

abbrev pub eu_eea_countries : List String
eu_eea_countries =
    "AT" ∷ "BE" ∷ "BG" ∷ "HR" ∷ "CY" ∷ "CZ" ∷ "DK" ∷ "EE" ∷ "FI" ∷ "FR" ∷ "DE" ∷ "GR" ∷ "HU" ∷ "IE"
    ∷ "IT" ∷ "LV" ∷ "LT" ∷ "LU" ∷ "MT" ∷ "NL" ∷ "PL" ∷ "PT" ∷ "RO" ∷ "SK" ∷ "SI" ∷ "ES" ∷ "SE"
    ∷ "IS" ∷ "LI" ∷ "NO" ∷ []

pub data Reason : Type 0 where
  withdrawal_disabled not_active country_not_eligible business_purchase period_over : Reason
  payment_reference_missing : Reason

abbrev pub day : ℕ
day = 86400000000

abbrev pub is_active : Status → Bool
is_active active = true
is_active withdrawn = false

-- `eligibility`: the reason against a withdrawal, `none` where there is none.
unfoldable pub eligibility : Bool → Purchase → ℕ → Option Reason
eligibility enabled p now =
    if not enabled
    then some withdrawal_disabled
    else if not (is_active p.status)
    then some not_active
    else if not (contains p.billing_country eu_eea_countries)
    then some country_not_eligible
    else if p.has_business_tax_id
    then some business_purchase
    else if ltb (14 * day) (now - p.purchased_at)
    then some period_over
    else none

pub record RefundCalculation : Type 0 where
  pub time_share_cents : ℕ
  pub token_share_cents : ℕ
  pub used_cents : ℤ
  pub refund_cents : ℕ

-- `(n + d - 1) // d if n else 0`
abbrev pub ceil_div : ℕ → ℕ → ℕ
ceil_div n d = if n == 0 then 0 else (n + d - 1) / d

-- `ceil(max(0, t - s) / 86400)` days
abbrev pub days_between : ℕ → ℕ → ℕ
days_between s t = (t - s + day - 1) / day

-- The share of the term that has begun.
abbrev pub term_share : Option ℕ → Option ℕ → ℕ → ℕ → ℕ
term_share none t amount now = 0
term_share (some s) none amount now = 0
term_share (some s) (some t) amount now =
    let term_days = max 1 (days_between s t) in
    let used_days = min term_days (days_between s now) in ceil_div (used_days * amount) term_days

-- The branches for a term with and without tokens compute the same share.
unfoldable pub time_share : Purchase → ℕ → ℕ
time_share p now = elim p.kind [
  | token_purchase ↦ 0
  | subscription ↦ term_share p.term_start p.term_end p.amount_paid_cents now
  | team_purchase ↦ term_share p.term_start p.term_end p.amount_paid_cents now
]

abbrev pub owns : Purchase → TokenAccount → Bool
owns p a = elim p.kind [
  | team_purchase ↦ elim p.team [ none ↦ false | some t ↦ same_owner a.owner (team_package t) ]
  | subscription ↦ same_owner a.owner (user p.user_id)
  | token_purchase ↦ same_owner a.owner (user p.user_id)
]

-- `_owner_accounts`, asked of an account by its key.
unfoldable pub is_owner_account : Purchase → List TokenAccount → ℕ → Bool
is_owner_account p accounts a = any_where (λ row. row.account_pk == a && owns p row) accounts

-- The credits that the purchase granted.
abbrev pub is_granted : Purchase → List TokenAccount → TokenEntry → Bool
is_granted p accounts e =
    contains e.reference p.grant_references
    && (same_kind e.kind grant || same_kind e.kind purchase)
    && is_owner_account p accounts e.account

-- What the expiry of a grant took.
unfoldable pub expired_tokens : TokenEntry → List TokenEntry → ℕ
expired_tokens e rows = elim (find_reference e.account expiry (expiry_reference e.pk) rows) [
  | none ↦ 0
  | some x ↦ neg_part x.amount
]

unfoldable pub consumed_tokens : List TokenEntry → List TokenEntry → ℕ
consumed_tokens [] rows = 0
consumed_tokens (e ∷ entries) rows =
    pos_part e.amount - left_of e - expired_tokens e rows + consumed_tokens entries rows

unfoldable pub token_share : Purchase → Ledger → ℕ
token_share p db =
    let consumed = consumed_tokens (select (is_granted p db.accounts) db.entries) db.entries in
    if p.tokens_granted == 0
    then 0
    else ceil_div (min p.tokens_granted consumed * p.amount_paid_cents) p.tokens_granted

unfoldable pub refund_amount : Purchase → Ledger → ℕ → RefundCalculation
refund_amount p db now =
    let used = min p.amount_paid_cents (max (time_share p now) (token_share p db)) in
    record {
      time_share_cents = time_share p now;
      token_share_cents = token_share p db;
      used_cents = pos used;
      refund_cents = p.amount_paid_cents - used;
    }
