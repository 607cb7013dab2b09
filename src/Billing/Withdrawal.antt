-- ===== src/Billing/Withdrawal.antt =====
-- The effects of the consumer's withdrawal from a purchase: `withdraw` and `complete_withdrawal` of
-- src/django_core_micha/billing/withdrawal.py. Stripe is a parameter: whether it cancels the
-- subscription, and the id of the refund it makes. Each function holds the lock on the purchase, and
-- is one step.
pub mod Completion
mod Tests
use django_core_micha.Billing.Refund.{
  Purchase, PurchaseKind, Reason, RefundCalculation, eligibility, is_active, is_granted,
  payment_reference_missing, refund_amount, subscription, team_purchase, token_purchase, withdrawn,
}
use django_core_micha.Base.{
  ℕ, ◌+◌, String, Bool, true, false, not, ◌&&◌, Option, none, some, List, [], ◌∷◌, ◌++◌,
  if◌then◌else◌, ltb, ◌==◌, str_eq, select, decimal,
}
use django_core_micha.Base.Int.{neg, sub_ℕ}
use django_core_micha.Billing.Ledger.{
  TokenEntry, TokenAccount, Ledger, expiry, left_of, get_or_create,
}
use django_core_micha.Billing.Tokens.{set_remaining}

-- The columns of a Subscription row that a withdrawal writes.
pub record SubscriptionRow : Type 0 where
  pub is_canceled : Bool
  pub ended_at : Option ℕ
  pub current_period_end : Option ℕ
  pub cancel_at_period_end : Bool

-- The purchase, its subscription's row, the end of its team package, and the ledger.
pub record Store : Type 0 where
  pub bought : Purchase
  pub subscription_row : Option SubscriptionRow
  pub team_ends_at : Option ℕ
  pub ledger : Ledger

-- The credits that still hold tokens, as the loop of `complete_withdrawal` finds them.
abbrev pub has_left : Purchase → List TokenAccount → TokenEntry → Bool
has_left p accounts e = is_granted p accounts e && ltb 0 (left_of e)

abbrev pub withdrawal_reference : ℕ → ℕ → String
withdrawal_reference p e =
    Prim.Native.String.◌++◌ "withdrawal:"
      (Prim.Native.String.◌++◌ (decimal p) (Prim.Native.String.◌++◌ ":" (decimal e)))

-- One round of that loop.
unfoldable pub void_credit : String → ℕ → ℕ → TokenEntry → Ledger → Ledger
void_credit app p now e db =
    let row : TokenEntry = record {
      pk = 0;
      account = e.account;
      kind = expiry;
      amount = neg (left_of e);
      expires_at = none;
      remaining = none;
      purpose = "withdrawal";
      reference = withdrawal_reference p e.pk;
      app = app;
      created_at = now;
    } in
    (get_or_create row (record db { entries = set_remaining e.pk 0 db.entries })).1

unfoldable pub void_credits : String → ℕ → ℕ → List TokenEntry → Ledger → Ledger
void_credits app p now [] db = db
void_credits app p now (e ∷ entries) db =
    void_credits app p now entries (void_credit app p now e db)

-- What a withdrawal gives: the calculation, and whether the purchase was withdrawn before; a reason
-- against it; or an error of Stripe, after which nothing is kept.
pub data Outcome : Type 0 where
  done : RefundCalculation → Bool → Outcome
  refused : Reason → Outcome
  stripe_error : Outcome

abbrev pub refunded : Purchase → ℕ
refunded p = elim p.refund_cents [ none ↦ 0 | some n ↦ n ]

-- `RefundCalculation(0, 0, amount_paid_cents - refund, refund)`
abbrev pub calculation_of : Purchase → ℕ → RefundCalculation
calculation_of p n = record {
  time_share_cents = 0;
  token_share_cents = 0;
  used_cents = sub_ℕ p.amount_paid_cents n;
  refund_cents = n;
}

-- The subscription is over; other purchases have none.
abbrev pub end_subscription : ℕ → Option SubscriptionRow → Option SubscriptionRow
end_subscription now none = none
end_subscription now (some row) = some (record {
  is_canceled = true;
  ended_at = some now;
  current_period_end = some now;
  cancel_at_period_end = false;
})

abbrev pub end_team : ℕ → Option ℕ → Option ℕ
end_team now none = none
end_team now (some t) = some now

-- Whether Stripe's cancellation is needed and fails.
abbrev pub cancel_fails : PurchaseKind → Bool → Bool
cancel_fails subscription cancels = not cancels
cancel_fails team_purchase cancels = false
cancel_fails token_purchase cancels = false

abbrev pub calculation_or : Option RefundCalculation → RefundCalculation → RefundCalculation
calculation_or none d = d
calculation_or (some c) d = c

-- The local effects on an active purchase.
unfoldable pub complete : String → ℕ → ℕ → String → Store → Store
complete app now cents refund_id st =
    let p = st.bought in
    record {
      bought = record p {
        status = withdrawn;
        withdrawn_at = some now;
        refund_cents = some cents;
        stripe_refund_id = refund_id;
      };
      subscription_row = elim p.kind [
        | subscription ↦ end_subscription now st.subscription_row
        | team_purchase ↦ st.subscription_row
        | token_purchase ↦ st.subscription_row
      ];
      team_ends_at = elim p.kind [
        | subscription ↦ st.team_ends_at
        | team_purchase ↦ end_team now st.team_ends_at
        | token_purchase ↦ st.team_ends_at
      ];
      ledger =
          void_credits app p.pk now (select (has_left p st.ledger.accounts) st.ledger.entries)
            st.ledger;
    }

-- `complete_withdrawal`; `cancels` tells whether Stripe cancels the subscription, or answers that it
-- is canceled or gone.
unfoldable pub complete_withdrawal :
    String → Bool → ℕ → ℕ → String → Option RefundCalculation → Store → Outcome × Store
complete_withdrawal app cancels now cents refund_id calc st =
    let p = st.bought in
    if not (is_active p.status)
    then (done (calculation_or calc (calculation_of p (refunded p))) true, st)
    else if cancel_fails p.kind cancels
    then (stripe_error, st)
    else (
      done (calculation_or calc (calculation_of p cents)) false,
      complete app now cents refund_id st,
    )

-- `withdraw`; `refund` is the id of Stripe's refund, `none` where the call raises.
unfoldable pub withdraw : Bool → String → Bool → Option String → ℕ → Store → Outcome × Store
withdraw enabled app cancels refund now st =
    let p = st.bought in
    let calc = refund_amount p st.ledger now in
    if not (is_active p.status)
    then (done (calculation_of p (refunded p)) true, st)
    else elim (eligibility enabled p now) [
      | some reason ↦ (refused reason, st)
      | none ↦
          if calc.refund_cents == 0
          then complete_withdrawal app cancels now 0 "" (some calc) st
          else if str_eq p.stripe_payment_intent_id ""
          then (refused payment_reference_missing, st)
          else elim refund [
            | none ↦ (stripe_error, st)
            | some id ↦ complete_withdrawal app cancels now calc.refund_cents id (some calc) st
          ]
    ]
