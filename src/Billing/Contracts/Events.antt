-- ===== src/Billing/Contracts/Events.antt =====
-- What Stripe reports of refunds: the event of a refund of ours, and the provider's totals
-- (billing/stripe_service.py, billing/contracts.py). The books hold the payments of this app.
use django_core_micha.Billing.Contracts.{
  Books, Refund, Payment, answered, next_status, settle, save_refund, credit_payment, find_refund,
  find_payment, is_closed, is_failed, is_succeeded, RefundStatus, requested, requires_action,
}
use django_core_micha.Base.{
  ℕ, Bool, String, Option, none, some, List, [], ◌∷◌, true, false, not, ◌&&◌, ◌||◌, ◌==◌, ◌-◌, ◌+◌,
  if◌then◌else◌, ltb, str_eq, update_first, update_where, max, min,
}

-- The refund of an event; an amount that is no positive number is 0.
pub record RefundEvent : Type 0 where
  pub amount : ℕ
  pub provider_status : String
  pub is_failure : Bool
  pub payment_intent : String
  pub refund_id : String

abbrev pub event_status : RefundEvent → String
event_status e =
    if str_eq e.provider_status ""
    then (if e.is_failure then "failed" else "pending")
    else e.provider_status

abbrev pub is_waiting : RefundStatus → Bool
is_waiting requested = true
is_waiting requires_action = true
is_waiting _ = false

-- The event does not fit the row; `is_ours` are the checks of the app, the contract and the currency.
abbrev pub is_foreign : (Refund → Bool) → RefundEvent → Refund → Payment → Bool
is_foreign is_ours e r p =
    not (is_ours r)
    || not (str_eq e.payment_intent p.intent)
    || e.amount == 0
    || ltb r.amount_cents e.amount

abbrev pub complete_paid :
    (Refund → Bool) → ℕ → RefundEvent → Books → Refund → Option Payment → Books
complete_paid is_ours k e b r none = b
complete_paid is_ours k e b r (some p) =
    let reply = answered (event_status e) e.refund_id in
    let next = next_status reply in
    if is_foreign is_ours e r p || is_closed r.status || is_failed r.status && is_waiting next
    then b
    else if is_succeeded next
    then credit_payment k e.amount reply b (some p)
    else save_refund k r.payment next (settle reply) b

abbrev pub complete_found : (Refund → Bool) → ℕ → RefundEvent → Books → Option Refund → Books
complete_found is_ours k e b none = b
complete_found is_ours k e b (some r) =
    complete_paid is_ours k e b r (find_payment r.payment b.payments)

-- `complete_contract_refund`, for the row of the event's key.
unfoldable pub complete_contract_refund : (Refund → Bool) → ℕ → RefundEvent → Books → Books
complete_contract_refund is_ours k e b = complete_found is_ours k e b (find_refund k b.refunds)

-- `payment.refunded_cents = max(payment.refunded_cents, refunded)`, from a payment that was read
-- before Stripe was asked.
unfoldable pub raise_refunded : ℕ → ℕ → ℕ → Books → Books
raise_refunded k seen refunded b = record b {
  payments =
      update_first (λ p. p.payment_key == k) (λ p. record p { refunded_cents = max seen refunded })
        b.payments;
}

-- A refund that Stripe has accepted and that is still open here.
abbrev pub is_accepted : ℕ → Refund → Bool
is_accepted payment r =
    r.payment == payment
    && not (is_closed r.status)
    && not (is_failed r.status)
    && not (str_eq r.stripe_refund_id "")

abbrev pub open_ours : ℕ → List Refund → ℕ
open_ours payment [] = 0
open_ours payment (r ∷ refunds) =
    let rest = open_ours payment refunds in
    if is_accepted payment r then r.amount_cents + rest else rest

-- `foreign`, where it is more than what is booked.
abbrev pub with_foreign : List Refund → ℕ → Payment → Payment
with_foreign refunds amount p =
    let foreign = min p.amount_paid_cents (amount - open_ours p.payment_key refunds) in
    if ltb p.refunded_cents foreign then record p { refunded_cents = foreign } else p

unfoldable pub reconcile_provider_refunds : ℕ → String → Books → Books
reconcile_provider_refunds amount payment_intent b = record b {
  payments =
      if str_eq payment_intent "" || amount == 0
      then b.payments
      else update_where (λ p. str_eq p.intent payment_intent) (with_foreign b.refunds amount)
          b.payments;
}
