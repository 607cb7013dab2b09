-- ===== src/Billing/Contracts/Steps.antt =====
-- The transactions on refunds as steps of any process, and what they book (billing/contracts.py,
-- billing/stripe_service.py).
pub mod Sums
pub mod Balance
use django_core_micha.Billing.Contracts.Events.{
  RefundEvent, complete_contract_refund, is_foreign, raise_refunded, event_status,
  reconcile_provider_refunds,
}
use mathlib.Core.Option.{none, some-injective}
use mathlib.Core.List.{[]}
use django_core_micha.Billing.Contracts.{
  Books, save_refund, Refund, begin_refund, Payment, RefundStatus, miss_reference, find_payment,
  find_refund, Reply, is_succeeded, settle_refund, retire_refund, refund_row, is_open,
  is_other_open, credit_payment, settle, succeeded, open_or_new, is_closed, pending, failed,
  next_status, is_failed, is_definite, cancelled, capped, answered,
}
use django_core_micha.Base.{
  ℕ, List, Option, ◌∷◌, Bool, ◌+◌, if◌then◌else◌, some, ◌≡◌, first_where, ◌==◌, update_first, ◌&&◌,
  none-ne-some, false, sym, Bool-cases, inl, subst, any_where, arith, inr, refl, true,
  first_where-passes, ◌++◌, Option-cases, ◌-◌, not, String,
}

-- What a succeeded row gives back of a payment.
abbrev pub given_back : ℕ → Refund → ℕ
given_back p r = if r.payment == p && is_succeeded r.status then r.amount_cents else 0

abbrev pub total_back : ℕ → List Refund → ℕ
total_back p [] = 0
total_back p (r ∷ refunds) = given_back p r + total_back p refunds

abbrev pub refunded_of : Option Payment → ℕ
refunded_of none = 0
refunded_of (some p) = p.refunded_cents

-- What is booked as refunded of a payment.
abbrev pub booked : ℕ → List Payment → ℕ
booked p payments = refunded_of (find_payment p payments)

-- What the report of an event leaves out of the refund that it completes.
abbrev pub unreported : ℕ → ℕ → Refund → ℕ
unreported p amount r = if r.payment == p then r.amount_cents - amount else 0

-- Whether the event newly completes the row.
abbrev pub completes : (Refund → Bool) → RefundEvent → Refund → Payment → Bool
completes is_ours e r q =
    not (is_foreign is_ours e r q)
    && not (is_closed r.status)
    && is_succeeded (next_status (answered (event_status e) e.refund_id))

-- One transaction of any process, with any reply or report of the provider. Of the payment `p`, the
-- first number is what the transaction raises from the provider's totals, the second what it lowers
-- by them or what an event leaves out of a refund.
pub data Step (p : ℕ) : ℕ → ℕ → Books → Books → Type 0 where
  begun : {b : Books} (k : ℕ) → Step p 0 0 b (begin_refund k b)
  missed : {b : Books} (k : ℕ) → Step p 0 0 b (miss_reference k b)
  settled : {b : Books} (k : ℕ) (reply : Reply) → Step p 0 0 b (settle_refund k reply b)
  retired : {b : Books} (k : ℕ) → Step p 0 0 b (retire_refund k b).1
  rowed :
      {b : Books} (declaration : ℕ) (q : Payment) (refunded : ℕ) (cap : Option ℕ)
      → Step p 0 0 b (refund_row declaration q refunded cap b).1
  reported :
      {b : Books} (is_ours : Refund → Bool) (k : ℕ) (e : RefundEvent) (r : Refund) (q : Payment)
      → find_refund k b.refunds ≡ some r
      → find_payment r.payment b.payments ≡ some q
      → Step p 0
          (if completes is_ours e r q then unreported p e.amount r else 0)
          b
          (complete_contract_refund is_ours k e b)
  raised :
      {b : Books} (k seen refunded : ℕ)
      → Step p
          (booked p (raise_refunded k seen refunded b).payments - booked p b.payments)
          (booked p b.payments - booked p (raise_refunded k seen refunded b).payments)
          b
          (raise_refunded k seen refunded b)
  reconciled :
      {b : Books} (amount : ℕ) (payment_intent : String)
      → Step p
          (booked p (reconcile_provider_refunds amount payment_intent b).payments
            - booked p b.payments)
          (booked p b.payments
            - booked p (reconcile_provider_refunds amount payment_intent b).payments)
          b
          (reconcile_provider_refunds amount payment_intent b)

pub data Reach (p : ℕ) : ℕ → ℕ → Books → Books → Type 0 where
  done : {b : Books} → Reach p 0 0 b b
  step :
      {up down up' down' : ℕ} {b b' b'' : Books}
      → Step p up down b b'
      → Reach p up' down' b' b''
      → Reach p (up + up') (down + down') b b''

-- The books of two moments grew by the same amounts, but for these.
abbrev pub IsBalancedBy : ℕ → ℕ → ℕ → Books → Books → Type 0
IsBalancedBy up down p b b' =
    booked p b.payments + total_back p b'.refunds + up
    ≡ booked p b'.payments + total_back p b.refunds + down

-- The books of two moments grew by the same amounts.
abbrev pub IsBalanced : ℕ → Books → Books → Type 0
IsBalanced p b b' =
    booked p b.payments + total_back p b'.refunds ≡ booked p b'.payments + total_back p b.refunds
