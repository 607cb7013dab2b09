-- ===== src/Billing/Contracts/Steps/Balance.antt =====
-- The books balance however refunds are processed (billing/contracts.py, billing/stripe_service.py).
use django_core_micha.Billing.Contracts.Steps.Sums.{
  credit_payment-IsBalancedBy, credit_payment-IsBalanced, save_refund-IsBalanced,
  open_or_new-IsBalanced,
}
use django_core_micha.Billing.Contracts.Steps.{
  total_back, booked, IsBalanced, IsBalancedBy, unreported, completes, Step, Reach, done, step,
  begun, missed, settled, retired, rowed, reported, raised, reconciled,
}
use django_core_micha.Billing.Contracts.Events.{
  complete_contract_refund, raise_refunded, reconcile_provider_refunds, event_status, is_foreign,
  is_waiting, RefundEvent,
}
use django_core_micha.Billing.Contracts.{
  Books, Refund, begin_refund, Payment, miss_reference, find_payment, find_refund, Reply,
  is_succeeded, settle_refund, retire_refund, refund_row, settle, is_closed, pending, failed,
  next_status, is_failed, is_definite, cancelled, capped, answered,
}
use django_core_micha.Base.{
  ℕ, List, Option, Bool, ◌+◌, if◌then◌else◌, some, ◌≡◌, ◌==◌, ◌&&◌, false, Bool-cases, inl, arith,
  inr, refl, true, Option-cases, ◌-◌,
}

begin_refund-IsBalanced : (p : ℕ) (b : Books) (k : ℕ) → IsBalanced p b (begin_refund k b)
unfolding begin_refund
begin_refund-IsBalanced p b k = elim (Option-cases (find_refund k b.refunds)) [
  | inl n ↦ rw n refl
  | inr (r, e) ↦ rw e (elim (Bool-cases (is_closed r.status)) [
    | inl t ↦ rw t refl
    | inr f ↦ rw f (save_refund-IsBalanced p k r.payment pending _ b e (closed-succeeded r f) refl)
  ])
]
  where
    closed-succeeded : (r : Refund) → is_closed r.status ≡ false → is_succeeded r.status ≡ false
    closed-succeeded r f = ground arith

miss_reference-IsBalanced : (p : ℕ) (b : Books) (k : ℕ) → IsBalanced p b (miss_reference k b)
unfolding miss_reference
miss_reference-IsBalanced p b k = elim (Option-cases (find_refund k b.refunds)) [
  | inl n ↦ rw n refl
  | inr (r, e) ↦ rw e (elim (Bool-cases (is_succeeded r.status)) [
    | inl t ↦ rw t refl
    | inr f ↦ rw f (save_refund-IsBalanced p k r.payment failed _ b e f refl)
  ])
]

settle_refund-IsBalanced :
    (p : ℕ) (b : Books) (k : ℕ) (reply : Reply) → IsBalanced p b (settle_refund k reply b)
unfolding settle_refund
settle_refund-IsBalanced p b k reply = elim (Option-cases (find_refund k b.refunds)) [
  | inl n ↦ rw n refl
  | inr (r, e) ↦ rw e (elim (Bool-cases (is_succeeded r.status)) [
    | inl t ↦ rw t refl
    | inr f ↦ rw f (elim (Bool-cases (is_succeeded (next_status reply))) [
      | inl t ↦
          rw t
            (credit_payment-IsBalanced p k reply b r (find_payment r.payment b.payments) e f refl)
      | inr g ↦ rw g (save_refund-IsBalanced p k r.payment (next_status reply) _ b e f g)
    ])
  ])
]

retire_refund-IsBalanced : (p : ℕ) (b : Books) (k : ℕ) → IsBalanced p b (retire_refund k b).1
unfolding retire_refund
retire_refund-IsBalanced p b k = elim (Option-cases (find_refund k b.refunds)) [
  | inl n ↦ rw n refl
  | inr (r, e) ↦ rw e (elim (Bool-cases (is_failed r.status && is_definite r.last_error_code)) [
    | inl t ↦
        rw t (save_refund-IsBalanced p k r.payment cancelled _ b e (failed-succeeded r t) refl)
    | inr f ↦ rw f refl
  ])
]
  where
    failed-succeeded :
        (r : Refund)
        → (is_failed r.status && is_definite r.last_error_code) ≡ true
        → is_succeeded r.status ≡ false
    failed-succeeded r t = ground arith

refund_row-IsBalanced :
    (p : ℕ) (b : Books) (declaration : ℕ) (q : Payment) (refunded : ℕ) (cap : Option ℕ)
    → IsBalanced p b (refund_row declaration q refunded cap b).1
unfolding refund_row
refund_row-IsBalanced p b declaration q refunded cap =
    elim (Bool-cases (capped (q.amount_paid_cents - refunded) cap == 0)) [
      | inl t ↦ rw t refl
      | inr f ↦ rw f (open_or_new-IsBalanced p q.payment_key declaration _ b _)
    ]

complete_contract_refund-IsBalancedBy :
    (p : ℕ) (b : Books) (is_ours : Refund → Bool) (k : ℕ) (e : RefundEvent) (r : Refund)
    (q : Payment)
    → find_refund k b.refunds ≡ some r
    → find_payment r.payment b.payments ≡ some q
    → IsBalancedBy 0
        (if completes is_ours e r q then unreported p e.amount r else 0)
        p
        b
        (complete_contract_refund is_ours k e b)
unfolding complete_contract_refund
complete_contract_refund-IsBalancedBy p b is_ours k e r q found paid =
    let reply = answered (event_status e) e.refund_id in
    let next = next_status reply in
    rw (found, paid)
      (elim (Bool-cases (is_foreign is_ours e r q)) [
        | inl t ↦ rw t (omega arith)
        | inr fits ↦ elim (Bool-cases (is_closed r.status)) [
          | inl t ↦ rw (fits, t) (omega arith)
          | inr open_ ↦
              let unbooked : is_succeeded r.status ≡ false = ground arith in
              elim (Bool-cases (is_succeeded next)) [
                | inl t ↦
                    let lets_pass : (is_failed r.status && is_waiting next) ≡ false =
                      ground arith in
                    rw (fits, open_, lets_pass, t)
                      (credit_payment-IsBalancedBy p k e.amount reply b r q found unbooked paid
                        (ground arith))
                | inr f ↦
                    rw (fits, open_, f)
                      (elim (Bool-cases (is_failed r.status && is_waiting next)) [
                        | inl t ↦ rw t (omega arith)
                        | inr g ↦
                            let saved =
                              save_refund-IsBalanced p k r.payment next (settle reply) b found
                                unbooked f in
                            rw g (omega arith)
                      ])
              ]
        ]
      ])

raised_by :
    (p : ℕ) (b : Books) (payments : List Payment)
    → IsBalancedBy
        (booked p payments - booked p b.payments)
        (booked p b.payments - booked p payments)
        p
        b
        (record b { payments = payments })
raised_by p b payments = omega arith

Step-IsBalancedBy :
    (p : ℕ) {up down : ℕ} {b b' : Books} → Step p up down b b' → IsBalancedBy up down p b b'
unfolding raise_refunded reconcile_provider_refunds
Step-IsBalancedBy p (begun {b} k) = omega (arith, begin_refund-IsBalanced p b k)
Step-IsBalancedBy p (missed {b} k) = omega (arith, miss_reference-IsBalanced p b k)
Step-IsBalancedBy p (settled {b} k reply) = omega (arith, settle_refund-IsBalanced p b k reply)
Step-IsBalancedBy p (retired {b} k) = omega (arith, retire_refund-IsBalanced p b k)
Step-IsBalancedBy p (rowed {b} declaration q refunded capped_at) =
    omega (arith, refund_row-IsBalanced p b declaration q refunded capped_at)
Step-IsBalancedBy p (reported {b} is_ours k e r q found paid) =
    complete_contract_refund-IsBalancedBy p b is_ours k e r q found paid
Step-IsBalancedBy p (raised {b} k seen refunded) =
    raised_by p b (raise_refunded k seen refunded b).payments
Step-IsBalancedBy p (reconciled {b} amount payment_intent) =
    raised_by p b (reconcile_provider_refunds amount payment_intent b).payments

-- In every run of the transactions of refunds, of the events of Stripe about them and of the writes of
-- Stripe's totals, in whatever order the processes run them, however often a request is tried again
-- and whatever the provider replies: the amount booked as refunded of a payment grows by exactly the
-- amounts of the refunds of this payment that newly succeed, less what an event reports too little of
-- the refund that it completes, and by what the writes of totals change. So no reply or event books a
-- success that is booked.
pub Reach-IsBalanced :
    (p up down : ℕ) (b b' : Books)
    → Reach p up down b b'
    → booked p b.payments + total_back p b'.refunds + up
      ≡ booked p b'.payments + total_back p b.refunds + down
Reach-IsBalanced p up down b b' done = refl
Reach-IsBalanced p up down b b' (step {up = u} {down = d} {up' = v} {down' = e} {b' = c} s r) =
    let now = Step-IsBalancedBy p s in let later = Reach-IsBalanced p v e c b' r in omega arith
