-- ===== src/Billing/Contracts/Tests.antt =====
-- A refund that times out and is tried again, and a cancellation for a later date
-- (billing/contracts.py).
use django_core_micha.Billing.Contracts.Term.Search.{nth_end, cancellation_effective-found}
use django_core_micha.Billing.Contracts.Steps.Balance.{Reach-IsBalanced}
use django_core_micha.Billing.Contracts.Events.{
  RefundEvent, complete_contract_refund, raise_refunded,
}
use django_core_micha.Billing.Contracts.Steps.{
  booked, Reach, step, total_back, rowed, begun, settled, done, reported, Step,
}
use django_core_micha.Billing.Contracts.{
  settle_refund, Payment, Books, refund_row, answered, begin_refund, save_refund, next_status,
  Reply, Refund, pending,
}
use django_core_micha.Billing.Contracts.Term.{
  Moment, withdrawal_deadline, cancellation_effective, Contract, search_end, add_days, active,
  next_end, add_months, days_in_month, next_day, date_number,
}
use django_core_micha.Base.{
  ℕ, true, some, ◌∷◌, ◌+◌, [], ◌≡◌, none, ◌==◌, refl, ◌≤◌, ◌<◌, arith, false,
}

abbrev paid : Payment
paid = record { payment_key = 1; intent = "pi_1"; amount_paid_cents = 1000; refunded_cents = 200 }

abbrev books : Books
books = record { payments = paid ∷ []; refunds = []; next_refund = 5 }

-- The row is created, the first request times out, and the second succeeds twice over.
abbrev rowed_books : Books
rowed_books = (refund_row 9 paid 200 (some 300) books).1

abbrev timed_out : Books
timed_out = settle_refund 5 (Reply.raised "Timeout") (begin_refund 5 rowed_books)

abbrev refunded : Books
refunded =
    settle_refund 5 (answered "succeeded" "re_1")
      (settle_refund 5 (answered "succeeded" "re_1") (begin_refund 5 timed_out))

-- The event of a second refund reports less than its amount, and Stripe's total raises what is booked.
abbrev event : RefundEvent
event = record {
  amount = 50;
  provider_status = "succeeded";
  is_failure = false;
  payment_intent = "pi_1";
  refund_id = "re_2";
}

abbrev rowed_again : Books
rowed_again = (refund_row 8 paid 900 none refunded).1

abbrev completed : Books
completed = complete_contract_refund (λ r. true) 6 event rowed_again

abbrev second_row : Refund
second_row = record {
  refund_key = 6;
  payment = 1;
  declaration = some 8;
  amount_cents = 100;
  status = pending;
  attempts = 0;
  last_error_code = "";
  stripe_refund_id = "";
}

abbrev booked_payment : Payment
booked_payment = record paid { refunded_cents = 500 }

abbrev balanced : Books
balanced = raise_refunded 1 550 570 completed

run : Reach 1 20 50 books balanced
unfolding settle_refund begin_refund refund_row save_refund next_status complete_contract_refund
    raise_refunded
run = step (rowed 9 paid 200 (some 300)) (
    step (begun 5) (
      step (settled 5 (Reply.raised "Timeout")) (
        step (begun 5) (
          step (settled 5 (answered "succeeded" "re_1")) (
            step (settled 5 (answered "succeeded" "re_1")) (
              step (rowed 8 paid 900 none) (
                step (reported (λ r. true) 6 event second_row booked_payment refl refl)
                  (step (Step.raised 1 550 570) done))))))))

booked_once : booked 1 refunded.payments ≡ 500
unfolding settle_refund begin_refund refund_row save_refund next_status
booked_once = refl

Reach-IsBalanced_example :
    booked 1 books.payments + total_back 1 balanced.refunds + 20
    ≡ booked 1 balanced.payments + total_back 1 books.refunds + 50
Reach-IsBalanced_example = Reach-IsBalanced 1 20 50 books balanced run

-- A subscription from 31 January, cancelled for 15 April.
abbrev moment : ℕ → ℕ → ℕ → Moment
moment y m d = record { year = y; month = m; day = d; second = 0 }

abbrev subscription : Contract
subscription = record {
  is_subscription = true;
  contract_status = active;
  billing_country = "AT";
  consumer_status = "consumer";
  started_at = moment 2025 1 31;
  info_delivered_at = none;
  initial_term_end = none;
}

ends_in_april :
    cancellation_effective (λ t. t) subscription (moment 2026 1 31) (some (moment 2026 4 15))
    ≡ some (moment 2026 4 30)
unfolding cancellation_effective search_end next_end days_in_month
ends_in_april = refl

cancellation_effective-found_example :
    (n : ℕ) × ((cancellation_effective
          (λ t. t)
          subscription
          (moment 2026 1 31)
          (some (moment 2026 4 15))
        ≡ some (nth_end 31 (31 == days_in_month 2026 1) n (moment 2026 1 31)))
      × ((date_number (moment 2026 4 15)
            ≤ date_number (nth_end 31 (31 == days_in_month 2026 1) n (moment 2026 1 31)))
          × ((k : ℕ)
              → k < n
              → date_number (nth_end 31 (31 == days_in_month 2026 1) k (moment 2026 1 31))
                < date_number (moment 2026 4 15))))
cancellation_effective-found_example =
    cancellation_effective-found (λ t. t) (moment 2026 4 15)
      (λ t low high. (low, (high, omega arith))) (omega arith) (omega arith) (omega arith)
      subscription (moment 2026 1 31) refl (omega arith) (omega arith)

-- The period of a contract without delivered information ends a year and 14 days after its start.
long_period : withdrawal_deadline subscription ≡ moment 2026 2 14
unfolding withdrawal_deadline add_days add_months next_day days_in_month
long_period = refl
