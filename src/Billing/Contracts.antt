-- ===== src/Billing/Contracts.antt =====
-- Refunds of a contract's payments (billing/contracts.py). Stripe is a third party: its reply to a
-- refund request is an argument, and between the request and the settlement any other process may
-- run. A key is a primary key, so that a table's first row with it is the row.
pub mod Process
pub mod Term
pub mod Events
mod Tests
pub mod Steps
use mathlib.Core.Option.{none}
use django_core_micha.Base.{
  ℕ, Bool, String, Option, List, update_first, if◌then◌else◌, true, first_where, ◌==◌, some, str_eq,
  ◌-◌, false, suc, ◌+◌, ◌&&◌, min, ◌++◌, none, ◌||◌, is_key, ◌∷◌, not, [], any_where,
}

pub data RefundStatus : Type 0 where
  pending requested requires_action failed succeeded cancelled : RefundStatus

abbrev pub is_succeeded : RefundStatus → Bool
is_succeeded succeeded = true
is_succeeded _ = false

abbrev pub is_failed : RefundStatus → Bool
is_failed failed = true
is_failed _ = false

-- Succeeded or cancelled.
abbrev pub is_closed : RefundStatus → Bool
is_closed succeeded = true
is_closed cancelled = true
is_closed _ = false

pub record Payment : Type 0 where
  pub payment_key : ℕ
  pub intent : String
  pub amount_paid_cents : ℕ
  pub refunded_cents : ℕ

pub record Refund : Type 0 where
  pub refund_key : ℕ
  pub payment : ℕ
  pub declaration : Option ℕ
  pub amount_cents : ℕ
  pub status : RefundStatus
  pub attempts : ℕ
  pub last_error_code : String
  pub stripe_refund_id : String

pub record Books : Type 0 where
  pub payments : List Payment
  pub refunds : List Refund
  pub next_refund : ℕ

-- The provider's answer: its status and the key of its refund, or an exception.
pub data Reply : Type 0 where
  answered : String → String → Reply
  raised : String → Reply

abbrev pub find_refund : ℕ → List Refund → Option Refund
find_refund k = first_where (λ r. r.refund_key == k)

abbrev pub find_payment : ℕ → List Payment → Option Payment
find_payment k = first_where (λ p. p.payment_key == k)

-- Pending, requested or waiting for an action.
abbrev pub is_open : RefundStatus → Bool
is_open pending = true
is_open requested = true
is_open requires_action = true
is_open _ = false

abbrev pub is_other_open : ℕ → ℕ → Refund → Bool
is_other_open k payment r = r.payment == payment && is_open r.status && not (r.refund_key == k)

-- `row.save()` with this status. A payment has one open row: the save that would make a second one
-- raises, and its transaction is rolled back.
unfoldable pub save_refund : ℕ → ℕ → RefundStatus → (Refund → Refund) → Books → Books
save_refund k payment next f b =
    if is_open next && any_where (is_other_open k payment) b.refunds then b else record b {
      refunds =
          update_first (λ r. r.refund_key == k) (λ r. record (f r) { status = next }) b.refunds;
    }

-- The first transaction of `process_refund`: one attempt more, unless the row is closed.
abbrev pub begin_found : ℕ → Books → Option Refund → Books
begin_found k b none = b
begin_found k b (some r) =
    if is_closed r.status
    then b
    else save_refund k r.payment pending
        (λ x. record x { attempts = suc x.attempts; last_error_code = "" }) b

unfoldable pub begin_refund : ℕ → Books → Books
begin_refund k b = begin_found k b (find_refund k b.refunds)

-- Where the payment has no reference to refund.
abbrev pub miss_found : ℕ → Books → Option Refund → Books
miss_found k b none = b
miss_found k b (some r) =
    if is_succeeded r.status
    then b
    else save_refund k r.payment failed
        (λ x. record x { last_error_code = "payment_reference_missing" }) b

unfoldable pub miss_reference : ℕ → Books → Books
miss_reference k b = miss_found k b (find_refund k b.refunds)

-- The status that a reply leads to, and its error code.
unfoldable pub next_status : Reply → RefundStatus
next_status (raised name) = pending
next_status (answered status remote) =
    if str_eq status "succeeded"
    then succeeded
    else if str_eq status "failed"
    then failed
    else if str_eq status "requires_action"
    then requires_action
    else requested

abbrev pub error_of : Reply → RefundStatus → String
error_of (raised name) next = name
error_of (answered status remote) next = if is_failed next then "refund_failed" else ""

abbrev pub remote_of : Reply → String → String
remote_of (raised name) old = old
remote_of (answered status remote) old = if str_eq remote "" then old else remote

abbrev pub settle : Reply → Refund → Refund
settle reply x = record x {
  stripe_refund_id = remote_of reply x.stripe_refund_id;
  last_error_code = error_of reply (next_status reply);
}

-- The payment gets the amount; a payment that is missing rolls the transaction back.
abbrev pub credit_payment : ℕ → ℕ → Reply → Books → Option Payment → Books
credit_payment k amount reply b none = b
credit_payment k amount reply b (some p) =
    record (save_refund k p.payment_key succeeded (settle reply) b) {
      payments =
          update_first (λ q. q.payment_key == p.payment_key)
            (λ q. record q { refunded_cents = q.refunded_cents + amount }) b.payments;
    }

abbrev pub settle_found : ℕ → Reply → Books → Option Refund → Books
settle_found k reply b none = b
settle_found k reply b (some r) =
    if is_succeeded r.status
    then b
    else if is_succeeded (next_status reply)
    then credit_payment k r.amount_cents reply b (find_payment r.payment b.payments)
    else save_refund k r.payment (next_status reply) (settle reply) b

-- The last transaction of `process_refund`.
unfoldable pub settle_refund : ℕ → Reply → Books → Books
settle_refund k reply b = settle_found k reply b (find_refund k b.refunds)

abbrev pub is_for : ℕ → ℕ → Refund → Bool
is_for payment declaration r =
    r.payment == payment && is_key r.declaration declaration && not (is_closed r.status)

abbrev pub capped : ℕ → Option ℕ → ℕ
capped amount none = amount
capped amount (some cap) = min amount cap

-- `_refund_row`: no row where nothing is left, the open row where there is one, else a new row; the
-- creation fails where a row of another declaration is open for the payment.
abbrev pub open_or_new : ℕ → ℕ → ℕ → Books → Option Refund → Option Refund × Books
open_or_new payment declaration amount b (some r) = (some r, b)
open_or_new payment declaration amount b none =
    let r : Refund = record {
      refund_key = b.next_refund;
      payment = payment;
      declaration = some declaration;
      amount_cents = amount;
      status = pending;
      attempts = 0;
      last_error_code = "";
      stripe_refund_id = "";
    } in
    if any_where (is_other_open b.next_refund payment) b.refunds
    then (none, b)
    else (some r, record b { refunds = b.refunds ++ r ∷ []; next_refund = suc b.next_refund })

unfoldable pub refund_row : ℕ → Payment → ℕ → Option ℕ → Books → Option Refund × Books
refund_row declaration p refunded cap b =
    let amount = capped (p.amount_paid_cents - refunded) cap in
    if amount == 0
    then (none, b)
    else open_or_new p.payment_key declaration amount b
        (first_where (is_for p.payment_key declaration) b.refunds)

-- `REFUND_FAILED_CODES`
abbrev pub is_definite : String → Bool
is_definite code = str_eq code "refund_failed" || str_eq code "refund.failed"

-- The cancellation of a definitely failed row in `retry_refund`.
abbrev pub retire_found : ℕ → Books → Option Refund → Bool × Books
retire_found k b none = (false, b)
retire_found k b (some r) =
    if is_failed r.status && is_definite r.last_error_code
    then (true, save_refund k r.payment cancelled (λ x. x) b)
    else (false, b)

unfoldable pub retire_refund : ℕ → Books → Bool × Books
retire_refund k b = retire_found k b (find_refund k b.refunds)
