-- ===== src/Billing/Contracts/Process.antt =====
-- Processing a refund and trying it again (billing/contracts.py), where no other process comes in
-- between; `ask` is the reply of Stripe to the request for a row. Each is a run of the steps.
use mathlib.Core.Option.{none}
use django_core_micha.Billing.Contracts.{
  Books, Reply, find_refund, Refund, Payment, refund_row, is_closed, is_failed, miss_reference,
  settle_refund, is_definite, is_other_open, retire_refund, begin_refund, find_payment,
}
use django_core_micha.Base.{
  ℕ, Option, some, Bool-cases, if◌then◌else◌, str_eq, inl, ◌&&◌, ◌||◌, any_where, inr,
}
use django_core_micha.Billing.Contracts.Steps.{
  Step, Reach, step, done, rowed, missed, retired, settled, begun,
}

abbrev pub request : (ℕ → Reply) → ℕ → Books → Option Payment → Books
request ask k b none = b
request ask k b (some p) =
    if str_eq p.intent "" then miss_reference k b else settle_refund k (ask k) b

abbrev pub process_found : (ℕ → Reply) → ℕ → Books → Option Refund → Books
process_found ask k b none = b
process_found ask k b (some r) =
    if is_closed r.status || any_where (is_other_open k r.payment) b.refunds
    then b
    else request ask k (begin_refund k b) (find_payment r.payment b.payments)

-- A row that is closed is left, and one that cannot be opened raises.
unfoldable pub process_refund : (ℕ → Reply) → ℕ → Books → Books
process_refund ask k b = process_found ask k b (find_refund k b.refunds)

abbrev pub process_fresh : (ℕ → Reply) → Option Refund × Books → Books
process_fresh ask (none, b) = b
process_fresh ask (some r, b) = process_refund ask r.refund_key b

-- The new row of a payment, with the amount of the failed one at most.
abbrev pub renew : (ℕ → Reply) → ℕ → ℕ → Books → Option Payment → Books
renew ask declaration amount b none = b
renew ask declaration amount b (some p) =
    process_fresh ask (refund_row declaration p p.refunded_cents (some amount) b)

abbrev pub retry_declared : (ℕ → Reply) → ℕ → Refund → Books → Option ℕ → Books
retry_declared ask k r b none = process_refund ask k b
retry_declared ask k r b (some declaration) =
    if is_failed r.status && is_definite r.last_error_code
    then renew ask declaration r.amount_cents (retire_refund k b).1
        (find_payment r.payment b.payments)
    else process_refund ask k b

abbrev pub retry_found : (ℕ → Reply) → ℕ → Books → Option Refund → Books
retry_found ask k b none = b
retry_found ask k b (some r) = retry_declared ask k r b r.declaration

-- `retry_refund`: a definitely failed row of a declaration is cancelled, and a new one is processed.
unfoldable pub retry_refund : (ℕ → Reply) → ℕ → Books → Books
retry_refund ask k b = retry_found ask k b (find_refund k b.refunds)

-- Of any payment, nothing is raised or lowered.
module _ (p : ℕ) where
  one : {b b' : Books} → Step p 0 0 b b' → Reach p 0 0 b b'
  one s = step s done

  request-Reach :
      (ask : ℕ → Reply) (k : ℕ) (b : Books) (o : Option Payment) → Reach p 0 0 b (request ask k b o)
  request-Reach ask k b none = done
  request-Reach ask k b (some q) = elim (Bool-cases (str_eq q.intent "")) [
    | inl t ↦ rw t (one (missed k))
    | inr f ↦ rw f (one (settled k (ask k)))
  ]

  process_found-Reach :
      (ask : ℕ → Reply) (k : ℕ) (b : Books) (o : Option Refund)
      → Reach p 0 0 b (process_found ask k b o)
  process_found-Reach ask k b none = done
  process_found-Reach ask k b (some r) =
      elim (Bool-cases (is_closed r.status || any_where (is_other_open k r.payment) b.refunds)) [
        | inl t ↦ rw t done
        | inr f ↦ rw f (
            step (begun k)
              (request-Reach ask k (begin_refund k b) (find_payment r.payment b.payments)))
      ]

  -- Processing a refund is a run of the steps.
  pub process_refund-Reach :
      (ask : ℕ → Reply) (k : ℕ) (b : Books) → Reach p 0 0 b (process_refund ask k b)
  unfolding process_refund
  process_refund-Reach ask k b = process_found-Reach ask k b (find_refund k b.refunds)

  process_fresh-Reach :
      (ask : ℕ → Reply) (fresh : Option Refund × Books)
      → Reach p 0 0 fresh.1 (process_fresh ask fresh)
  process_fresh-Reach ask (none, b) = done
  process_fresh-Reach ask (some r, b) = process_refund-Reach ask r.refund_key b

  renew-Reach :
      (ask : ℕ → Reply) (declaration amount : ℕ) (b : Books) (o : Option Payment)
      → Reach p 0 0 b (renew ask declaration amount b o)
  renew-Reach ask declaration amount b none = done
  renew-Reach ask declaration amount b (some q) =
      step (rowed declaration q q.refunded_cents (some amount))
        (process_fresh-Reach ask (refund_row declaration q q.refunded_cents (some amount) b))

  retry_found-Reach :
      (ask : ℕ → Reply) (k : ℕ) (b : Books) (o : Option Refund)
      → Reach p 0 0 b (retry_found ask k b o)
  retry_found-Reach ask k b none = done
  retry_found-Reach ask k b (some r) = declared r.declaration
    where
      declared : (o : Option ℕ) → Reach p 0 0 b (retry_declared ask k r b o)
      declared none = process_refund-Reach ask k b
      declared (some declaration) =
          elim (Bool-cases (is_failed r.status && is_definite r.last_error_code)) [
            | inl t ↦ rw t (
                step (retired k) (
                  renew-Reach ask declaration r.amount_cents (retire_refund k b).1
                    (find_payment r.payment b.payments)))
            | inr f ↦ rw f (process_refund-Reach ask k b)
          ]

  -- Trying a refund again is a run of the steps.
  pub retry_refund-Reach :
      (ask : ℕ → Reply) (k : ℕ) (b : Books) → Reach p 0 0 b (retry_refund ask k b)
  unfolding retry_refund
  retry_refund-Reach ask k b = retry_found-Reach ask k b (find_refund k b.refunds)
