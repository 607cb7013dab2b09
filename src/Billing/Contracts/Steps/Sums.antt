-- ===== src/Billing/Contracts/Steps/Sums.antt =====
-- What saving a refund and booking it does to the sums of a payment (billing/contracts.py).
use django_core_micha.Billing.Contracts.Steps.{
  given_back, total_back, booked, IsBalanced, IsBalancedBy, unreported,
}
use mathlib.Core.Option.{none, some-injective}
use mathlib.Core.List.{[]}
use django_core_micha.Billing.Contracts.{
  Books, save_refund, Refund, Payment, RefundStatus, find_payment, find_refund, Reply, is_succeeded,
  is_open, is_other_open, credit_payment, settle, succeeded, open_or_new,
}
use django_core_micha.Base.{
  ℕ, List, Option, ◌∷◌, Bool, ◌+◌, if◌then◌else◌, some, ◌≡◌, first_where, ◌==◌, update_first, ◌&&◌,
  none-ne-some, false, sym, Bool-cases, inl, subst, any_where, arith, inr, refl, true,
  first_where-passes, ◌++◌, ◌-◌, ◌≤◌,
}

-- The sum after the update of the row that a test finds.
total_back-update_first :
    (p : ℕ) (t : Refund → Bool) (f : Refund → Refund) (refunds : List Refund) {r : Refund}
    → first_where t refunds ≡ some r
    → total_back p (update_first t f refunds) + given_back p r
      ≡ total_back p refunds + given_back p (f r)
total_back-update_first p t f [] {r} h = absurd (none-ne-some r (sym h))
total_back-update_first p t f (x ∷ refunds) {r} h =
    let rest : first_where t refunds ≡ some r
        → total_back p (update_first t f refunds) + given_back p r
          ≡ total_back p refunds + given_back p (f r) =
      λ e. total_back-update_first p t f refunds e in
    elim (Bool-cases (t x)) [
      | inl e ↦ rw e (
          subst
            (λ y.
              given_back p (f x) + total_back p refunds + given_back p y
              ≡ given_back p x + total_back p refunds + given_back p (f y))
            (some-injective x r (rw e at h)) (omega arith))
      | inr e ↦ let later = rest (rw e at h) in rw e (omega arith)
    ]

unbooked-given_back : (p : ℕ) (r : Refund) → is_succeeded r.status ≡ false → given_back p r ≡ 0
unbooked-given_back p r h = ground arith

-- A save of an unbooked row with an unbooked status.
pub save_refund-IsBalanced :
    (p k payment : ℕ) (next : RefundStatus) (f : Refund → Refund) (b : Books) {r : Refund}
    → find_refund k b.refunds ≡ some r
    → is_succeeded r.status ≡ false
    → is_succeeded next ≡ false
    → IsBalanced p b (save_refund k payment next f b)
unfolding save_refund
save_refund-IsBalanced p k payment next f b {r} found unbooked unbooked' =
    elim (Bool-cases (is_open next && any_where (is_other_open k payment) b.refunds)) [
      | inl t ↦ rw t refl
      | inr e ↦
          let saved : Refund → Refund = λ x. record (f x) { status = next } in
          let sums = total_back-update_first p (λ x. x.refund_key == k) saved b.refunds found in
          let before = unbooked-given_back p r unbooked in
          let after = unbooked-given_back p (saved r) unbooked' in rw e (omega arith)
    ]

refunded_of-update_first :
    (p k amount : ℕ) (payments : List Payment) {q : Payment}
    → find_payment k payments ≡ some q
    → booked p (
        update_first
          (λ x. x.payment_key == k)
          (λ x. record x { refunded_cents = x.refunded_cents + amount })
          payments)
      ≡ booked p payments + (if k == p then amount else 0)
refunded_of-update_first p k amount [] {q} h = absurd (none-ne-some q (sym h))
refunded_of-update_first p k amount (x ∷ payments) {q} h =
    let rest : find_payment k payments ≡ some q
        → booked p (
            update_first (λ y. y.payment_key == k)
              (λ y. record y { refunded_cents = y.refunded_cents + amount }) payments)
          ≡ booked p payments + (if k == p then amount else 0) =
      λ e. refunded_of-update_first p k amount payments e in
    elim (Bool-cases (x.payment_key == k)) [
      | inl e ↦
          let same : x.payment_key ≡ k = ground arith in
          rw e (elim (Bool-cases (x.payment_key == p)) [
            | inl s ↦ let it : (k == p) ≡ true = rw same at s in rw (s, it) refl
            | inr f ↦ let it : (k == p) ≡ false = rw same at f in rw (f, it) (omega arith)
          ])
      | inr e ↦
          let later = rest (rw e at h) in
          rw e (elim (Bool-cases (x.payment_key == p)) [
            | inl s ↦ let it : (k == p) ≡ false = ground arith in rw (s, it) (omega arith)
            | inr f ↦ rw f later
          ])
    ]

-- A completion books its amount.
pub credit_payment-IsBalancedBy :
    (p k n : ℕ) (reply : Reply) (b : Books) (r : Refund) (q : Payment)
    → find_refund k b.refunds ≡ some r
    → is_succeeded r.status ≡ false
    → find_payment r.payment b.payments ≡ some q
    → n ≤ r.amount_cents
    → IsBalancedBy 0 (unreported p n r) p b (credit_payment k n reply b (some q))
unfolding save_refund
credit_payment-IsBalancedBy p k n reply b r q found unbooked paid at_most =
    let saved : Refund → Refund = λ x. record (settle reply x) { status = succeeded } in
    let sums = total_back-update_first p (λ x. x.refund_key == k) saved b.refunds found in
    let before = unbooked-given_back p r unbooked in
    let key : (q.payment_key == r.payment) ≡ true = first_where-passes _ b.payments paid in
    let same : r.payment ≡ q.payment_key = ground arith in
    let paid' : find_payment q.payment_key b.payments ≡ some q =
      subst (λ (j : ℕ). find_payment j b.payments ≡ some q) same paid in
    let books = refunded_of-update_first p q.payment_key n b.payments paid' in
    let after : given_back p (saved r) ≡ (if q.payment_key == p then r.amount_cents else 0) =
      rw same (ground arith) in
    let short : unreported p n r ≡ (if q.payment_key == p then r.amount_cents - n else 0) =
      rw same refl in
    elim (Bool-cases (q.payment_key == p)) [
      | inl t ↦
          let mine = rw t at after in
          let left = rw t at short in let more = rw t at books in omega arith
      | inr f ↦
          let mine = rw f at after in
          let left = rw f at short in let more = rw f at books in omega arith
    ]

pub credit_payment-IsBalanced :
    (p k : ℕ) (reply : Reply) (b : Books) (r : Refund) (o : Option Payment)
    → find_refund k b.refunds ≡ some r
    → is_succeeded r.status ≡ false
    → find_payment r.payment b.payments ≡ o
    → IsBalanced p b (credit_payment k r.amount_cents reply b o)
credit_payment-IsBalanced p k reply b r none found unbooked paid = refl
credit_payment-IsBalanced p k reply b r (some q) found unbooked paid =
    let all =
      credit_payment-IsBalancedBy p k r.amount_cents reply b r q found unbooked paid
        (omega arith) in
    let nothing : unreported p r.amount_cents r ≡ 0 = ground arith in omega arith

total_back-append :
    (p : ℕ) (refunds : List Refund) (r : Refund)
    → total_back p (refunds ++ r ∷ []) ≡ total_back p refunds + given_back p r
total_back-append p [] r = omega arith
total_back-append p (x ∷ refunds) r = rw (total_back-append p refunds r) (omega arith)

pub open_or_new-IsBalanced :
    (p payment declaration amount : ℕ) (b : Books) (o : Option Refund)
    → IsBalanced p b (open_or_new payment declaration amount b o).1
open_or_new-IsBalanced p payment declaration amount b (some r) = refl
open_or_new-IsBalanced p payment declaration amount b none =
    elim (Bool-cases (any_where (is_other_open b.next_refund payment) b.refunds)) [
      | inl t ↦ rw t refl
      | inr f ↦ rw f (rw (total_back-append p b.refunds _) (ground arith))
    ]
