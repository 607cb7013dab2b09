-- ===== src/Billing/Refund/Bounds.antt =====
-- How much a withdrawal refunds (billing/withdrawal.py).
use native.Mathlib.Nat.{mul-add-div, div-eq_of_lt, mul-zero, mul-suc}
use django_core_micha.Base.{
  ℕ, zero, suc, ◌+◌, ◌*◌, ◌/◌, ◌-◌, ◌≤◌, ◌<◌, ◌≡◌, ◌≢◌, some, arith, refl, max, min,
}
use django_core_micha.Base.Int.{pos}
use django_core_micha.Billing.Ledger.{Ledger}
use django_core_micha.Billing.Refund.{
  Purchase, token_purchase, refund_amount, time_share, term_share, ceil_div, days_between,
}

ceil_div_self : (d a : ℕ) → 0 < d → ceil_div (d * a) d ≡ a
ceil_div_self d zero h = ground (arith, mul-zero d)
ceil_div_self d (suc a) h =
    let whole : (d * suc a + (d - 1)) / d ≡ suc a + (d - 1) / d = mul-add-div h (suc a) (d - 1) in
    let rest : (d - 1) / d ≡ 0 = div-eq_of_lt (omega arith) in
    let more : d * suc a ≡ d * a + d = mul-suc d a in
    let regroup : d * suc a + d - 1 ≡ d * suc a + (d - 1) = omega (arith, h) in
    ground (arith, whole, rest, more, regroup)

-- A term that is over has been used up.
term_share_over :
    (s t amount now : ℕ) → s < t → t ≤ now → term_share (some s) (some t) amount now ≡ amount
term_share_over s t amount now o h =
    let full : min (max 1 (days_between s t)) (days_between s now) ≡ max 1 (days_between s t) =
      omega arith in
    rw full (ceil_div_self (max 1 (days_between s t)) amount (omega arith))

time_share_over :
    (p : Purchase) (s t now : ℕ)
    → p.kind ≢ token_purchase
    → p.term_start ≡ some s
    → p.term_end ≡ some t
    → s < t
    → t ≤ now
    → time_share p now ≡ p.amount_paid_cents
unfolding time_share
time_share_over p s t now k a b o h =
    ground (arith, term_share_over s t p.amount_paid_cents now o h)

-- What is used and what is refunded make up what was paid; and where a purchase other than of a
-- token package has a term that is not empty and is over, nothing is refunded.
pub refund_amount_bounds :
    (p : Purchase) (db : Ledger) (now : ℕ)
    → let calc = refund_amount p db now in
      ((used : ℕ) × (calc.used_cents ≡ pos used) × (used + calc.refund_cents ≡ p.amount_paid_cents))
      × ((s t : ℕ)
          → p.kind ≢ token_purchase
          → p.term_start ≡ some s
          → p.term_end ≡ some t
          → s < t
          → t ≤ now
          → calc.refund_cents ≡ 0)
unfolding refund_amount
refund_amount_bounds p db now =
    ((_, refl, omega arith), λ s t k a b o h. omega (arith, time_share_over p s t now k a b o h))
