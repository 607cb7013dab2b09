-- ===== src/Billing/Withdrawal/Tests.antt =====
-- A withdrawal from a concrete subscription (billing/withdrawal.py).
use django_core_micha.Billing.Refund.Bounds.{refund_amount_bounds}
use django_core_micha.Billing.Withdrawal.Completion.{withdraw_once}
use django_core_micha.Base.{
  ◌≡◌, refl, ◌≢◌, ℕ, true, false, none, some, [], Bool, String, Option, ◌*◌, ◌+◌, ◌<◌, ◌≤◌,
}
use django_core_micha.Billing.Ledger.{Ledger}
use django_core_micha.Billing.Refund.{
  Purchase, subscription, token_purchase, active, day, time_share, token_share, refund_amount,
  eligibility,
}
use django_core_micha.Base.Int.{pos}
use django_core_micha.Billing.Withdrawal.{
  Store, done, complete_withdrawal, withdraw, calculation_of,
}

-- 30 days for 9.00, bought at the start of day 100.
abbrev monthly : Purchase
monthly = record {
  pk = 1;
  user_id = 7;
  kind = subscription;
  team = none;
  stripe_payment_intent_id = "pi_1";
  amount_paid_cents = 900;
  billing_country = "DE";
  has_business_tax_id = false;
  purchased_at = 100 * day;
  term_start = some (100 * day);
  term_end = some (130 * day);
  grant_references = [];
  tokens_granted = 0;
  status = active;
  withdrawn_at = none;
  refund_cents = none;
  stripe_refund_id = "";
}

abbrev no_tokens : Ledger
no_tokens = record { accounts = []; entries = []; next_account = 1; next_entry = 1 }

abbrev shop : Store
shop = record { bought = monthly; subscription_row = none; team_ends_at = none; ledger = no_tokens }

-- Ten days of thirty have been used.
ten_days_used : (refund_amount monthly no_tokens (110 * day)).refund_cents ≡ 600
unfolding refund_amount time_share token_share
ten_days_used = refl

not_a_token_package : subscription ≢ token_purchase
not_a_token_package h = cc

refund_amount_bounds_example :
    let calc = refund_amount monthly no_tokens (140 * day) in
    ((used : ℕ) × (calc.used_cents ≡ pos used) × (used + calc.refund_cents ≡ 900))
    × ((s t : ℕ)
        → monthly.kind ≢ token_purchase
        → monthly.term_start ≡ some s
        → monthly.term_end ≡ some t
        → s < t
        → t ≤ 140 * day
        → calc.refund_cents ≡ 0)
refund_amount_bounds_example = refund_amount_bounds monthly no_tokens (140 * day)

abbrev withdrawn_shop : Store
withdrawn_shop = (withdraw true "app" true (some "re_1") (110 * day) shop).1

first_withdrawal :
    withdraw true "app" true (some "re_1") (110 * day) shop
    ≡ (done (refund_amount monthly no_tokens (110 * day)) false, withdrawn_shop)
unfolding withdraw eligibility refund_amount time_share token_share complete_withdrawal
first_withdrawal = refl

withdraw_once_example :
    let calc = refund_amount monthly no_tokens (110 * day) in
    (eligibility true monthly (110 * day) ≡ none)
    × (calc ≡ refund_amount monthly no_tokens (110 * day))
    × (withdrawn_shop.bought.refund_cents ≡ some calc.refund_cents)
    × ((enabled' : Bool) (app' : String) (cancels' : Bool) (refund' : Option String) (now' : ℕ)
        → withdraw enabled' app' cancels' refund' now' withdrawn_shop
          ≡ (done (calculation_of monthly calc.refund_cents) true, withdrawn_shop))
withdraw_once_example =
    withdraw_once true "app" true (some "re_1") (110 * day) shop
      (refund_amount monthly no_tokens (110 * day)) withdrawn_shop first_withdrawal
