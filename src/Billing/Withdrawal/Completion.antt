-- ===== src/Billing/Withdrawal/Completion.antt =====
-- A withdrawal takes effect once (billing/withdrawal.py).
use django_core_micha.Base.{ℕ, String, Bool, false, true, Option, some, none, ◌≡◌, arith, refl}
use django_core_micha.Billing.Refund.{
  Purchase, RefundCalculation, withdrawn, refund_amount, eligibility,
}
use django_core_micha.Billing.Withdrawal.{
  Store, done, withdraw, complete_withdrawal, complete, calculation_of,
}

-- A purchase that has been withdrawn with this refund.
abbrev IsWithdrawn : Purchase → ℕ → Purchase → Type 0
IsWithdrawn p n p' =
    (p'.status ≡ withdrawn)
    × (p'.refund_cents ≡ some n)
    × (p'.amount_paid_cents ≡ p.amount_paid_cents)

-- What `complete_withdrawal` does where it takes effect.
completion :
    (app : String) (cancels : Bool) (cents now : ℕ) (id : String) (c calc : RefundCalculation)
    (st st' : Store)
    → complete_withdrawal app cancels now cents id (some c) st ≡ (done calc false, st')
    → (calc ≡ c) × IsWithdrawn st.bought cents st'.bought
unfolding complete_withdrawal complete
completion app cancels cents now id c calc st st' h = ground arith

-- How a withdrawal takes effect.
effect :
    (enabled : Bool) (app : String) (cancels : Bool) (refund : Option String) (now : ℕ) (st : Store)
    (calc : RefundCalculation) (st' : Store)
    → withdraw enabled app cancels refund now st ≡ (done calc false, st')
    → (eligibility enabled st.bought now ≡ none)
      × (calc ≡ refund_amount st.bought st.ledger now)
      × IsWithdrawn st.bought (refund_amount st.bought st.ledger now).refund_cents st'.bought
unfolding withdraw
effect enabled app cancels none now st calc st' h =
    let c = refund_amount st.bought st.ledger now in
    ground (arith, completion app cancels 0 now "" c calc st st')
effect enabled app cancels (some id) now st calc st' h =
    let c = refund_amount st.bought st.ledger now in
    ground (
      arith,
      completion app cancels 0 now "" c calc st st',
      completion app cancels c.refund_cents now id c calc st st',
    )

withdraw_again :
    (enabled : Bool) (app : String) (cancels : Bool) (refund : Option String) (now n : ℕ)
    (p : Purchase) (st : Store)
    → IsWithdrawn p n st.bought
    → withdraw enabled app cancels refund now st ≡ (done (calculation_of p n) true, st)
unfolding withdraw
withdraw_again enabled app cancels refund now n p st (status, refunded, paid) = ground arith

-- A withdrawal that takes effect was eligible, marks the purchase with the calculated refund, and a
-- second one, at any time and whatever Stripe answers, returns the same refund and changes nothing.
pub withdraw_once :
    (enabled : Bool) (app : String) (cancels : Bool) (refund : Option String) (now : ℕ) (st : Store)
    (calc : RefundCalculation) (st' : Store)
    → withdraw enabled app cancels refund now st ≡ (done calc false, st')
    → (eligibility enabled st.bought now ≡ none)
      × (calc ≡ refund_amount st.bought st.ledger now)
      × (st'.bought.refund_cents ≡ some calc.refund_cents)
      × ((enabled' : Bool) (app' : String) (cancels' : Bool) (refund' : Option String) (now' : ℕ)
          → withdraw enabled' app' cancels' refund' now' st'
            ≡ (done (calculation_of st.bought calc.refund_cents) true, st'))
withdraw_once enabled app cancels refund now st calc st' h =
    let (eligible, same, done_) = effect enabled app cancels refund now st calc st' h in
    rw same (
      eligible,
      refl,
      done_.1,
      λ enabled' app' cancels' refund' now'.
          withdraw_again enabled' app' cancels' refund' now' _ st.bought st' done_,
    )
