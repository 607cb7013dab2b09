-- ===== src/Billing/Tokens/Retry.antt =====
-- The contract of `debit_tokens` (billing/services.py) towards its callers, account lookup included.
use django_core_micha.Base.{
  ℕ, suc, ◌+◌, ◌<◌, ◌≤◌, ◌≡◌, ◌≢◌, String, false, none, some, arith, str_eq, eq_iff, ◌∙◌, ap,
}
use django_core_micha.Base.Int.{pos}
use django_core_micha.Billing.Ledger.{
  debit, Owner, Ledger, find_owner, account_balance, token_balance, find_reference, ensure_account,
}
use django_core_micha.Billing.Tokens.{
  ok, err, insufficient_tokens, debit_reference_reused, debit_row, debit_fresh, debit_account,
  debit_tokens,
}
use django_core_micha.Billing.Tokens.Spend.{HasUniquePks}
use django_core_micha.Billing.Tokens.Debit.{debit_fresh_short, debit_fresh_enough}

pub str_eq-false : (s t : String) → s ≢ t → str_eq s t ≡ false
str_eq-false s t h = ground (arith, eq_iff s t)

pub ensure_account_known :
    (o : Owner) (db : Ledger) {a : ℕ}
    → find_owner o db.accounts ≡ some a
    → ensure_account o db ≡ (a, db)
unfolding ensure_account
ensure_account_known o db known = rw (known, ensure_account)

pub token_balance_known :
    (o : Owner) (now : ℕ) (db : Ledger) {a : ℕ}
    → find_owner o db.accounts ≡ some a
    → token_balance o now db ≡ account_balance a now db.entries
unfolding token_balance
token_balance_known o now db known = rw (known, token_balance)

debit_tokens_known :
    (app : String) (o : Owner) (n : ℕ) (purpose reference : String) (now : ℕ) (db : Ledger) {a : ℕ}
    → find_owner o db.accounts ≡ some a
    → reference ≢ ""
    → debit_tokens app o (pos (suc n)) purpose reference now db
      ≡ debit_account app a (suc n) purpose reference now db
unfolding debit_tokens
debit_tokens_known app o n purpose reference now db known named =
    rw (str_eq-false reference "" named, ensure_account_known o db known)

module _ (app : String) (o : Owner) (n : ℕ) (purpose reference : String) (now : ℕ) (db : Ledger)
    {a : ℕ} (known : find_owner o db.accounts ≡ some a) (named : reference ≢ "") where
  debit_tokens_fresh :
      find_reference a debit reference db.entries ≡ none
      → debit_tokens app o (pos (suc n)) purpose reference now db
        ≡ debit_fresh app a (suc n) purpose reference now db
  unfolding debit_account
  debit_tokens_fresh fresh =
      debit_tokens_known app o n purpose reference now db known named ∙ (rw (fresh, debit_account))

  -- For an existing account and a reference that is not empty and that the account has no debit
  -- of: a positive debit above the balance is refused and leaves the ledger as it was.
  pub debit_tokens_short :
      find_reference a debit reference db.entries ≡ none
      → token_balance o now db < suc n
      → debit_tokens app o (pos (suc n)) purpose reference now db ≡ (err insufficient_tokens, db)
  debit_tokens_short fresh h =
      debit_tokens_fresh fresh
      ∙ debit_fresh_short app a (suc n) purpose reference now db
          (rw (token_balance_known o now db known) at h)

  -- For an existing account with unique primary keys and a reference that is not empty and that
  -- the account has no debit of: a positive debit within the balance returns its new row and
  -- lowers the balance by exactly its amount.
  pub debit_tokens_enough :
      HasUniquePks db.entries
      → find_reference a debit reference db.entries ≡ none
      → suc n ≤ token_balance o now db
      → let (r, db') = debit_tokens app o (pos (suc n)) purpose reference now db in
        (token_balance o now db' + suc n ≡ token_balance o now db)
        × (r ≡ ok (debit_row app a (suc n) purpose reference now db.next_entry))
  unfolding token_balance
  debit_tokens_enough u fresh h =
      let done =
        debit_fresh_enough app a (suc n) purpose reference now db u
          (rw (token_balance_known o now db known) at h) in
      let after = (debit_fresh app a (suc n) purpose reference now db).1 in
      let known' : find_owner o after.accounts ≡ some a = ap (find_owner o) done.2 ∙ known in
      rw
        (
          debit_tokens_fresh fresh,
          token_balance_known o now db known,
          token_balance_known o now after known',
        )
        (done.0, done.1)

  -- For an existing account with unique primary keys and a reference that is not empty and that
  -- the account has no debit of: after a debit within the balance, a second call with the same
  -- reference and any positive amount, at any time, takes nothing. With the same amount it returns
  -- the first row, with another one it is refused.
  pub debit_tokens_retry :
      (m : ℕ) (app' purpose' : String) (now' : ℕ)
      → HasUniquePks db.entries
      → find_reference a debit reference db.entries ≡ none
      → suc n ≤ token_balance o now db
      → let db' = (debit_tokens app o (pos (suc n)) purpose reference now db).1 in
        let again = debit_tokens app' o (pos (suc m)) purpose' reference now' db' in
        (m ≡ n → again ≡ (ok (debit_row app a (suc n) purpose reference now db.next_entry), db'))
        × (m ≢ n → again ≡ (err debit_reference_reused, db'))
  unfolding debit_account
  debit_tokens_retry m app' purpose' now' u fresh h =
      let done =
        debit_fresh_enough app a (suc n) purpose reference now db u
          (rw (token_balance_known o now db known) at h) in
      let after = (debit_fresh app a (suc n) purpose reference now db).1 in
      let known' : find_owner o after.accounts ≡ some a = ap (find_owner o) done.2 ∙ known in
      let again = debit_tokens_known app' o m purpose' reference now' after known' named in
      rw (debit_tokens_fresh fresh, again)
        (
          λ e. rw (done.3 fresh, debit_account) (ground arith),
          λ e. rw (done.3 fresh, debit_account) (ground arith),
        )
