-- ===== src/Billing/Tests.antt =====
-- The token ledger on concrete accounts (billing/services.py).
use django_core_micha.Billing.Tokens.Retry.{
  debit_tokens_enough, debit_tokens_retry, debit_tokens_short,
}
use django_core_micha.Billing.Tokens.Credits.{
  grant_tokens_again, reverse_debit_again, grant_tokens_new, reverse_debit_new,
}
use django_core_micha.Billing.Tokens.Expiry.{overdue_count, expire_tokens_lem}
use django_core_micha.Base.{
  ◌≡◌, refl, ◌≢◌, String, none, some, [], ◌∷◌, arith, str_eq, eq_iff, false, ℕ, ◌+◌,
}
use django_core_micha.Base.Int.{pos}
use django_core_micha.Billing.Ledger.{
  grant, debit, adjustment, user, Ledger, Owner, token_balance, find_reference, TokenEntry,
  account_balance, ensure_account, create, left_of,
}
use django_core_micha.Billing.Tokens.{
  spend, set_remaining, in_order, place, ok, err, debit_tokens, expire_tokens, grant_tokens,
  debit_row, reverse_debit, debit_reference_reused, insufficient_tokens, reversal_reference,
  debit_account, debit_fresh,
}
use django_core_micha.Billing.Tokens.Spend.{HasUniquePks}

abbrev clerk : Owner
clerk = user 7

abbrev grant_of : ℕ → ℕ → ℕ → String → TokenEntry
grant_of pk n expires reference = record {
  pk = pk;
  account = 1;
  kind = grant;
  amount = pos n;
  expires_at = some expires;
  remaining = some n;
  purpose = "plan";
  reference = reference;
  app = "";
  created_at = 10;
}

-- One account with two grants; the later row expires first.
abbrev two_grants : Ledger
two_grants = record {
  accounts = record { account_pk = 1; owner = clerk } ∷ [];
  entries = grant_of 1 5 900 "a" ∷ grant_of 2 4 500 "b" ∷ [];
  next_account = 2;
  next_entry = 3;
}

-- The same account after a debit of 6.
abbrev after_debit : Ledger
after_debit = (debit_tokens "app" clerk (pos 6) "use" "call" 100 two_grants).1

balance_before : token_balance clerk 100 two_grants ≡ 9
unfolding token_balance account_balance
balance_before = refl

-- The credit that expires first is used up first.
left_over : left_of (grant_of 1 3 900 "a") ≡ token_balance clerk 600 after_debit
unfolding token_balance account_balance debit_tokens debit_account debit_fresh ensure_account create
    spend set_remaining in_order place find_reference
left_over = refl

no_debit_yet : find_reference 1 debit "call" two_grants.entries ≡ none
unfolding find_reference
no_debit_yet = refl

two_grants-HasUniquePks : HasUniquePks two_grants.entries
two_grants-HasUniquePks = ground arith

named : (s : String) → str_eq s "" ≡ false → s ≢ ""
named s h e = ground (arith, eq_iff s "")

debit_tokens_retry_example :
    (debit_tokens "web" clerk (pos 8) "use" "call" 200 after_debit)
    ≡ (err debit_reference_reused, after_debit)
debit_tokens_retry_example =
    (debit_tokens_retry "app" clerk 5 "use" "call" 100 two_grants refl (named "call" refl) 7 "web"
        "use" 200 two_grants-HasUniquePks no_debit_yet (omega (arith, balance_before))).1
      (omega arith)

debit_tokens_enough_example :
    let (r, db') = debit_tokens "app" clerk (pos 6) "use" "call" 100 two_grants in
    (token_balance clerk 100 db' + 6 ≡ token_balance clerk 100 two_grants)
    × (r ≡ ok (debit_row "app" 1 6 "use" "call" 100 3))
debit_tokens_enough_example =
    debit_tokens_enough "app" clerk 5 "use" "call" 100 two_grants refl (named "call" refl)
      two_grants-HasUniquePks no_debit_yet (omega (arith, balance_before))

debit_tokens_short_example :
    debit_tokens "app" clerk (pos 10) "use" "call" 100 two_grants
    ≡ (err insufficient_tokens, two_grants)
debit_tokens_short_example =
    debit_tokens_short "app" clerk 9 "use" "call" 100 two_grants refl (named "call" refl)
      no_debit_yet (omega (arith, balance_before))

expire_tokens_lem_example :
    let (n, db') = expire_tokens 600 two_grants in
    (n ≡ overdue_count 600 two_grants.entries)
    × (overdue_count 600 db'.entries ≡ 0)
    × (account_balance 1 600 db'.entries ≡ account_balance 1 600 two_grants.entries)
expire_tokens_lem_example = expire_tokens_lem 1 600 two_grants two_grants-HasUniquePks

one_overdue : overdue_count 600 two_grants.entries ≡ 1
one_overdue = refl

no_grant_yet : find_reference 1 grant "c" two_grants.entries ≡ none
unfolding find_reference
no_grant_yet = refl

grant_tokens_new_example :
    token_balance clerk 100 (grant_tokens clerk (pos 3) none "c" "plan" 100 two_grants).1
    ≡ token_balance clerk 100 two_grants + 3
grant_tokens_new_example =
    grant_tokens_new clerk 2 none "c" "plan" 100 two_grants refl (named "c" refl) no_grant_yet refl

grant_tokens_again_case :
    let (r, db') = grant_tokens clerk (pos 3) none "c" "plan" 100 two_grants in
    grant_tokens clerk (pos 9) (some 700) "c" "again" 150 db' ≡ (r, db')
grant_tokens_again_case =
    grant_tokens_again clerk 2 none "c" "plan" 100 two_grants refl (named "c" refl) 8 (some 700)
      "again" 150

-- An account whose only rows are an empty grant and the debit that used it.
abbrev debited : Ledger
debited = record two_grants {
  entries =
      record (grant_of 1 5 900 "a") { remaining = some 0 }
      ∷ debit_row "app" 1 5 "use" "call" 100 2
      ∷ [];
}

found_debit :
    find_reference 1 debit "call" debited.entries ≡ some (debit_row "app" 1 5 "use" "call" 100 2)
unfolding find_reference
found_debit = refl

no_reversal_yet : find_reference 1 adjustment (reversal_reference "call") debited.entries ≡ none
unfolding find_reference
no_reversal_yet = refl

reverse_debit_new_example :
    token_balance clerk 200 (reverse_debit "app" clerk "call" "failed" 200 debited).1
    ≡ token_balance clerk 200 debited + 5
reverse_debit_new_example =
    reverse_debit_new "app" clerk "call" "failed" 200 debited refl found_debit (named "failed" refl)
      no_reversal_yet

reverse_debit_again_case :
    let (r, db') = reverse_debit "app" clerk "call" "failed" 200 debited in
    reverse_debit "app" clerk "call" "once more" 300 db' ≡ (r, db')
reverse_debit_again_case =
    reverse_debit_again "app" clerk "call" "failed" 200 debited refl found_debit
      (named "failed" refl) "app" "once more" 300 (named "once more" refl)
