-- ===== src/Billing/Tokens/Credits.antt =====
-- Grants, purchases and reversals of billing/services.py: each reference counts once.
use django_core_micha.Base.{
  ℕ, suc, ◌+◌, ◌≡◌, refl, ◌≢◌, String, true, Option, none, some, List, [], ◌∷◌, ◌++◌, arith,
  Option-cases, inl, inr, eq_refl, ◌∙◌, ap, take_chars, first_where-append_some, ltb, Bool-cases,
  ◌⊎◌,
}
use django_core_micha.Base.Int.{pos, abs}
use django_core_micha.Billing.Ledger.{
  TokenEntry, Kind, grant, Owner, Ledger, find_owner, left_of, is_spendable, account_balance,
  token_balance, find_reference, create, get_or_create, same_kind, unexpired, adjustment, debit,
  has_reference,
}
use django_core_micha.Billing.Tokens.{ok, grant_tokens, reverse_debit, reversal_reference}
use django_core_micha.Billing.Tokens.Debit.{find_reference-append, balance-append}
use django_core_micha.Billing.Tokens.Retry.{ensure_account_known, token_balance_known, str_eq-false}

same_kind_refl : (k : Kind) → same_kind k k ≡ true
same_kind_refl Kind.grant = refl
same_kind_refl _ = refl

-- After `get_or_create` the row is the one that its reference finds, whether it was new or not.
pub find_reference-get_or_create :
    (row : TokenEntry) (db : Ledger)
    → find_reference row.account row.kind row.reference (get_or_create row db).1.entries
      ≡ some (get_or_create row db).0
unfolding get_or_create create
find_reference-get_or_create row db =
    elim (Option-cases (find_reference row.account row.kind row.reference db.entries)) [
      | inl fresh ↦
          rw (fresh, get_or_create)
            (find_reference-append row.account row.kind row.reference db.entries
              (record row { pk = db.next_entry }) fresh
              (rw (same_kind_refl row.kind, eq_refl row.reference) (ground arith)))
      | inr (e, found) ↦ rw (found, get_or_create) found
    ]

pub get_or_create-found :
    (row e : TokenEntry) (db : Ledger)
    → find_reference row.account row.kind row.reference db.entries ≡ some e
    → get_or_create row db ≡ (e, db)
unfolding get_or_create
get_or_create-found row e db found = rw (found, get_or_create)

-- `get_or_create` leaves the rows, or adds the given one last.
pub get_or_create-cases :
    (row : TokenEntry) (db : Ledger)
    → ((get_or_create row db).1.entries ≡ db.entries)
      ⊎ ((get_or_create row db).1.entries ≡ db.entries ++ record row { pk = db.next_entry } ∷ [])
unfolding get_or_create create
get_or_create-cases row db =
    elim (Option-cases (find_reference row.account row.kind row.reference db.entries)) [
      | inl fresh ↦ inr (rw (fresh, get_or_create))
      | inr (f, found) ↦ inl (rw (found, get_or_create))
    ]

-- What a reference finds is not hidden by a row that `get_or_create` adds.
find_reference-get_or_create-some :
    (row : TokenEntry) (a : ℕ) (kind : Kind) (reference : String) (db : Ledger) {e : TokenEntry}
    → find_reference a kind reference db.entries ≡ some e
    → find_reference a kind reference (get_or_create row db).1.entries ≡ some e
unfolding get_or_create create
find_reference-get_or_create-some row a kind reference db h =
    elim (Option-cases (find_reference row.account row.kind row.reference db.entries)) [
      | inl fresh ↦
          rw (fresh, get_or_create)
            (unfold find_reference in
              first_where-append_some (has_reference a kind reference) db.entries
                (record row { pk = db.next_entry } ∷ []) h)
      | inr (f, found) ↦ rw (found, get_or_create) h
    ]

accounts-get_or_create :
    (row : TokenEntry) (db : Ledger) → (get_or_create row db).1.accounts ≡ db.accounts
unfolding get_or_create create
accounts-get_or_create row db = ground arith

-- A credit row adds what it holds to the balance, if it is of this account and has not expired.
pub balance-append_credit :
    (a now : ℕ) (rows : List TokenEntry) (e : TokenEntry)
    → is_spendable a now e ≡ true
    → account_balance a now (rows ++ e ∷ []) ≡ account_balance a now rows + left_of e
unfolding account_balance
balance-append_credit a now [] e h = ground arith
balance-append_credit a now (x ∷ rows) e h = ground (arith, balance-append_credit a now rows e h)

-- A row that is spendable as far as it holds anything adds what it holds.
balance-append_left :
    (a now : ℕ) (rows : List TokenEntry) (e : TokenEntry)
    → is_spendable a now e ≡ ltb 0 (left_of e)
    → account_balance a now (rows ++ e ∷ []) ≡ account_balance a now rows + left_of e
balance-append_left a now rows e h = elim (Bool-cases (ltb 0 (left_of e))) [
  | inl holds ↦ balance-append_credit a now rows e (h ∙ holds)
  | inr empty ↦ rw (balance-append a now rows e (h ∙ empty)) (ground arith)
]

-- The row of a grant.
abbrev pub grant_row : ℕ → ℕ → Option ℕ → String → String → ℕ → ℕ → TokenEntry
grant_row a n expires_at reference purpose now pk = record {
  pk = pk;
  account = a;
  kind = grant;
  amount = pos n;
  expires_at = expires_at;
  remaining = some n;
  purpose = purpose;
  reference = reference;
  app = "";
  created_at = now;
}

grant_tokens_known :
    (o : Owner) (n : ℕ) (expires_at : Option ℕ) (reference purpose : String) (now : ℕ) (db : Ledger)
    {a : ℕ}
    → find_owner o db.accounts ≡ some a
    → reference ≢ ""
    → grant_tokens o (pos (suc n)) expires_at reference purpose now db ≡ (
      ok (get_or_create (grant_row a (suc n) expires_at reference purpose now 0) db).0,
      (get_or_create (grant_row a (suc n) expires_at reference purpose now 0) db).1,
    )
unfolding grant_tokens
grant_tokens_known o n expires_at reference purpose now db known named =
    rw (ensure_account_known o db known, str_eq-false reference "" named)

module _ (o : Owner) (n : ℕ) (expires_at : Option ℕ) (reference purpose : String) (now : ℕ)
    (db : Ledger) {a : ℕ} (known : find_owner o db.accounts ≡ some a) (named : reference ≢ "") where
  -- The first grant of a reference that is not empty to an existing account raises the balance by
  -- its positive amount, if the grant has not expired already.
  pub grant_tokens_new :
      find_reference a grant reference db.entries ≡ none
      → unexpired now expires_at ≡ true
      → token_balance o now (grant_tokens o (pos (suc n)) expires_at reference purpose now db).1
        ≡ token_balance o now db + suc n
  unfolding get_or_create create
  grant_tokens_new fresh live =
      let row = grant_row a (suc n) expires_at reference purpose now 0 in
      let e = grant_row a (suc n) expires_at reference purpose now db.next_entry in
      let made : get_or_create row db ≡ create row db = rw (fresh, get_or_create) in
      rw
        (
          grant_tokens_known o n expires_at reference purpose now db known named,
          made,
          token_balance_known o now db known,
        )
        (token_balance_known o now (create row db).1 known
          ∙ balance-append_credit a now db.entries e (ground arith))

  -- For an existing account and a reference that is not empty: after a positive grant, a second
  -- one with the same reference, whatever its positive amount, expiry and time, returns the same
  -- row and changes nothing.
  pub grant_tokens_again :
      (m : ℕ) (expires_at' : Option ℕ) (purpose' : String) (now' : ℕ)
      → let (r, db') = grant_tokens o (pos (suc n)) expires_at reference purpose now db in
        grant_tokens o (pos (suc m)) expires_at' reference purpose' now' db' ≡ (r, db')
  grant_tokens_again m expires_at' purpose' now' =
      let row = grant_row a (suc n) expires_at reference purpose now 0 in
      let (e, db') = get_or_create row db in
      let known' : find_owner o db'.accounts ≡ some a =
        ap (find_owner o) (accounts-get_or_create row db) ∙ known in
      let found =
        get_or_create-found (grant_row a (suc m) expires_at' reference purpose' now' 0) e db'
          (find_reference-get_or_create row db) in
      rw (
        grant_tokens_known o n expires_at reference purpose now db known named,
        grant_tokens_known o m expires_at' reference purpose' now' db' known' named,
        found,
      )

-- The row of a reversal of a debit of `n`.
abbrev pub reversal_row : String → ℕ → ℕ → String → String → ℕ → ℕ → TokenEntry
reversal_row app a n reference reason now pk = record {
  pk = pk;
  account = a;
  kind = adjustment;
  amount = pos n;
  expires_at = none;
  remaining = some n;
  purpose = take_chars 120 reason;
  reference = reversal_reference reference;
  app = app;
  created_at = now;
}

reverse_debit_known :
    (app : String) (o : Owner) (reference reason : String) (now : ℕ) (db : Ledger) {a : ℕ}
    {old : TokenEntry}
    → find_owner o db.accounts ≡ some a
    → find_reference a debit reference db.entries ≡ some old
    → reason ≢ ""
    → reverse_debit app o reference reason now db ≡ (
      ok (get_or_create (reversal_row app a (abs old.amount) reference reason now 0) db).0,
      (get_or_create (reversal_row app a (abs old.amount) reference reason now 0) db).1,
    )
unfolding reverse_debit
reverse_debit_known app o reference reason now db known debited given =
    rw (str_eq-false reason "" given, known) (rw debited)

module _ (app : String) (o : Owner) (reference reason : String) (now : ℕ) (db : Ledger) {a : ℕ}
    {old : TokenEntry} (known : find_owner o db.accounts ≡ some a)
    (debited : find_reference a debit reference db.entries ≡ some old) (given : reason ≢ "") where
  -- The first reversal of a debit that an existing account has, with a reason that is not empty,
  -- raises the balance by the amount that was debited.
  pub reverse_debit_new :
      find_reference a adjustment (reversal_reference reference) db.entries ≡ none
      → token_balance o now (reverse_debit app o reference reason now db).1
        ≡ token_balance o now db + abs old.amount
  unfolding get_or_create create
  reverse_debit_new fresh =
      let row = reversal_row app a (abs old.amount) reference reason now 0 in
      let e = reversal_row app a (abs old.amount) reference reason now db.next_entry in
      let made : get_or_create row db ≡ create row db = rw (fresh, get_or_create) in
      rw
        (
          reverse_debit_known app o reference reason now db known debited given,
          made,
          token_balance_known o now db known,
        )
        (token_balance_known o now (create row db).1 known
          ∙ balance-append_left a now db.entries e (ground arith))

  -- After a reversal of a debit that an existing account has, with a reason that is not empty, a
  -- second reversal, for whatever such reason and at whatever time, returns the same row and
  -- changes nothing.
  pub reverse_debit_again :
      (app' reason' : String) (now' : ℕ)
      → reason' ≢ ""
      → let (r, db') = reverse_debit app o reference reason now db in
        reverse_debit app' o reference reason' now' db' ≡ (r, db')
  reverse_debit_again app' reason' now' given' =
      let row = reversal_row app a (abs old.amount) reference reason now 0 in
      let (e, db') = get_or_create row db in
      let known' : find_owner o db'.accounts ≡ some a =
        ap (find_owner o) (accounts-get_or_create row db) ∙ known in
      let found =
        get_or_create-found (reversal_row app' a (abs old.amount) reference reason' now' 0) e db'
          (find_reference-get_or_create row db) in
      rw (
        reverse_debit_known app o reference reason now db known debited given,
        reverse_debit_known app' o reference reason' now' db' known'
            (find_reference-get_or_create-some row a debit reference db debited) given',
        found,
      )
