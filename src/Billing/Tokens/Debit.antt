-- ===== src/Billing/Tokens/Debit.antt =====
-- `debit_tokens` of billing/services.py: what a debit takes, when it is refused, and its retry.
use django_core_micha.Base.{
  ℕ, ◌+◌, ◌-◌, ◌<◌, ◌≤◌, min, ◌≡◌, refl, String, true, false, none, some, List, [], ◌∷◌, ◌++◌,
  arith, ltb, ◌==◌, select, Bool-cases, eq_refl, inl, inr, first_where-cons_none,
  first_where-append, lt→ltb, ap, ◌∙◌,
}
use django_core_micha.Billing.Ledger.{
  TokenEntry, Kind, debit, Ledger, left_of, is_spendable, sum_left, account_balance, find_reference,
  has_reference, create,
}
use django_core_micha.Billing.Tokens.{
  Result, ok, err, insufficient_tokens, in_order, set_remaining, spend, debit_fresh, debit_row,
}
use django_core_micha.Billing.Tokens.Spend.{HasUniquePks, balance-spend_credits, sum_left-in_order}

pub balance-append :
    (a now : ℕ) (rows : List TokenEntry) (e : TokenEntry)
    → is_spendable a now e ≡ false
    → account_balance a now (rows ++ e ∷ []) ≡ account_balance a now rows
unfolding account_balance
balance-append a now [] e h = ground arith
balance-append a now (x ∷ rows) e h = ground (arith, balance-append a now rows e h)

find_reference-set_remaining :
    (a : ℕ) (kind : Kind) (reference : String) (k n : ℕ) (rows : List TokenEntry)
    → find_reference a kind reference rows ≡ none
    → find_reference a kind reference (set_remaining k n rows) ≡ none
unfolding find_reference set_remaining
find_reference-set_remaining a kind reference k n [] h = refl
find_reference-set_remaining a kind reference k n (e ∷ rows) h =
    let (other, later) = first_where-cons_none (has_reference a kind reference) e rows h in
    elim (Bool-cases (e.pk == k)) [
      | inl hit ↦ rw (hit, other) later
      | inr miss ↦ rw (miss, other) (find_reference-set_remaining a kind reference k n rows later)
    ]

pub find_reference-spend :
    (a : ℕ) (kind : Kind) (reference : String) (left : ℕ) (credits rows : List TokenEntry)
    → find_reference a kind reference rows ≡ none
    → find_reference a kind reference (spend left credits rows) ≡ none
unfolding spend
find_reference-spend a kind reference left [] rows h = h
find_reference-spend a kind reference left (g ∷ credits) rows h =
    let take = min left (left_of g) in
    let saved = set_remaining g.pk (left_of g - take) rows in
    let kept = find_reference-set_remaining a kind reference g.pk (left_of g - take) rows h in
    let ih = find_reference-spend a kind reference (left - take) credits saved kept in
    elim (Bool-cases (left - take == 0)) [ inl e ↦ rw e kept | inr e ↦ rw e ih ]

pub find_reference-append :
    (a : ℕ) (kind : Kind) (reference : String) (rows : List TokenEntry) (e : TokenEntry)
    → find_reference a kind reference rows ≡ none
    → has_reference a kind reference e ≡ true
    → find_reference a kind reference (rows ++ e ∷ []) ≡ some e
unfolding find_reference
find_reference-append a kind reference rows e h p =
    first_where-append (has_reference a kind reference) rows e h p

credits_total :
    (a now : ℕ) (rows : List TokenEntry)
    → sum_left (in_order (select (is_spendable a now) rows)) ≡ account_balance a now rows
unfolding account_balance
credits_total a now rows = sum_left-in_order (select (is_spendable a now) rows)

debit_row_not_spendable :
    (app : String) (a n : ℕ) (purpose reference : String) (now pk : ℕ)
    → is_spendable a now (debit_row app a n purpose reference now pk) ≡ false
debit_row_not_spendable app a n purpose reference now pk = ground arith

-- What the locked part of a debit does, read off the balance before it: refused with nothing
-- changed, or the amount is taken, and the row is written last, behind the spent rows.
abbrev pub IsDebited :
    String → ℕ → ℕ → String → String → ℕ → Ledger → Result TokenEntry × Ledger → Type 0
IsDebited app a n purpose reference now db (r, db') =
    (account_balance a now db'.entries + n ≡ account_balance a now db.entries)
    × (r ≡ ok (debit_row app a n purpose reference now db.next_entry))
    × (db'.accounts ≡ db.accounts)
    × (find_reference a debit reference db.entries ≡ none
        → find_reference a debit reference db'.entries
          ≡ some (debit_row app a n purpose reference now db.next_entry))

module _ (app : String) (a n : ℕ) (purpose reference : String) (now : ℕ) (db : Ledger) where
  pub debit_fresh_short :
      account_balance a now db.entries < n
      → debit_fresh app a n purpose reference now db ≡ (err insufficient_tokens, db)
  unfolding debit_fresh create
  debit_fresh_short h = rw (credits_total a now db.entries, lt→ltb _ _ h)

  pub debit_fresh_enough :
      HasUniquePks db.entries
      → n ≤ account_balance a now db.entries
      → IsDebited app a n purpose reference now db (debit_fresh app a n purpose reference now db)
  unfolding debit_fresh create
  debit_fresh_enough u h =
      let test : ltb (sum_left (in_order (select (is_spendable a now) db.entries))) n ≡ false =
        rw (credits_total a now db.entries) (ground arith) in
      let row = debit_row app a n purpose reference now db.next_entry in
      let rows = spend n (in_order (select (is_spendable a now) db.entries)) db.entries in
      rw test (
        ap (λ k. k + n)
              (balance-append a now rows row
                (debit_row_not_spendable app a n purpose reference now db.next_entry))
            ∙ balance-spend_credits a now n db.entries u h,
        refl,
        refl,
        λ fresh.
            find_reference-append a debit reference rows row
              (find_reference-spend a debit reference n
                (in_order (select (is_spendable a now) db.entries)) db.entries fresh)
              (rw (eq_refl reference) (ground arith)),
      )
