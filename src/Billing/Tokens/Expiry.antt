-- ===== src/Billing/Tokens/Expiry.antt =====
-- `expire_tokens` of billing/services.py: it closes overdue grants and leaves every balance alone.
use django_core_micha.Billing.Tokens.Credits.{get_or_create-cases}
use django_core_micha.Billing.Tokens.Debit.{balance-append}
use django_core_micha.Base.{
  ℕ, ◌≡◌, refl, true, some, List, [], ◌∷◌, arith, length, suc, false, ◌⊎◌, select, inl, All, inr,
  ◌≢◌, ◌∙◌, first_where-append_some, ◌==◌, ◌++◌, ◌+◌, none, ap,
}
use django_core_micha.Billing.Ledger.{TokenEntry, account_balance, Ledger}
use django_core_micha.Billing.Tokens.{
  is_overdue, set_remaining, close_grant, close_grants, expire_tokens,
}
use django_core_micha.Billing.Tokens.Spend.{
  find_pk, HasUniquePks, IsListed, select_sound, find_pk-set_remaining_ne, All-select,
  IsListed-self, HasUniquePks-select,
}

-- Clearing a row that does not count leaves the balance.
balance-clear :
    (a now k : ℕ) (rows : List TokenEntry) (g : TokenEntry)
    → find_pk k rows ≡ some g
    → is_overdue now g ≡ true
    → account_balance a now (set_remaining k 0 rows) ≡ account_balance a now rows
unfolding account_balance set_remaining
balance-clear a now k [] g e h = refl
balance-clear a now k (x ∷ rows) g e h = ground (arith, balance-clear a now k rows g)

abbrev pub overdue_count : ℕ → List TokenEntry → ℕ
overdue_count now rows = length (select (is_overdue now) rows)

-- Clearing an overdue row leaves one fewer.
count-clear :
    (now k : ℕ) (rows : List TokenEntry) (g : TokenEntry)
    → find_pk k rows ≡ some g
    → is_overdue now g ≡ true
    → suc (overdue_count now (set_remaining k 0 rows)) ≡ overdue_count now rows
unfolding set_remaining
count-clear now k [] g e h = cc
count-clear now k (x ∷ rows) g e h = ground (arith, count-clear now k rows g)

count-append :
    (now : ℕ) (rows : List TokenEntry) (e : TokenEntry)
    → is_overdue now e ≡ false
    → overdue_count now (rows ++ e ∷ []) ≡ overdue_count now rows
count-append now [] e h = ground arith
count-append now (x ∷ rows) e h = ground (arith, count-append now rows e h)

-- The rows after a round: those of the cleared table, and perhaps one row that is neither
-- spendable nor overdue.
abbrev ClosesTo : ℕ → TokenEntry → List TokenEntry → List TokenEntry → Type 0
ClosesTo now e rows rows' =
    (rows' ≡ set_remaining e.pk 0 rows)
    ⊎ ((f : TokenEntry) × (rows' ≡ set_remaining e.pk 0 rows ++ f ∷ []) × (f.remaining ≡ none))

close_grant-ClosesTo :
    (now : ℕ) (e : TokenEntry) (db : Ledger)
    → ClosesTo now e db.entries (close_grant now e db).entries
unfolding close_grant
close_grant-ClosesTo now e db = elim (get_or_create-cases _ _) [
  | inl same ↦ inl same
  | inr more ↦ inr (_, more, refl)
]

close_grant-balance :
    (a now : ℕ) (e : TokenEntry) (db : Ledger)
    → find_pk e.pk db.entries ≡ some e
    → is_overdue now e ≡ true
    → (account_balance a now (close_grant now e db).entries ≡ account_balance a now db.entries)
      × (suc (overdue_count now (close_grant now e db).entries) ≡ overdue_count now db.entries)
close_grant-balance a now e db l o = elim (close_grant-ClosesTo now e db) [
  | inl same ↦
      rw same (balance-clear a now e.pk db.entries e l o, count-clear now e.pk db.entries e l o)
  | inr (f, more, null) ↦
      let cleared = set_remaining e.pk 0 db.entries in
      rw more (
        balance-append a now cleared f (ground arith) ∙ balance-clear a now e.pk db.entries e l o,
        ap suc (count-append now cleared f (ground arith)) ∙ count-clear now e.pk db.entries e l o,
      )
]

IsListed-close_grant :
    (now : ℕ) (e : TokenEntry) (db : Ledger) (grants : List TokenEntry)
    → All (λ f. f.pk ≢ e.pk) grants
    → IsListed db.entries grants
    → IsListed (close_grant now e db).entries grants
IsListed-close_grant now e db [] d l = tt
IsListed-close_grant now e db (g ∷ grants) d l =
    let kept = find_pk-set_remaining_ne g.pk e.pk 0 db.entries d.0 ∙ l.0 in
    (
      elim (close_grant-ClosesTo now e db) [
        | inl same ↦ rw same kept
        | inr (f, more, null) ↦ rw more (
            first_where-append_some (λ x. x.pk == g.pk) (set_remaining e.pk 0 db.entries) (f ∷ [])
              kept)
      ],
      IsListed-close_grant now e db grants d.1 l.1,
    )

close_grants-balance :
    (a now : ℕ) (grants : List TokenEntry) (db : Ledger)
    → All (λ e. is_overdue now e ≡ true) grants
    → IsListed db.entries grants
    → HasUniquePks grants
    → let (n, db') = close_grants now grants db in
      (n ≡ length grants)
      × (account_balance a now db'.entries ≡ account_balance a now db.entries)
      × (overdue_count now db'.entries + n ≡ overdue_count now db.entries)
unfolding close_grants
close_grants-balance a now [] db o l u = (refl, refl, omega arith)
close_grants-balance a now (e ∷ grants) db o l u =
    let (same, fewer) = close_grant-balance a now e db l.0 o.0 in
    let (n, kept, left) =
      close_grants-balance a now grants (close_grant now e db) o.1
        (IsListed-close_grant now e db grants u.0 l.1) u.1 in
    (ap suc n, kept ∙ same, omega arith)

-- Where primary keys are unique, `expire_tokens` returns the number of grants that are overdue,
-- leaves none of them, and changes the balance of no account at that time.
pub expire_tokens_lem :
    (a now : ℕ) (db : Ledger)
    → HasUniquePks db.entries
    → let (n, db') = expire_tokens now db in
      (n ≡ overdue_count now db.entries)
      × (overdue_count now db'.entries ≡ 0)
      × (account_balance a now db'.entries ≡ account_balance a now db.entries)
unfolding expire_tokens
expire_tokens_lem a now db u =
    let found = select (is_overdue now) db.entries in
    let (n, same, left) =
      close_grants-balance a now found db (select_sound (is_overdue now) db.entries)
        (All-select (λ e. find_pk e.pk db.entries ≡ some e) (is_overdue now) db.entries
          (IsListed-self db.entries u))
        (HasUniquePks-select (is_overdue now) db.entries u) in
    (n, omega arith, same)
