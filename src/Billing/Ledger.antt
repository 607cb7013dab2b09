-- ===== src/Billing/Ledger.antt =====
-- The tables of the token ledger and the queries on them: TokenAccount and TokenEntry of
-- src/django_core_micha/billing/models.py, as billing/services.py reads them. A table is the list of
-- its rows in insertion order; a query is a selection from it.
use django_core_micha.Base.{
  ℕ, suc, ◌+◌, String, Bool, true, false, ◌&&◌, Option, none, some, List, [], ◌∷◌, ◌++◌,
  if◌then◌else◌, ltb, ◌==◌, str_eq, select, first_where,
}
use django_core_micha.Base.Int.{ℤ}

pub data Kind : Type 0 where
  grant purchase debit expiry adjustment : Kind

abbrev pub same_kind : Kind → Kind → Bool
same_kind grant grant = true
same_kind purchase purchase = true
same_kind debit debit = true
same_kind expiry expiry = true
same_kind adjustment adjustment = true
same_kind _ _ = false

pub record TokenEntry : Type 0 where
  pub pk : ℕ
  pub account : ℕ
  pub kind : Kind
  pub amount : ℤ
  pub expires_at : Option ℕ
  pub remaining : Option ℕ
  pub purpose : String
  pub reference : String
  pub app : String
  pub created_at : ℕ

-- Exactly one of the two owner columns of an account is set.
pub data Owner : Type 0 where
  user : ℕ → Owner
  team_package : ℕ → Owner

abbrev pub same_owner : Owner → Owner → Bool
same_owner (user a) (user b) = a == b
same_owner (team_package a) (team_package b) = a == b
same_owner _ _ = false

pub record TokenAccount : Type 0 where
  pub account_pk : ℕ
  pub owner : Owner

pub record Ledger : Type 0 where
  pub accounts : List TokenAccount
  pub entries : List TokenEntry
  pub next_account : ℕ
  pub next_entry : ℕ

abbrev pub find_owner : Owner → List TokenAccount → Option ℕ
find_owner o [] = none
find_owner o (a ∷ rows) = if same_owner a.owner o then some a.account_pk else find_owner o rows

-- `_account(owner, create=True)`: the account, and the ledger that surely has it.
unfoldable pub ensure_account : Owner → Ledger → ℕ × Ledger
ensure_account o db = elim (find_owner o db.accounts) [
  | some a ↦ (a, db)
  | none ↦ (
    db.next_account,
    record db {
      accounts = db.accounts ++ record { account_pk = db.next_account; owner = o } ∷ [];
      next_account = suc db.next_account;
    },
  )
]

-- A null `remaining` counts as nothing.
abbrev pub left_of : TokenEntry → ℕ
left_of e = elim e.remaining [ none ↦ 0 | some n ↦ n ]

abbrev pub is_credit : Kind → Bool
is_credit grant = true
is_credit purchase = true
is_credit adjustment = true
is_credit _ = false

-- `models_q_expiry`
abbrev pub unexpired : ℕ → Option ℕ → Bool
unexpired now none = true
unexpired now (some t) = ltb now t

-- The filter that `token_balance` and `debit_tokens` share.
abbrev pub is_spendable : ℕ → ℕ → TokenEntry → Bool
is_spendable account now e =
    e.account == account && is_credit e.kind && ltb 0 (left_of e) && unexpired now e.expires_at

abbrev pub sum_left : List TokenEntry → ℕ
sum_left [] = 0
sum_left (e ∷ rows) = left_of e + sum_left rows

unfoldable pub account_balance : ℕ → ℕ → List TokenEntry → ℕ
account_balance account now rows = sum_left (select (is_spendable account now) rows)

unfoldable pub token_balance : Owner → ℕ → Ledger → ℕ
token_balance o now db = elim (find_owner o db.accounts) [
  | none ↦ 0
  | some a ↦ account_balance a now db.entries
]

abbrev pub has_reference : ℕ → Kind → String → TokenEntry → Bool
has_reference account kind reference e =
    e.account == account && same_kind e.kind kind && str_eq e.reference reference

-- The first row of an account with this kind and reference.
unfoldable pub find_reference : ℕ → Kind → String → List TokenEntry → Option TokenEntry
find_reference account kind reference = first_where (has_reference account kind reference)

-- `TokenEntry.objects.create`: the row is given the next primary key.
unfoldable pub create : TokenEntry → Ledger → TokenEntry × Ledger
create row db =
    let e = record row { pk = db.next_entry } in
    (e, record db { entries = db.entries ++ e ∷ []; next_entry = suc db.next_entry })

-- `TokenEntry.objects.get_or_create` by account, kind and reference.
unfoldable pub get_or_create : TokenEntry → Ledger → TokenEntry × Ledger
get_or_create row db = elim (find_reference row.account row.kind row.reference db.entries) [
  | some e ↦ (e, db)
  | none ↦ create row db
]
