-- ===== src/Billing/Tokens.antt =====
-- The token operations of src/django_core_micha/billing/services.py on the tables of Billing.Ledger.
-- `select_for_update` makes each function here one uninterrupted step. Time is a number of
-- microseconds and is passed in, since the source reads the clock once in each function.
pub mod Spend
pub mod Debit
pub mod Retry
pub mod Credits
pub mod Expiry
use django_core_micha.Billing.Ledger.{
  Ledger, Owner, TokenEntry, adjustment, create, debit, ensure_account, expiry, find_owner,
  find_reference, get_or_create, grant, is_spendable, left_of, purchase, same_kind, sum_left,
}
use django_core_micha.Base.{
  ℕ, zero, suc, ◌+◌, ◌-◌, min, String, Bool, true, false, not, ◌&&◌, ◌||◌, Option, none, some, List,
  [], ◌∷◌, ◌++◌, if◌then◌else◌, ltb, leb, ◌==◌, str_eq, select, take_chars, decimal,
}
use django_core_micha.Base.Int.{ℤ, pos, negsuc, neg, abs, eq_ℤ}

pub data TokenError : Type 0 where
  bad_amount missing_reference debit_reference_reused insufficient_tokens : TokenError
  reason_required unknown_debit : TokenError

pub data Result (A : Type 0) : Type 0 where
  ok : A → Result A
  err : TokenError → Result A

-- `type(amount) is not int or amount <= 0`, on the amounts that are integers.
abbrev pub positive : ℤ → Option ℕ
positive (pos zero) = none
positive (pos (suc n)) = some (suc n)
positive (negsuc n) = none

unfoldable pub grant_tokens :
    Owner → ℤ → Option ℕ → String → String → ℕ → Ledger → Result TokenEntry × Ledger
grant_tokens o amount expires_at reference purpose now db = elim (positive amount) [
  | none ↦ (err bad_amount, db)
  | some n ↦
      let (a, db') = ensure_account o db in
      let row : TokenEntry = record {
        pk = 0;
        account = a;
        kind = grant;
        amount = pos n;
        expires_at = expires_at;
        remaining = some n;
        purpose = purpose;
        reference = reference;
        app = "";
        created_at = now;
      } in
      let (e, db'') = if str_eq reference "" then create row db' else get_or_create row db' in
      (ok e, db'')
]

unfoldable pub credit_purchase : Owner → ℤ → String → ℕ → Ledger → Result TokenEntry × Ledger
credit_purchase o amount reference now db = elim (positive amount) [
  | none ↦ (err bad_amount, db)
  | some n ↦
      if str_eq reference ""
      then (err missing_reference, db)
      else let (a, db') = ensure_account o db in
        let row : TokenEntry = record {
          pk = 0;
          account = a;
          kind = purchase;
          amount = pos n;
          expires_at = none;
          remaining = some n;
          purpose = "";
          reference = reference;
          app = "";
          created_at = now;
        } in
        let (e, db'') = get_or_create row db' in (ok e, db'')
]

-- `order_by(F("expires_at").asc(nulls_last=True), "created_at", "pk")`
abbrev pub expires_before : Option ℕ → Option ℕ → Bool
expires_before (some s) (some t) = ltb s t
expires_before (some s) none = true
expires_before none t = false

abbrev pub precedes : TokenEntry → TokenEntry → Bool
precedes e f =
    expires_before e.expires_at f.expires_at
    || not (expires_before f.expires_at e.expires_at)
      && (ltb e.created_at f.created_at || e.created_at == f.created_at && leb e.pk f.pk)

unfoldable pub place : TokenEntry → List TokenEntry → List TokenEntry
place e [] = e ∷ []
place e (f ∷ rows) = if precedes e f then e ∷ f ∷ rows else f ∷ place e rows

unfoldable pub in_order : List TokenEntry → List TokenEntry
in_order [] = []
in_order (e ∷ rows) = place e (in_order rows)

-- `grant.remaining = n; grant.save(update_fields=("remaining",))`
unfoldable pub set_remaining : ℕ → ℕ → List TokenEntry → List TokenEntry
set_remaining pk n [] = []
set_remaining pk n (e ∷ rows) =
    if e.pk == pk then record e { remaining = some n } ∷ rows else e ∷ set_remaining pk n rows

-- The loop of `debit_tokens` over the ordered credits, with its `break`.
unfoldable pub spend : ℕ → List TokenEntry → List TokenEntry → List TokenEntry
spend left [] rows = rows
spend left (e ∷ credits) rows =
    let take = min left (left_of e) in
    let saved = set_remaining e.pk (left_of e - take) rows in
    let rest = spend (left - take) credits saved in if left - take == 0 then saved else rest

-- The row that a debit writes.
abbrev pub debit_row : String → ℕ → ℕ → String → String → ℕ → ℕ → TokenEntry
debit_row app a n purpose reference now pk = record {
  pk = pk;
  account = a;
  kind = debit;
  amount = neg n;
  expires_at = none;
  remaining = none;
  purpose = purpose;
  reference = reference;
  app = app;
  created_at = now;
}

-- The locked part of a debit whose reference is new to the account.
unfoldable pub debit_fresh :
    String → ℕ → ℕ → String → String → ℕ → Ledger → Result TokenEntry × Ledger
debit_fresh app a n purpose reference now db =
    let credits = in_order (select (is_spendable a now) db.entries) in
    if ltb (sum_left credits) n
    then (err insufficient_tokens, db)
    else let spent = record db { entries = spend n credits db.entries } in
      let (e, db') = create (debit_row app a n purpose reference now 0) spent in (ok e, db')

-- The locked part of `debit_tokens`: a retry must repeat the same debit.
unfoldable pub debit_account :
    String → ℕ → ℕ → String → String → ℕ → Ledger → Result TokenEntry × Ledger
debit_account app a n purpose reference now db =
    elim (find_reference a debit reference db.entries) [
      | some old ↦ (if eq_ℤ old.amount (neg n) then ok old else err debit_reference_reused, db)
      | none ↦ debit_fresh app a n purpose reference now db
    ]

unfoldable pub debit_tokens :
    String → Owner → ℤ → String → String → ℕ → Ledger → Result TokenEntry × Ledger
debit_tokens app o amount purpose reference now db = elim (positive amount) [
  | none ↦ (err bad_amount, db)
  | some n ↦
      if str_eq reference ""
      then (err missing_reference, db)
      else let (a, db') = ensure_account o db in debit_account app a n purpose reference now db'
]

-- The text of `f"reversal:{reference}"`.
abbrev pub reversal_reference : String → String
reversal_reference reference = Prim.Native.String.◌++◌ "reversal:" reference

unfoldable pub reverse_debit :
    String → Owner → String → String → ℕ → Ledger → Result TokenEntry × Ledger
reverse_debit app o reference reason now db =
    if str_eq reason "" then (err reason_required, db) else elim (find_owner o db.accounts) [
      | none ↦ (err unknown_debit, db)
      | some a ↦ elim (find_reference a debit reference db.entries) [
        | none ↦ (err unknown_debit, db)
        | some old ↦
            let row : TokenEntry = record {
              pk = 0;
              account = a;
              kind = adjustment;
              amount = pos (abs old.amount);
              expires_at = none;
              remaining = some (abs old.amount);
              purpose = take_chars 120 reason;
              reference = reversal_reference reference;
              app = app;
              created_at = now;
            } in
            let (e, db') = get_or_create row db in (ok e, db')
      ]
    ]

-- A grant that `expire_tokens` closes at this time.
abbrev pub is_overdue : ℕ → TokenEntry → Bool
is_overdue now e =
    same_kind e.kind grant
    && ltb 0 (left_of e)
    && elim e.expires_at [ none ↦ false | some t ↦ leb t now ]

abbrev pub expiry_reference : ℕ → String
expiry_reference pk = Prim.Native.String.◌++◌ "expiry:" (decimal pk)

-- One round of the loop of `expire_tokens`.
unfoldable pub close_grant : ℕ → TokenEntry → Ledger → Ledger
close_grant now e db =
    let row : TokenEntry = record {
      pk = 0;
      account = e.account;
      kind = expiry;
      amount = neg (left_of e);
      expires_at = none;
      remaining = none;
      purpose = "expired grant";
      reference = expiry_reference e.pk;
      app = "";
      created_at = now;
    } in
    (get_or_create row (record db { entries = set_remaining e.pk 0 db.entries })).1

unfoldable pub close_grants : ℕ → List TokenEntry → Ledger → ℕ × Ledger
close_grants now [] db = (0, db)
close_grants now (e ∷ grants) db =
    let (count, db') = close_grants now grants (close_grant now e db) in (suc count, db')

-- The rows are found before the loop starts.
unfoldable pub expire_tokens : ℕ → Ledger → ℕ × Ledger
expire_tokens now db = close_grants now (select (is_overdue now) db.entries) db
