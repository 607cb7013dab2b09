-- ===== src/Billing/Tokens/Spend.antt =====
-- What the loop of `debit_tokens` (billing/services.py) does to the rows: it takes the amount from
-- the balance, row by row.
use django_core_micha.Base.{
  ℕ, ◌+◌, ◌-◌, ◌≤◌, min, ◌≡◌, refl, ◌≢◌, Bool, true, Option, some, List, [], ◌∷◌, arith, ◌==◌,
  select, first_where, All, Bool-cases, ◌∙◌, inl, inr, sym,
}
use django_core_micha.Billing.Ledger.{TokenEntry, left_of, is_spendable, sum_left, account_balance}
use django_core_micha.Billing.Tokens.{place, in_order, precedes, set_remaining, spend}

-- The row of a primary key.
abbrev pub find_pk : ℕ → List TokenEntry → Option TokenEntry
find_pk pk = first_where (λ e. e.pk == pk)

-- No two rows share a primary key.
abbrev pub HasUniquePks : List TokenEntry → Type 0
HasUniquePks [] = Unit
HasUniquePks (e ∷ rows) = All (λ f. f.pk ≢ e.pk) rows × HasUniquePks rows

-- The rows of `credits` stand in the table as they are.
abbrev pub IsListed : List TokenEntry → List TokenEntry → Type 0
IsListed rows credits = All (λ e. find_pk e.pk rows ≡ some e) credits

pub find_pk-set_remaining_ne :
    (j k n : ℕ) (rows : List TokenEntry)
    → j ≢ k
    → find_pk j (set_remaining k n rows) ≡ find_pk j rows
unfolding set_remaining
find_pk-set_remaining_ne j k n [] h = refl
find_pk-set_remaining_ne j k n (e ∷ rows) h = ground (arith, find_pk-set_remaining_ne j k n rows h)

IsListed-set_remaining :
    (k n : ℕ) (rows credits : List TokenEntry)
    → All (λ f. f.pk ≢ k) credits
    → IsListed rows credits
    → IsListed (set_remaining k n rows) credits
IsListed-set_remaining k n rows [] d h = tt
IsListed-set_remaining k n rows (e ∷ credits) d h = (
  find_pk-set_remaining_ne e.pk k n rows d.0 ∙ h.0,
  IsListed-set_remaining k n rows credits d.1 h.1,
)

-- Taking from a spendable row takes as much from the balance.
balance-set_remaining :
    (a now k take : ℕ) (rows : List TokenEntry) (g : TokenEntry)
    → find_pk k rows ≡ some g
    → is_spendable a now g ≡ true
    → take ≤ left_of g
    → account_balance a now (set_remaining k (left_of g - take) rows) + take
      ≡ account_balance a now rows
unfolding account_balance set_remaining
balance-set_remaining a now k take [] g e s h = cc
balance-set_remaining a now k take (x ∷ rows) g e s h =
    ground (arith, balance-set_remaining a now k take rows g)

-- The loop takes exactly the amount from the balance, if the credits hold as much.
pub balance-spend :
    (a now left : ℕ) (credits rows : List TokenEntry)
    → All (λ g. is_spendable a now g ≡ true) credits
    → IsListed rows credits
    → HasUniquePks credits
    → left ≤ sum_left credits
    → account_balance a now (spend left credits rows) + left ≡ account_balance a now rows
unfolding spend
balance-spend a now left [] rows s l u h = omega arith
balance-spend a now left (g ∷ credits) rows s l u h =
    let take = min left (left_of g) in
    let saved = set_remaining g.pk (left_of g - take) rows in
    let one = balance-set_remaining a now g.pk take rows g l.0 s.0 (omega arith) in
    let kept = IsListed-set_remaining g.pk (left_of g - take) rows credits u.0 l.1 in
    ground (arith, one, balance-spend a now (left - take) credits saved s.1 kept u.1)

-- Sorting keeps every element, and with it the sum.
All-place :
    (P : TokenEntry → Type 0) (e : TokenEntry) (rows : List TokenEntry)
    → P e
    → All P rows
    → All P (place e rows)
unfolding place
All-place P e [] p h = (p, tt)
All-place P e (f ∷ rows) p h = elim (Bool-cases (precedes e f)) [
  | inl yes_ ↦ rw yes_ (p, h)
  | inr no_ ↦ rw no_ (h.0, All-place P e rows p h.1)
]

All-in_order :
    (P : TokenEntry → Type 0) (rows : List TokenEntry) → All P rows → All P (in_order rows)
unfolding in_order
All-in_order P [] h = tt
All-in_order P (e ∷ rows) h = All-place P e (in_order rows) h.0 (All-in_order P rows h.1)

HasUniquePks-place :
    (e : TokenEntry) (rows : List TokenEntry)
    → All (λ f. f.pk ≢ e.pk) rows
    → HasUniquePks rows
    → HasUniquePks (place e rows)
unfolding place
HasUniquePks-place e [] h u = (tt, tt)
HasUniquePks-place e (f ∷ rows) h u = elim (Bool-cases (precedes e f)) [
  | inl first ↦ rw first (h, u)
  | inr later ↦ rw later (
    All-place (λ x. x.pk ≢ f.pk) e rows (λ q. h.0 (sym q)) u.0,
    HasUniquePks-place e rows h.1 u.1,
  )
]

HasUniquePks-in_order : (rows : List TokenEntry) → HasUniquePks rows → HasUniquePks (in_order rows)
unfolding in_order
HasUniquePks-in_order [] u = tt
HasUniquePks-in_order (e ∷ rows) u =
    HasUniquePks-place e (in_order rows) (All-in_order (λ f. f.pk ≢ e.pk) rows u.0)
      (HasUniquePks-in_order rows u.1)

sum_left-place :
    (e : TokenEntry) (rows : List TokenEntry) → sum_left (place e rows) ≡ left_of e + sum_left rows
unfolding place
sum_left-place e [] = refl
sum_left-place e (f ∷ rows) = ground (arith, sum_left-place e rows)

pub sum_left-in_order : (rows : List TokenEntry) → sum_left (in_order rows) ≡ sum_left rows
unfolding in_order
sum_left-in_order [] = refl
sum_left-in_order (e ∷ rows) =
    omega (arith, sum_left-place e (in_order rows), sum_left-in_order rows)

pub All-select :
    (P : TokenEntry → Type 0) (p : TokenEntry → Bool) (rows : List TokenEntry)
    → All P rows
    → All P (select p rows)
All-select P p [] h = tt
All-select P p (e ∷ rows) h = elim (Bool-cases (p e)) [
  | inl in_ ↦ rw in_ (h.0, All-select P p rows h.1)
  | inr out ↦ rw out (All-select P p rows h.1)
]

pub select_sound :
    (p : TokenEntry → Bool) (rows : List TokenEntry) → All (λ e. p e ≡ true) (select p rows)
select_sound p [] = tt
select_sound p (e ∷ rows) = elim (Bool-cases (p e)) [
  | inl in_ ↦ rw in_ (in_, select_sound p rows)
  | inr out ↦ rw out (select_sound p rows)
]

pub HasUniquePks-select :
    (p : TokenEntry → Bool) (rows : List TokenEntry)
    → HasUniquePks rows
    → HasUniquePks (select p rows)
HasUniquePks-select p [] u = tt
HasUniquePks-select p (e ∷ rows) u = elim (Bool-cases (p e)) [
  | inl in_ ↦ rw in_ (All-select (λ f. f.pk ≢ e.pk) p rows u.0, HasUniquePks-select p rows u.1)
  | inr out ↦ rw out (HasUniquePks-select p rows u.1)
]

-- A row further down is found behind a row with another key.
IsListed-cons :
    (e : TokenEntry) (rows credits : List TokenEntry)
    → All (λ f. f.pk ≢ e.pk) credits
    → IsListed rows credits
    → IsListed (e ∷ rows) credits
IsListed-cons e rows [] d l = tt
IsListed-cons e rows (f ∷ credits) d l = (ground arith, IsListed-cons e rows credits d.1 l.1)

pub IsListed-self : (rows : List TokenEntry) → HasUniquePks rows → IsListed rows rows
IsListed-self [] u = tt
IsListed-self (e ∷ rows) u = (ground arith, IsListed-cons e rows rows u.0 (IsListed-self rows u.1))

-- The ordered credits of an account meet what `balance-spend` asks of them.
pub balance-spend_credits :
    (a now n : ℕ) (rows : List TokenEntry)
    → HasUniquePks rows
    → n ≤ account_balance a now rows
    → account_balance a now (spend n (in_order (select (is_spendable a now) rows)) rows) + n
      ≡ account_balance a now rows
unfolding account_balance
balance-spend_credits a now n rows u h =
    let found = select (is_spendable a now) rows in
    balance-spend a now n (in_order found) rows
      (All-in_order (λ e. is_spendable a now e ≡ true) found
        (select_sound (is_spendable a now) rows))
      (All-in_order (λ e. find_pk e.pk rows ≡ some e) found
        (All-select (λ e. find_pk e.pk rows ≡ some e) (is_spendable a now) rows
          (IsListed-self rows u)))
      (HasUniquePks-in_order found (HasUniquePks-select (is_spendable a now) rows u))
      (omega (arith, sum_left-in_order found))
