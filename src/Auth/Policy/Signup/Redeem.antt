-- ===== src/Auth/Policy/Signup/Redeem.antt =====
-- How often a signup token can be redeemed (auth/policy.py).
use django_core_micha.Base.{
  ℕ, suc, ◌+◌, ◌≤◌, String, Bool, true, false, Option, some, List, [], ◌∷◌, ◌≡◌, refl, ◌≢◌, arith,
  str_eq, eq_iff, eq_refl, All, first_where, any_where, if◌then◌else◌, Bool-cases, inl, inr, ◌&&◌,
}
use django_core_micha.Auth.Policy.Signup.{
  QrToken, Outcome, ok, err, is_redeemable, redeem_row, redeem_rows, consume,
}

-- The row of a hash, and its uniqueness.
abbrev pub row_of : String → List QrToken → Option QrToken
row_of h = first_where (λ r. str_eq r.token_hash h)

abbrev pub HasUniqueHashes : List QrToken → Type 0
HasUniqueHashes [] = Unit
HasUniqueHashes (r ∷ rows) = All (λ q. q.token_hash ≢ r.token_hash) rows × HasUniqueHashes rows

row_of-redeem_rows :
    (j h : String) (now : ℕ) (rows : List QrToken) (r : QrToken)
    → row_of j rows ≡ some r
    → row_of j (redeem_rows h now rows) ≡ some (redeem_row h now r)
unfolding redeem_rows
row_of-redeem_rows j h now [] r e = cc
row_of-redeem_rows j h now (q ∷ rows) r e = ground (arith, row_of-redeem_rows j h now rows r)

All-redeem_rows :
    (j h : String) (now : ℕ) (rows : List QrToken)
    → All (λ q. q.token_hash ≢ j) rows
    → All (λ q. q.token_hash ≢ j) (redeem_rows h now rows)
unfolding redeem_rows
All-redeem_rows j h now [] a = tt
All-redeem_rows j h now (q ∷ rows) a = (ground arith, All-redeem_rows j h now rows a.1)

token_hash-redeem_row :
    (h : String) (now : ℕ) (q : QrToken) → (redeem_row h now q).token_hash ≡ q.token_hash
token_hash-redeem_row h now q = ground arith

HasUniqueHashes-redeem_rows :
    (h : String) (now : ℕ) (rows : List QrToken)
    → HasUniqueHashes rows
    → HasUniqueHashes (redeem_rows h now rows)
unfolding redeem_rows
HasUniqueHashes-redeem_rows h now [] u = tt
HasUniqueHashes-redeem_rows h now (q ∷ rows) u = (
  rw (token_hash-redeem_row h now q) (All-redeem_rows q.token_hash h now rows u.0),
  HasUniqueHashes-redeem_rows h now rows u.1,
)

not_redeemable :
    (h : String) (now : ℕ) (rows : List QrToken)
    → All (λ q. q.token_hash ≢ h) rows
    → any_where (is_redeemable h now) rows ≡ false
not_redeemable h now [] a = refl
not_redeemable h now (q ∷ rows) a = ground (arith, eq_iff q.token_hash h, not_redeemable h now rows)

any_where-redeemable :
    (h : String) (now : ℕ) (rows : List QrToken) (r : QrToken)
    → HasUniqueHashes rows
    → row_of h rows ≡ some r
    → any_where (is_redeemable h now) rows ≡ is_redeemable h now r
any_where-redeemable h now [] r u e = cc
any_where-redeemable h now (q ∷ rows) r u e = elim (Bool-cases (str_eq q.token_hash h)) [
  | inl here ↦
      let same = (eq_iff q.token_hash h).0 here in
      let none_ = not_redeemable h now rows (rw (← same) u.0) in ground arith
  | inr there ↦ let ih = any_where-redeemable h now rows r u.1 (rw there at e) in ground arith
]

abbrev pub is_ok : Outcome (Unit {0}) → Bool
is_ok (ok x) = true
is_ok (err e) = false

-- Redemptions of any tokens at any times, in the order of their updates: how many of them were
-- granted to the token of hash `h`, and the table at the end.
pub redeem_all : String → List (String × ℕ) → List QrToken → ℕ × List QrToken
redeem_all h [] rows = (0, rows)
redeem_all h ((j, now) ∷ calls) rows =
    let (result, rows') = consume j now rows in
    let (n, rows'') = redeem_all h calls rows' in
    (if str_eq j h && is_ok result then suc n else n, rows'')

consume_rows :
    (j : String) (now : ℕ) (rows : List QrToken) → (consume j now rows).1 ≡ redeem_rows j now rows
unfolding consume
consume_rows j now rows = ground arith

any_where-row_of :
    (h : String) (rows : List QrToken) (r : QrToken)
    → row_of h rows ≡ some r
    → any_where (λ q. str_eq q.token_hash h) rows ≡ true
any_where-row_of h [] r e = cc
any_where-row_of h (q ∷ rows) r e = ground (arith, any_where-row_of h rows r)

-- Where the rows have different hashes, a redemption of a token with a row is granted exactly if
-- the row is redeemable: used less often than allowed, and not expired.
pub consume_ok :
    (h : String) (now : ℕ) (rows : List QrToken) (r : QrToken)
    → HasUniqueHashes rows
    → row_of h rows ≡ some r
    → is_ok (consume h now rows).0 ≡ is_redeemable h now r
unfolding consume
consume_ok h now rows r u e =
    ground (arith, any_where-redeemable h now rows r u e, any_where-row_of h rows r e)

row_of-token_hash :
    (h : String) (rows : List QrToken) (r : QrToken) → row_of h rows ≡ some r → r.token_hash ≡ h
row_of-token_hash h [] r e = cc
row_of-token_hash h (q ∷ rows) r e = elim (Bool-cases (str_eq q.token_hash h)) [
  | inl here ↦ ground (arith, eq_iff q.token_hash h)
  | inr there ↦ row_of-token_hash h rows r (rw there at e)
]

-- One redemption, of this or another token, adds what it grants to the counter.
one_redemption :
    (h j : String) (now : ℕ) (rows : List QrToken) (r : QrToken)
    → HasUniqueHashes rows
    → row_of h rows ≡ some r
    → r.use_count ≤ r.max_redemptions
    → let n : ℕ = if str_eq j h && is_ok (consume j now rows).0 then 1 else 0 in
      (n + r.use_count ≡ (redeem_row j now r).use_count)
      × ((redeem_row j now r).use_count ≤ r.max_redemptions)
      × ((redeem_row j now r).max_redemptions ≡ r.max_redemptions)
      × (r.token_hash ≡ h)
one_redemption h j now rows r u e b =
    let named = row_of-token_hash h rows r e in
    elim (Bool-cases (str_eq j h)) [
      | inl same ↦
          let p = (eq_iff j h).0 same in
          let granted = consume_ok h now rows r u e in
          rw p (rw (eq_refl h, granted) (ground (arith, eq_iff r.token_hash h)))
      | inr other ↦ rw other (ground (arith, eq_iff r.token_hash j, eq_iff j h))
    ]

-- Where the rows have different hashes and the token of a row has not passed its maximum: however
-- redemptions of this and other tokens interleave, the token is granted as many redemptions as its
-- counter rises, and the counter never passes `max_redemptions`.
pub redeem_all_bounded :
    (h : String) (calls : List (String × ℕ)) (rows : List QrToken) (r : QrToken)
    → HasUniqueHashes rows
    → row_of h rows ≡ some r
    → r.use_count ≤ r.max_redemptions
    → let (n, rows') = redeem_all h calls rows in
      (r' : QrToken) × (row_of h rows' ≡ some r')
      × (n + r.use_count ≡ r'.use_count)
      × (r'.use_count ≤ r.max_redemptions)
unfolding redeem_all
redeem_all_bounded h [] rows r u e b = (r, e, omega arith, b)
redeem_all_bounded h ((j, now) ∷ calls) rows r u e b =
    let (one, capped, same, named) = one_redemption h j now rows r u e b in
    let moved : row_of h (consume j now rows).1 ≡ some (redeem_row j now r) =
      rw (consume_rows j now rows) (row_of-redeem_rows h j now rows r e) in
    let unique : HasUniqueHashes (consume j now rows).1 =
      rw (consume_rows j now rows) (HasUniqueHashes-redeem_rows j now rows u) in
    let (r', found, sum, le) =
      redeem_all_bounded h calls (consume j now rows).1 (redeem_row j now r) unique moved
        (rw same capped) in
    (r', found, ground arith, rw same at le)
