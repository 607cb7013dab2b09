-- ===== src/Base/Tables.antt =====
-- Tables as lists of rows: updates and deletions by a test, counting, and membership of a key.
use mathlib.Core.Path.{◌≡◌, refl, sym, ap, subst, ◌∙◌}
use mathlib.Core.Logic.{◌⊎◌, inl, inr}
use mathlib.Core.Option.{Option, none, some, some-injective}
use native.Mathlib.Omega.{arith}
use django_core_micha.Base.Lists.{first_where, none-ne-some}
use Prim.Native.Nat.{ℕ, suc}
use mathlib.Core.Bool.{Bool, true, false, ◌||◌, true≢false}
use mathlib.Core.List.{List, [], ◌∷◌}
use django_core_micha.Base.Tests.{◌==◌, if◌then◌else◌, Bool-cases}

module _ {ℓ} {A : Type ℓ} where
  -- `rows.filter(p).update(f)`
  abbrev pub update_where : (A → Bool) → (A → A) → List A → List A
  update_where p f [] = []
  update_where p f (x ∷ rows) = (if p x then f x else x) ∷ update_where p f rows

  -- The update of the row that a key finds.
  abbrev pub update_first : (A → Bool) → (A → A) → List A → List A
  update_first p f [] = []
  update_first p f (x ∷ rows) =
      let rest = update_first p f rows in if p x then f x ∷ rows else x ∷ rest

  -- `rows.filter(p).delete()`
  abbrev pub delete_where : (A → Bool) → List A → List A
  delete_where p [] = []
  delete_where p (x ∷ rows) = if p x then delete_where p rows else x ∷ delete_where p rows

  -- `rows.filter(p).count()`
  abbrev pub count_where : (A → Bool) → List A → ℕ
  count_where p [] = 0
  count_where p (x ∷ rows) = if p x then suc (count_where p rows) else count_where p rows

  abbrev pub all_where : (A → Bool) → List A → Bool
  all_where p [] = true
  all_where p (x ∷ rows) = if p x then all_where p rows else false

-- `k in keys`
abbrev pub member : ℕ → List ℕ → Bool
member k [] = false
member k (j ∷ keys) = j == k || member k keys

-- `len(set(keys))`
abbrev pub distinct_count : List ℕ → ℕ
distinct_count [] = 0
distinct_count (k ∷ keys) = if member k keys then distinct_count keys else suc (distinct_count keys)

-- What a call gives that may raise.
pub data Fallible {ℓ κ} (E : Type ℓ) (A : Type κ) : Type (ℓ ⊔ κ) where
  returns : A → Fallible E A
  raises : E → Fallible E A

module _ {ℓ κ} {E : Type ℓ} {A : Type κ} where
  pub raises-ne-returns : {e : E} {a : A} → ¬ Path (Fallible E A) (raises e) (returns a)
  raises-ne-returns h = ground arith

  returns-injective : {a b : A} → Path (Fallible E A) (returns a) (returns b) → a ≡ b
  returns-injective h = cc

-- A call that raises leaves the state alone; else it is the given outcome.
module _ {ℓ κ μ} {E : Type ℓ} {A : Type κ} {S : Type μ} where
  abbrev pub RaisesOr : S → Fallible E A × S → Fallible E A × S → Type (ℓ ⊔ κ ⊔ μ)
  RaisesOr s outcome call = ((e : E) × (call ≡ (raises e, s))) ⊎ (call ≡ outcome)

  pub RaisesOr-if :
      (b : Bool) (e : E) (s : S) (outcome call : Fallible E A × S)
      → RaisesOr s outcome call
      → RaisesOr s outcome (if b then (raises e, s) else call)
  RaisesOr-if true e s outcome call h = inl (e, refl)
  RaisesOr-if false e s outcome call h = h

  pub returns-parts :
      {a b : A} {s s' : S}
      → Path (Fallible E A × S) (returns a, s) (returns b, s')
      → (a ≡ b) × (s ≡ s')
  returns-parts h = (returns-injective (ap (λ y. y.0) h), ap (λ y. y.1) h)

  -- If the call returned then it gave the outcome.
  pub RaisesOr-returns :
      (s : S) (x : A) (s' : S) (call : Fallible E A × S) {a : A} {s'' : S}
      → RaisesOr s (returns x, s') call
      → call ≡ (returns a, s'')
      → (x ≡ a) × (s' ≡ s'')
  RaisesOr-returns s x s' call (inl (e, r)) h =
      absurd (raises-ne-returns (ap (λ y. y.0) (sym r ∙ h)))
  RaisesOr-returns s x s' call (inr r) h = returns-parts (sym r ∙ h)

abbrev pub is_none {ℓ} : {A : Type ℓ} → Option A → Bool
is_none none = true
is_none (some a) = false

-- Whether a nullable key is this one.
abbrev pub is_key : Option ℕ → ℕ → Bool
is_key none k = false
is_key (some j) k = j == k

abbrev pub map_some {ℓ κ} : {A : Type ℓ} {B : Type κ} → (A → B) → Option A → Option B
map_some f none = none
map_some f (some a) = some (f a)

module _ {ℓ} {A : Type ℓ} (p q : A → Bool) (f : A → A) where
  -- An update that covers the rows of a test, and keeps what the test says of a row, is applied to
  -- the row that the test finds.
  pub first_where-update_where :
      ((x : A) → p (f x) ≡ p x)
      → ((x : A) → p x ≡ true → q x ≡ true)
      → (rows : List A) → first_where p (update_where q f rows) ≡ map_some f (first_where p rows)
  first_where-update_where keeps covers [] = refl
  first_where-update_where keeps covers (x ∷ rows) = elim (Bool-cases (p x)) [
    | inl t ↦ rw (t, covers x t, keeps x ∙ t) refl
    | inr e ↦ elim (Bool-cases (q x)) [
      | inl u ↦ rw (u, e, keeps x ∙ e) (first_where-update_where keeps covers rows)
      | inr u ↦ rw (u, e) (first_where-update_where keeps covers rows)
    ]
  ]

-- Nothing is counted among rows that all pass a test which excludes the count's.
pub count_where-zero {ℓ} :
    {A : Type ℓ} (p q : A → Bool) (rows : List A)
    → ((x : A) → q x ≡ true → p x ≡ false)
    → all_where q rows ≡ true
    → count_where p rows ≡ 0
count_where-zero p q [] excludes h = refl
count_where-zero p q (x ∷ rows) excludes h = elim (Bool-cases (q x)) [
  | inl t ↦ rw (excludes x t) (count_where-zero p q rows excludes (rw t at h))
  | inr f ↦ absurd (true≢false (sym (rw f at h)))
]

-- The row that is found passes the test.
pub first_where-passes {ℓ} :
    {A : Type ℓ} (p : A → Bool) (rows : List A) {x : A} → first_where p rows ≡ some x → p x ≡ true
first_where-passes p [] {x} h = absurd (none-ne-some x (sym h))
first_where-passes p (y ∷ rows) {x} h = elim (Bool-cases (p y)) [
  | inl t ↦ subst (λ z. p z ≡ true) (some-injective y x (rw t at h)) t
  | inr f ↦ first_where-passes p rows (rw f at h)
]
