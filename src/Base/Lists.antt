-- ===== src/Base/Lists.antt =====
-- Lists with native lengths, Boolean searches, and a predicate that holds of every element.
use Prim.Native.Nat.{ℕ, suc}
use Prim.Native.String.{String}
use mathlib.Core.Path.{◌≡◌, sym}
use mathlib.Core.Bool.{Bool, true, false, ◌||◌}
use mathlib.Core.Option.{Option, none, some}
use mathlib.Core.List.{List, [], ◌∷◌, ◌++◌}
use mathlib.Core.Logic.{inl, inr}
use django_core_micha.Base.Tests.{Bool-cases, if◌then◌else◌, str_eq}

module _ {ℓ} {A : Type ℓ} where
  abbrev pub length : List A → ℕ
  length [] = 0
  length (x ∷ xs) = suc (length xs)

  -- The rows that a test accepts, in order.
  abbrev pub select : (A → Bool) → List A → List A
  select p [] = []
  select p (x ∷ xs) = if p x then x ∷ select p xs else select p xs

  -- The first element that a test accepts.
  abbrev pub first_where : (A → Bool) → List A → Option A
  first_where p [] = none
  first_where p (x ∷ xs) = if p x then some x else first_where p xs

  abbrev pub any_where : (A → Bool) → List A → Bool
  any_where p [] = false
  any_where p (x ∷ xs) = p x || any_where p xs

  -- Every element satisfies `P`.
  abbrev pub All {κ} : (A → Type κ) → List A → Type κ
  All P [] = Unit
  All P (x ∷ xs) = P x × All P xs

-- `x in texts`
abbrev pub contains : String → List String → Bool
contains x [] = false
contains x (y ∷ ys) = str_eq x y || contains x ys

-- A dictionary as an association list.
abbrev pub lookup {ℓ} : {V : Type ℓ} → String → List (String × V) → Option V
lookup k [] = none
lookup k ((j, v) ∷ d) = if str_eq j k then some v else lookup k d

module _ {ℓ} {A : Type ℓ} where
  pub none-ne-some : (x : A) → ◌≡◌ {A = Option A} (some x) none → ⊥
  none-ne-some x h = cc

  -- No element is accepted: neither the first nor a later one.
  pub first_where-cons_none :
      (p : A → Bool) (x : A) (xs : List A)
      → first_where p (x ∷ xs) ≡ none
      → (p x ≡ false) × (first_where p xs ≡ none)
  first_where-cons_none p x xs h = elim (Bool-cases (p x)) [
    | inl t ↦ absurd (none-ne-some x (rw t at h))
    | inr f ↦ (f, rw f at h)
  ]

  pub first_where-append :
      (p : A → Bool) (xs : List A) (y : A)
      → first_where p xs ≡ none
      → p y ≡ true
      → first_where p (xs ++ y ∷ []) ≡ some y
  first_where-append p [] y h t = rw t
  first_where-append p (x ∷ xs) y h t =
      let (f, g) = first_where-cons_none p x xs h in rw f (first_where-append p xs y g t)

  pub first_where-append_some :
      (p : A → Bool) (xs ys : List A) {y : A}
      → first_where p xs ≡ some y
      → first_where p (xs ++ ys) ≡ some y
  first_where-append_some p [] ys h = absurd (none-ne-some _ (sym h))
  first_where-append_some p (x ∷ xs) ys h = elim (Bool-cases (p x)) [
    | inl t ↦ rw t (rw t at h)
    | inr f ↦ rw f (first_where-append_some p xs ys (rw f at h))
  ]
