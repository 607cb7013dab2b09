-- ===== src/Extraction/CostGuard/Race/Measures.antt =====
-- What each call of the budget holds and has paid, and sums over calls (extraction/cost_guard.py).
use django_core_micha.Base.{
  ℕ, ◌+◌, ◌≤◌, ◌≡◌, Bool, true, false, List, [], ◌∷◌, ◌++◌, if◌then◌else◌, ◌==◌, any_where, arith,
  All,
}
use django_core_micha.Extraction.CostGuard.Race.{
  Phase, settling, settled, Thread, reading, is_held, placing, admitted,
}

-- Cents that may still count: of a call that is deciding or has been admitted.
abbrev pub is_live : Phase → Bool
is_live placing = true
is_live (reading todo acc) = true
is_live admitted = true
is_live _ = false

-- Every bucket with a live call is among those to read.
abbrev pub Covers : List ℕ → List Thread → Type 0
Covers todo = All (λ t. is_live t.phase ≡ true → any_where (λ b. b == t.bucket) todo ≡ true)

-- What a call still holds of the cap: its cents while it is deciding or admitted.
abbrev pub live : Thread → ℕ
live t = if is_live t.phase then t.cents else 0

-- What it has in the settled counter.
abbrev pub paid_in : Phase → ℕ
paid_in (settling a) = a
paid_in (settled a) = a
paid_in _ = 0

abbrev pub paid : Thread → ℕ
paid t = paid_in t.phase

abbrev pub weight : Thread → ℕ
weight t = live t + paid t

-- What it has in its bucket.
abbrev pub held_in : ℕ → Thread → ℕ
held_in b t = if t.bucket == b then (if is_held t.phase then t.cents else 0) else 0

-- What the reading call has yet to see of it, and what it must have seen.
abbrev pub seen : List ℕ → Thread → ℕ
seen todo t = if any_where (λ b. b == t.bucket) todo then 0 else live t

unfoldable pub sum_by : (Thread → ℕ) → List Thread → ℕ
sum_by f [] = 0
sum_by f (t ∷ ts) = f t + sum_by f ts

pub sum_by-append :
    (f : Thread → ℕ) (xs ys : List Thread) → sum_by f (xs ++ ys) ≡ sum_by f xs + sum_by f ys
unfolding sum_by
sum_by-append f [] ys = omega arith
sum_by-append f (x ∷ xs) ys = omega (arith, sum_by-append f xs ys)

pub sum_by-le :
    (f g : Thread → ℕ) (xs : List Thread) → ((t : Thread) → f t ≤ g t) → sum_by f xs ≤ sum_by g xs
unfolding sum_by
sum_by-le f g [] h = omega arith
sum_by-le f g (x ∷ xs) h = omega (arith, h x, sum_by-le f g xs h)

-- Replacing one call changes a sum by as much.
pub sum_by-replace :
    (f : Thread → ℕ) (xs ys : List Thread) (t t' : Thread)
    → sum_by f (xs ++ t' ∷ ys) + f t ≡ sum_by f (xs ++ t ∷ ys) + f t'
unfolding sum_by
sum_by-replace f [] ys t t' = omega arith
sum_by-replace f (x ∷ xs) ys t t' = omega (arith, sum_by-replace f xs ys t t')
