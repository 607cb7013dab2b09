-- ===== src/Base/Counts.antt =====
-- Counting the rows of a table after an update, an insertion or a deletion, and the rows that stay.
use Prim.Native.Nat.{◌≤◌, ◌+◌}
use native.Mathlib.Omega.{arith}
use mathlib.Core.Path.{◌≡◌, refl, sym, ap, ◌∙◌}
use mathlib.Core.Logic.{inl, inr, ◌≢◌}
use mathlib.Core.Option.{some, some-injective}
use mathlib.Core.Bool.{Bool, true, false}
use mathlib.Core.List.{List, [], ◌∷◌, ◌++◌, Memᴰ}
use django_core_micha.Base.Tests.{Bool-cases, if◌then◌else◌}
use django_core_micha.Base.Lists.{any_where, first_where}
use django_core_micha.Base.Tables.{count_where, update_where, delete_where, update_first}

module _ {ℓ} {A : Type ℓ} (p : A → Bool) where
  -- An update that makes no row pass that did not.
  pub count_where-update_where :
      (q : A → Bool) (f : A → A) (rows : List A)
      → ((x : A) → q x ≡ true → p x ≡ false → p (f x) ≡ false)
      → count_where p (update_where q f rows) ≤ count_where p rows
  count_where-update_where q f [] none = omega arith
  count_where-update_where q f (x ∷ rows) none =
      let rest = count_where-update_where q f rows none in
      elim (Bool-cases (q x)) [
        | inl t ↦ rw t (elim (Bool-cases (p x)) [
          | inl s ↦ rw s (ground arith)
          | inr u ↦ rw (u, none x t u) rest
        ])
        | inr e ↦ rw e (ground arith)
      ]

  pub count_where-update_first :
      (q : A → Bool) (f : A → A) (rows : List A)
      → ((x : A) → p x ≡ false → p (f x) ≡ false)
      → count_where p (update_first q f rows) ≤ count_where p rows
  count_where-update_first q f [] none = omega arith
  count_where-update_first q f (x ∷ rows) none =
      let rest = count_where-update_first q f rows none in
      elim (Bool-cases (q x)) [
        | inl t ↦ rw t (elim (Bool-cases (p x)) [
          | inl s ↦ rw s (ground arith)
          | inr u ↦ rw (u, none x u) (omega arith)
        ])
        | inr e ↦ rw e (ground arith)
      ]

  pub count_where-delete_where :
      (d : A → Bool) (rows : List A) → count_where p (delete_where d rows) ≤ count_where p rows
  count_where-delete_where d [] = omega arith
  count_where-delete_where d (x ∷ rows) = let rest = count_where-delete_where d rows in ground arith

  pub count_where-append :
      (rows : List A) (x : A)
      → count_where p (rows ++ x ∷ []) ≡ count_where p rows + (if p x then 1 else 0)
  count_where-append [] x = ground arith
  count_where-append (y ∷ rows) x = let rest = count_where-append rows x in ground arith

  pub count_where-none : (rows : List A) → any_where p rows ≡ false → count_where p rows ≡ 0
  count_where-none [] h = refl
  count_where-none (x ∷ rows) h =
      let here : p x ≡ false = ground arith in
      let later : any_where p rows ≡ false = ground arith in rw here (count_where-none rows later)

  -- A row that an update or a deletion does not cover stays.
  pub Memᴰ-update_where :
      (f : A → A) (rows : List A) (x : A)
      → p x ≡ false
      → Memᴰ x rows
      → Memᴰ x (update_where p f rows)
  Memᴰ-update_where f [] x e m = elim m [ ]
  Memᴰ-update_where f (y ∷ rows) x e (Memᴰ.head h) = Memᴰ.head (rw (ap p (sym h) ∙ e) h)
  Memᴰ-update_where f (y ∷ rows) x e (Memᴰ.tail m) = Memᴰ.tail (Memᴰ-update_where f rows x e m)

  -- A row that is not the first one found stays.
  pub Memᴰ-update_first :
      (f : A → A) (rows : List A) (x found : A)
      → first_where p rows ≡ some found
      → x ≢ found
      → Memᴰ x rows
      → Memᴰ x (update_first p f rows)
  Memᴰ-update_first f [] x found h other m = elim m [ ]
  Memᴰ-update_first f (y ∷ rows) x found h other (Memᴰ.head same) = elim (Bool-cases (p y)) [
    | inl t ↦ absurd (other (same ∙ some-injective y found (rw t at h)))
    | inr e ↦ rw e (Memᴰ.head same)
  ]
  Memᴰ-update_first f (y ∷ rows) x found h other (Memᴰ.tail m) =
      let rest : first_where p rows ≡ some found → Memᴰ x (update_first p f rows) =
        λ e. Memᴰ-update_first f rows x found e other m in
      elim (Bool-cases (p y)) [
        | inl t ↦ rw t (Memᴰ.tail m)
        | inr e ↦ rw e (Memᴰ.tail (rest (rw e at h)))
      ]

  pub Memᴰ-delete_where :
      (rows : List A) (x : A) → p x ≡ false → Memᴰ x rows → Memᴰ x (delete_where p rows)
  Memᴰ-delete_where [] x e m = elim m [ ]
  Memᴰ-delete_where (y ∷ rows) x e (Memᴰ.head h) = rw (ap p (sym h) ∙ e) (Memᴰ.head h)
  Memᴰ-delete_where (y ∷ rows) x e (Memᴰ.tail m) =
      let rest = Memᴰ-delete_where rows x e m in
      elim (Bool-cases (p y)) [ inl t ↦ rw t rest | inr f ↦ rw f (Memᴰ.tail rest) ]
