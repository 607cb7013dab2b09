-- ===== src/Base/Scans.antt =====
-- Tests over the rows of a table after an update, an insertion or a deletion.
use native.Mathlib.Omega.{arith}
use mathlib.Core.Path.{◌≡◌, refl, sym}
use mathlib.Core.Logic.{inl, inr}
use mathlib.Core.Bool.{Bool, true, false, ◌||◌, true≢false}
use mathlib.Core.List.{List, [], ◌∷◌, ◌++◌}
use django_core_micha.Base.Tests.{Bool-cases}
use django_core_micha.Base.Lists.{any_where}
use django_core_micha.Base.Tables.{all_where, update_where}

module _ {ℓ} {A : Type ℓ} (q : A → Bool) where
  pub all_where-head : (x : A) (rows : List A) → all_where q (x ∷ rows) ≡ true → q x ≡ true
  all_where-head x rows h = elim (Bool-cases (q x)) [
    | inl t ↦ t
    | inr f ↦ absurd (true≢false (sym (rw f at h)))
  ]

  pub all_where-tail :
      (x : A) (rows : List A) → all_where q (x ∷ rows) ≡ true → all_where q rows ≡ true
  all_where-tail x rows h = elim (Bool-cases (q x)) [
    | inl t ↦ rw t at h
    | inr f ↦ absurd (true≢false (sym (rw f at h)))
  ]

  pub all_where-append :
      (rows : List A) (x : A)
      → all_where q rows ≡ true
      → q x ≡ true
      → all_where q (rows ++ x ∷ []) ≡ true
  all_where-append [] x h t = rw t refl
  all_where-append (y ∷ rows) x h t =
      rw (all_where-head y rows h) (all_where-append rows x (all_where-tail y rows h) t)

  -- A test that the changed and the unchanged rows pass.
  pub all_where-update_where :
      (p : A → Bool) (f : A → A) (rows : List A)
      → ((x : A) → p x ≡ true → q x ≡ true → q (f x) ≡ true)
      → all_where q rows ≡ true
      → all_where q (update_where p f rows) ≡ true
  all_where-update_where p f [] keeps h = refl
  all_where-update_where p f (x ∷ rows) keeps h =
      let rest = all_where-update_where p f rows keeps (all_where-tail x rows h) in
      let here = all_where-head x rows h in
      elim (Bool-cases (p x)) [ inl t ↦ rw (t, keeps x t here) rest | inr e ↦ rw (e, here) rest ]

  -- A test that an update makes all rows pass.
  pub all_where-made :
      (p : A → Bool) (f : A → A) (rows : List A)
      → ((x : A) → p x ≡ true → q (f x) ≡ true)
      → ((x : A) → p x ≡ false → q x ≡ true)
      → all_where q (update_where p f rows) ≡ true
  all_where-made p f [] made passes = refl
  all_where-made p f (x ∷ rows) made passes =
      let rest = all_where-made p f rows made passes in
      elim (Bool-cases (p x)) [ inl t ↦ rw (t, made x t) rest | inr e ↦ rw (e, passes x e) rest ]

  -- A test that an update keeps as it is.
  pub any_where-update_where :
      (p : A → Bool) (f : A → A) (rows : List A)
      → ((x : A) → q (f x) ≡ q x)
      → any_where q (update_where p f rows) ≡ any_where q rows
  any_where-update_where p f [] keeps = refl
  any_where-update_where p f (x ∷ rows) keeps =
      let rest = any_where-update_where p f rows keeps in
      elim (Bool-cases (p x)) [ inl t ↦ rw (t, keeps x, rest) refl | inr e ↦ rw (e, rest) refl ]

  pub any_where-append :
      (rows : List A) (x : A) → any_where q (rows ++ x ∷ []) ≡ (any_where q rows || q x)
  any_where-append [] x = ground arith
  any_where-append (y ∷ rows) x = rw (any_where-append rows x) (ground arith)

  pub all_where-entails :
      (r : A → Bool) (rows : List A)
      → ((x : A) → q x ≡ true → r x ≡ true)
      → all_where q rows ≡ true
      → all_where r rows ≡ true
  all_where-entails r [] entails h = refl
  all_where-entails r (x ∷ rows) entails h =
      rw (entails x (all_where-head x rows h))
        (all_where-entails r rows entails (all_where-tail x rows h))

  -- Where no row passes one test, all pass a test that failing it entails.
  pub all_where-none :
      (p : A → Bool) (rows : List A)
      → ((x : A) → p x ≡ false → q x ≡ true)
      → any_where p rows ≡ false
      → all_where q rows ≡ true
  all_where-none p [] passes h = refl
  all_where-none p (x ∷ rows) passes h =
      let here : p x ≡ false = ground arith in
      let later : any_where p rows ≡ false = ground arith in
      rw (passes x here) (all_where-none p rows passes later)
