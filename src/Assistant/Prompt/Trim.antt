-- ===== src/Assistant/Prompt/Trim.antt =====
-- The trimming of the history ends (assistant/turns.py).
use mathlib.Core.List.{[]}
use Prim.Native.Nat.{zero}
use django_core_micha.Assistant.Prompt.{
  trim_loop, Row, suc, has_rows, drop_two, ◌∷◌, fit_prompt, fits,
}
use django_core_micha.Base.{
  ℕ, List, Option, length, ◌≡◌, ◌≤◌, true, some, true≢false, ◌+◌, sym, ltb, ◌&&◌, arith, false, ◌<◌,
  ap, ◌∙◌, Bool-cases, inr, ◌⊎◌, inl, none, refl,
}

-- The rows after a number of rounds.
abbrev pub drop_rounds : ℕ → List Row → List Row
drop_rounds zero rows = rows
drop_rounds (suc n) rows = drop_rounds n (drop_two rows)

drop_two-shorter : (rows : List Row) (n : ℕ) → length rows ≤ suc n → length (drop_two rows) ≤ n
drop_two-shorter [] n le = omega arith
drop_two-shorter (a ∷ []) n le = omega arith
drop_two-shorter (a ∷ b ∷ rows) n le = omega arith

-- What the loop leaves: the rows after some more rounds, that fit or are none, while after each of
-- the earlier rounds they did not fit.
abbrev pub Trimmed : (List Row → ℕ) → ℕ → List Row → ℕ → Option (List Row × ℕ) → Type 0
Trimmed size limit rows trimmed result =
    (n : ℕ) × ((result ≡ some (drop_rounds n rows, trimmed + n))
      × (((ltb limit (size (drop_rounds n rows)) && has_rows (drop_rounds n rows)) ≡ false)
          × ((k : ℕ) → k < n → limit < size (drop_rounds k rows))))

-- The loop stops.
stopped :
    (size : List Row → ℕ) (limit : ℕ) (rows : List Row) (trimmed : ℕ)
    → (ltb limit (size rows) && has_rows rows) ≡ false
    → Trimmed size limit rows trimmed (some (rows, trimmed))
stopped size limit rows trimmed f =
    (0, (ap (λ (n : ℕ). some (rows, n)) (omega arith), (f, λ k lt. absurd (not_less k lt))))
  where
    not_less : (k : ℕ) → ¬ k < 0
    not_less k lt = omega arith

-- One round, and what the other rounds leave.
one_more :
    (size : List Row → ℕ) (limit : ℕ) (rows : List Row) (trimmed : ℕ)
    (result : Option (List Row × ℕ))
    → (ltb limit (size rows) && has_rows rows) ≡ true
    → Trimmed size limit (drop_two rows) (suc trimmed) result
    → Trimmed size limit rows trimmed result
one_more size limit rows trimmed result t (n, (e, (stop, earlier))) = (
  suc n,
  (e ∙ ap (λ (m : ℕ). some (drop_rounds n (drop_two rows), m)) (omega arith), (stop, longer)),
)
  where
    longer : (k : ℕ) → k < suc n → limit < size (drop_rounds k rows)
    longer zero lt = ground arith
    longer (suc k) lt = earlier k (omega arith)

pub trim_loop-ends :
    (size : List Row → ℕ) (limit fuel : ℕ) (rows : List Row) (trimmed : ℕ)
    → length rows ≤ fuel
    → Trimmed size limit rows trimmed (trim_loop size limit (suc fuel) rows trimmed)
unfolding trim_loop
trim_loop-ends size limit zero [] trimmed enough =
    let f : (ltb limit (size []) && false) ≡ false = ground arith in
    rw f (stopped size limit [] trimmed f)
trim_loop-ends size limit zero (a ∷ rows) trimmed enough = absurd (too_many enough)
  where
    too_many : ¬ length (a ∷ rows) ≤ 0
    too_many h = omega arith
trim_loop-ends size limit (suc fuel) rows trimmed enough =
    let rest =
      trim_loop-ends size limit fuel (drop_two rows) (suc trimmed)
        (drop_two-shorter rows fuel enough) in
    elim (Bool-cases (ltb limit (size rows) && has_rows rows)) [
      | inr f ↦ rw f (stopped size limit rows trimmed f)
      | inl t ↦ rw t (one_more size limit rows trimmed _ t rest)
    ]

-- Fitting a history ends: either the rows after some number of rounds fit, and after each fewer
-- rounds the prompt was too long; or even the prompt without history is too long.
pub fit_prompt-ends :
    (size : List Row → ℕ) (limit : ℕ) (rows : List Row)
    → ((n : ℕ) × ((fit_prompt size limit rows ≡ some (drop_rounds n rows, n))
          × ((size (drop_rounds n rows) ≤ limit)
              × ((k : ℕ) → k < n → limit < size (drop_rounds k rows)))))
      ⊎ ((fit_prompt size limit rows ≡ none) × (limit < size []))
unfolding fit_prompt
fit_prompt-ends size limit rows =
    fitted (trim_loop-ends size limit (length rows) rows 0 (omega arith))
  where
    fitted :
        {result : Option (List Row × ℕ)}
        → Trimmed size limit rows 0 result
        → ((n : ℕ) × ((fits size limit result ≡ some (drop_rounds n rows, n))
              × ((size (drop_rounds n rows) ≤ limit)
                  × ((k : ℕ) → k < n → limit < size (drop_rounds k rows)))))
          ⊎ ((fits size limit result ≡ none) × (limit < size []))
    fitted (n, (e, (stop, earlier))) = elim (Bool-cases (ltb limit (size (drop_rounds n rows)))) [
      | inl t ↦ inr (rw e (rw t refl), none_left (drop_rounds n rows) stop t)
      | inr f ↦ inl (
        n,
        (
          rw e (rw f (ap (λ (m : ℕ). some (drop_rounds n rows, m)) (omega arith))),
          (ground arith, earlier),
        ),
      )
    ]
      where
        none_left :
            (left : List Row)
            → (ltb limit (size left) && has_rows left) ≡ false
            → ltb limit (size left) ≡ true
            → limit < size []
        none_left [] stop t = ground arith
        none_left (a ∷ left) stop t = absurd (true≢false (sym (ap (λ b. b && true) t) ∙ stop))
