-- ===== src/Notifications/Dispatch/Retry.antt =====
-- The retries of `dispatch` (notifications/dispatch.py).
use django_core_micha.Base.{
  ℕ, zero, suc, ◌<◌, ◌≡◌, ◌⊎◌, inl, inr, refl, true, false, some, arith, Bool-cases, ap,
}
use django_core_micha.Notifications.Dispatch.{
  Attempt, Status, failed, is_transient, verdict, attempts, dispatch,
}

module _ {S : Type 0} (deliver : S → Attempt × S) where
  -- The state after so many attempts, and what the next attempt gives.
  abbrev pub state_after : ℕ → S → S
  state_after zero s = s
  state_after (suc n) s = state_after n (deliver s).1

  abbrev pub attempt_at : ℕ → S → Attempt
  attempt_at n s = (deliver (state_after n s)).0

  -- A run that makes `suc k` attempts out of `n`: those before the last are transient failures; the
  -- last one is not and is returned, or it is the last one allowed.
  abbrev pub IsRun : ℕ → ℕ → S → Status → S → Type 0
  IsRun n k s r s' =
      (k < n)
      × ((j : ℕ) → j < k → is_transient (attempt_at j s) ≡ true)
      × (s' ≡ state_after (suc k) s)
      × (((is_transient (attempt_at k s) ≡ false) × (r ≡ verdict (attempt_at k s)))
          ⊎ ((suc k ≡ n) × (is_transient (attempt_at k s) ≡ true) × (r ≡ failed)))

  pub attempts_final :
      (n : ℕ) (s : S)
      → is_transient (deliver s).0 ≡ false
      → attempts deliver (suc n) s ≡ (verdict (deliver s).0, (deliver s).1)
  unfolding attempts
  attempts_final n s final = rw final refl

  attempts_again :
      (n : ℕ) (s : S)
      → is_transient (deliver s).0 ≡ true
      → attempts deliver (suc n) s ≡ attempts deliver n (deliver s).1
  unfolding attempts
  attempts_again n s again = rw again refl

  transient_before :
      {k : ℕ} (s : S)
      → is_transient (deliver s).0 ≡ true
      → ((j : ℕ) → j < k → is_transient (attempt_at j (deliver s).1) ≡ true)
      → (j : ℕ) → j < suc k
      → is_transient (attempt_at j s) ≡ true
  transient_before s again before zero h = again
  transient_before s again before (suc j) h = before j (omega arith)

  IsRun-suc :
      (n k : ℕ) (s : S) (r : Status) (s' : S)
      → is_transient (deliver s).0 ≡ true
      → IsRun n k (deliver s).1 r s'
      → IsRun (suc n) (suc k) s r s'
  IsRun-suc n k s r s' again (lt, before, state, last) = (
    omega arith,
    transient_before s again before,
    state,
    elim last [ inl final ↦ inl final | inr (all, more, none_) ↦ inr (ap suc all, more, none_) ],
  )

  attempts_none : (s : S) → attempts deliver zero s ≡ (failed, s)
  unfolding attempts
  attempts_none s = refl

  final-IsRun :
      (n : ℕ) (s : S)
      → is_transient (deliver s).0 ≡ false
      → (k : ℕ) × IsRun (suc n) k s (attempts deliver (suc n) s).0 (attempts deliver (suc n) s).1
  final-IsRun n s final =
      rw (attempts_final n s final)
        (0, (omega arith, λ j h. absurd (omega arith), refl, inl (final, refl)))

  attempts-IsRun :
      (n : ℕ) (s : S)
      → (k : ℕ) × IsRun (suc n) k s (attempts deliver (suc n) s).0 (attempts deliver (suc n) s).1
  attempts-IsRun zero s = elim (Bool-cases (is_transient (deliver s).0)) [
    | inr final ↦ final-IsRun 0 s final
    | inl again ↦
        rw (attempts_again 0 s again, attempts_none (deliver s).1)
          (0, (omega arith, λ j h. absurd (omega arith), refl, inr (refl, again, refl)))
  ]
  attempts-IsRun (suc n) s = elim (Bool-cases (is_transient (deliver s).0)) [
    | inr final ↦ final-IsRun (suc n) s final
    | inl again ↦
        let (k, run) = attempts-IsRun n (deliver s).1 in
        rw (attempts_again (suc n) s again) (suc k, IsRun-suc (suc n) k s _ _ again run)
  ]

  -- A dispatch makes one, two or three attempts, each on the state that the one before left. Every
  -- attempt before the last failed and asked for a retry. The last one did not and its outcome is
  -- returned, or it is the third and the dispatch fails.
  pub dispatch-IsRun :
      (s : S) → (k : ℕ) × IsRun 3 k s (dispatch (some deliver) s).0 (dispatch (some deliver) s).1
  unfolding dispatch
  dispatch-IsRun s = attempts-IsRun 2 s
