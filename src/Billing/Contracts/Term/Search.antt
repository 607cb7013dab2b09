-- ===== src/Billing/Contracts/Term/Search.antt =====
-- The search for the end of a cancelled term ends (billing/contracts.py).
use Prim.Native.Nat.{zero}
use django_core_micha.Billing.Contracts.Term.{
  Moment, next_end, month_number, date_number, search_end, cancellation_effective, Contract,
  days_in_month, rounds,
}
use django_core_micha.Base.{
  ℕ, Bool, suc, ◌≤◌, ◌≡◌, ltb, Option, ◌<◌, Bool-cases, arith, true, some, ◌+◌, ltb→lt, ◌==◌, inl,
  inr, ◌%◌, false, refl, leb, ◌-◌,
}

-- The ends after a number of months.
abbrev pub nth_end : ℕ → Bool → ℕ → Moment → Moment
nth_end anchor month_end zero t = t
nth_end anchor month_end (suc n) t = nth_end anchor month_end n (next_end anchor month_end t)

next_end-month :
    (anchor : ℕ) (month_end : Bool) (t : Moment)
    → 1 ≤ t.month
    → t.month ≤ 12
    → (1 ≤ (next_end anchor month_end t).month)
      × (((next_end anchor month_end t).month ≤ 12)
          × (month_number (next_end anchor month_end t) ≡ suc (month_number t)))
unfolding next_end
next_end-month anchor month_end t low high = elim (Bool-cases (t.month == 12)) [
  | inl e ↦
      let m : t.month ≡ 12 = ground arith in rw (e, m) (omega arith, (omega arith, omega arith))
  | inr f ↦
      let m : t.month < 12 = ground arith in
      let r : t.month % 12 ≡ t.month = omega arith in
      rw (f, r) (omega arith, (omega arith, omega arith))
]

-- A date before the requested one is not in a later month.
earlier-month :
    (s requested : Moment)
    → 1 ≤ s.month
    → s.month ≤ 12
    → 1 ≤ requested.month
    → requested.month ≤ 12
    → requested.day ≤ 31
    → date_number s < date_number requested
    → month_number s ≤ month_number requested
earlier-month s requested low high low' high' days lt = omega arith

-- The time zone moves a moment by less than a month, and its dates are dates. The requested date is a
-- date.
module _ (local : Moment → Moment) (requested : Moment)
    (zone : (t : Moment)
      → 1 ≤ t.month
      → t.month ≤ 12
      → (1 ≤ (local t).month)
        × (((local t).month ≤ 12) × (month_number t ≤ suc (month_number (local t)))))
    (low' : 1 ≤ requested.month) (high' : requested.month ≤ 12) (days : requested.day ≤ 31) where
  early-month :
      (t : Moment)
      → 1 ≤ t.month
      → t.month ≤ 12
      → ltb (date_number (local t)) (date_number requested) ≡ true
      → month_number t ≤ suc (month_number requested)
  early-month t low high early =
      let (low_local, (high_local, near)) = zone t low high in
      let earlier =
        earlier-month (local t) requested low_local high_local low' high' days (ltb→lt _ _ early) in
      omega arith

  abbrev pub Found : ℕ → Bool → Moment → Option Moment → Type 0
  Found anchor month_end t result =
      (n : ℕ) × ((result ≡ some (nth_end anchor month_end n t))
        × ((date_number requested ≤ date_number (local (nth_end anchor month_end n t)))
            × ((k : ℕ)
                → k < n
                → date_number (local (nth_end anchor month_end k t)) < date_number requested)))

  here :
      (anchor : ℕ) (month_end : Bool) (t : Moment)
      → ltb (date_number (local t)) (date_number requested) ≡ false
      → Found anchor month_end t (some t)
  here anchor month_end t late = (0, (refl, (ground arith, λ k lt. absurd (not_less k lt))))
    where
      not_less : (k : ℕ) → ¬ k < 0
      not_less k lt = omega arith

  one_more :
      (anchor : ℕ) (month_end : Bool) (t : Moment) (result : Option Moment)
      → ltb (date_number (local t)) (date_number requested) ≡ true
      → Found anchor month_end (next_end anchor month_end t) result
      → Found anchor month_end t result
  one_more anchor month_end t result early (n, (e, (reached, before))) =
      (suc n, (e, (reached, earlier)))
    where
      earlier :
          (k : ℕ)
          → k < suc n
          → date_number (local (nth_end anchor month_end k t)) < date_number requested
      earlier zero lt = ltb→lt _ _ early
      earlier (suc k) lt = before k (omega arith)

  search_end-Found :
      (anchor : ℕ) (month_end : Bool) (fuel : ℕ) (t : Moment)
      → 1 ≤ t.month
      → t.month ≤ 12
      → month_number requested + 3 ≤ month_number t + suc fuel
      → Found anchor month_end t (search_end local requested anchor month_end (suc fuel) t)
  unfolding search_end
  search_end-Found anchor month_end zero t low high enough =
      elim (Bool-cases (ltb (date_number (local t)) (date_number requested))) [
        | inl early ↦ absurd (too_late (early-month t low high early))
        | inr late ↦ rw late (here anchor month_end t late)
      ]
    where
      too_late : ¬ month_number t ≤ suc (month_number requested)
      too_late h = omega arith
  search_end-Found anchor month_end (suc fuel) t low high enough =
      let (low, (high, one_later)) = next_end-month anchor month_end t low high in
      let rest =
        search_end-Found anchor month_end fuel (next_end anchor month_end t) low high
          (omega arith) in
      elim (Bool-cases (ltb (date_number (local t)) (date_number requested))) [
        | inl early ↦ rw early (one_more anchor month_end t _ early rest)
        | inr late ↦ rw late (here anchor month_end t late)
      ]

  -- Where the time zone moves a moment by less than a month, the cancellation of a subscription for a
  -- requested date always finds an effective end: the first end of a period, counted in months from the
  -- current one, whose local date is not before the requested date.
  pub cancellation_effective-found :
      (c : Contract) (current : Moment)
      → c.is_subscription ≡ true
      → 1 ≤ current.month
      → current.month ≤ 12
      → let month_end = current.day == days_in_month current.year current.month in
        (n : ℕ) × ((cancellation_effective local c current (some requested)
            ≡ some (nth_end current.day month_end n current))
          × ((date_number requested ≤ date_number (local (nth_end current.day month_end n current)))
              × ((k : ℕ)
                  → k < n
                  → date_number (local (nth_end current.day month_end k current))
                    < date_number requested)))
  unfolding cancellation_effective
  cancellation_effective-found c current subscription low high =
      let month_end = current.day == days_in_month current.year current.month in
      elim (Bool-cases (leb (date_number requested) (date_number (local current)))) [
        | inl t ↦ rw t (here current.day month_end current (ground arith))
        | inr f ↦
            let early : ltb (date_number (local current)) (date_number requested) ≡ true =
              ground arith in
            let near = early-month current low high early in
            let fuel : rounds current requested ≡ suc (rounds current requested - 1) =
              omega arith in
            rw (f, subscription, fuel)
              (search_end-Found current.day month_end (rounds current requested - 1) current low
                high (omega arith))
      ]
