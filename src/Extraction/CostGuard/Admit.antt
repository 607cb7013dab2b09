-- ===== src/Extraction/CostGuard/Admit.antt =====
-- What one admission establishes, whatever the cache answers (extraction/cost_guard.py).
use django_core_micha.Base.{
  ℕ, ◌+◌, ◌/◌, ◌≤◌, ◌≡◌, true, some, arith, max, refl, inl, inr, ◌⊎◌, Option-cases, ap,
}
use django_core_micha.Extraction.CostGuard.{
  CacheBackend, Context, Reservation, admitted, reserved, settled, Reply, done, missing, down,
  sum_counters, read_counter, reservation_buckets, reservation_ttl_seconds, check_cap,
  reserve_user_budget, put_cents, bucket_seconds, key_of,
}

module _ (cache : CacheBackend) (c : Context) where
  open cache use {Store}

  -- The reservation that a call places.
  abbrev pub placed : ℕ → ℕ → Reservation
  placed user cents = record {
    user_id = user;
    day = c.today;
    bucket = c.now / bucket_seconds;
    cents = cents;
  }

  -- The window's counters and the settled counter are read from this store, and stay within the
  -- limit together.
  abbrev pub IsWithinLimit : Reservation → Store → Type 0
  IsWithinLimit r st =
      (total : ℕ) × (spent : ℕ) × (sum_counters cache (reserved r.user_id r.day)
          (reservation_buckets (max c.now c.check_now) (reservation_ttl_seconds c.configured_ttl))
          st
        ≡ some total)
      × (read_counter cache (settled r.user_id r.day) st ≡ done spent)
      × (spent + total ≤ c.limit)

  Reply-cases : (r : Reply ℕ) → ((r ≡ missing) ⊎ (r ≡ down)) ⊎ ((n : ℕ) × (r ≡ done n))
  Reply-cases (done n) = inr (n, refl)
  Reply-cases missing = inl (inl refl)
  Reply-cases down = inl (inr refl)

  check_cap_admitted :
      (r r' : Reservation) (st st' : Store)
      → check_cap cache c r st ≡ (admitted r', st')
      → (r' ≡ r) × (st' ≡ st) × IsWithinLimit r st
  unfolding check_cap
  check_cap_admitted r r' st st' h =
      let total =
        sum_counters cache (reserved r.user_id r.day)
          (reservation_buckets (max c.now c.check_now) (reservation_ttl_seconds c.configured_ttl))
          st in
      let spent = read_counter cache (settled r.user_id r.day) st in
      elim (Option-cases total) [
        | inl none_ ↦ ground arith
        | inr (n, some_) ↦ elim (Reply-cases spent) [
          | inl failed ↦ ground arith
          | inr (m, done_) ↦ (ground arith, ground arith, (n, m, some_, done_, ground arith))
        ]
      ]

  admitted_by_check :
      (user cents : ℕ) (r : Reservation) (st st' : Store)
      → reserve_user_budget cache c (some user) cents st ≡ (admitted r, st')
      → let put = put_cents cache (key_of cache (placed user cents)) cents st in
        (put.0 ≡ true) × (check_cap cache c (placed user cents) put.1 ≡ (admitted r, st'))
  unfolding reserve_user_budget
  admitted_by_check user cents r st st' h = ground arith

  -- A call that is admitted holds a reservation of its cents for its user, on the day and in the
  -- bucket of its start; and in the store that it leaves, its cents included, the settled counter
  -- and the counters of the window stay within the limit together, whatever the cache answered.
  pub reserve_user_budget_admitted :
      (user cents : ℕ) (r : Reservation) (st st' : Store)
      → reserve_user_budget cache c (some user) cents st ≡ (admitted r, st')
      → (r ≡ placed user cents)
        × (put_cents cache (key_of cache r) cents st ≡ (true, st'))
        × IsWithinLimit r st'
  reserve_user_budget_admitted user cents r st st' h =
      let q = placed user cents in
      let (added, checked) = admitted_by_check user cents r st st' h in
      let put = put_cents cache (key_of cache q) cents st in
      let (same, kept, within) = check_cap_admitted q r put.1 st' checked in
      rw (same, kept) (refl, ap (λ b. (b, put.1)) added, within)
