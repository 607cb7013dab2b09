-- ===== src/Extraction/CostGuard/Window.antt =====
-- The window of buckets that an admission reads (extraction/cost_guard.py).
use django_core_micha.Base.{
  ℕ, zero, suc, ◌+◌, ◌/◌, ◌≤◌, ◌<◌, ◌≡◌, true, arith, any_where, length, ◌==◌,
}
use django_core_micha.Extraction.CostGuard.{bucket_seconds, range_from, reservation_buckets}

any_where-range_from :
    (b lo n : ℕ) → lo ≤ b → b < lo + n → any_where (λ k. k == b) (range_from lo n) ≡ true
any_where-range_from b lo zero h k = absurd (omega arith)
any_where-range_from b lo (suc n) h k = ground (arith, any_where-range_from b (suc lo) n)

length-range_from : (lo n : ℕ) → length (range_from lo n) ≡ n
length-range_from lo zero = omega arith
length-range_from lo (suc n) = omega (arith, length-range_from (suc lo) n)

-- A reservation that was placed no later than now and no longer than the lifetime ago has its
-- bucket in the window, and the window has at most one bucket more than the lifetime, rounded up,
-- spans.
pub window_covers :
    (placed now ttl : ℕ)
    → placed ≤ now
    → now ≤ placed + ttl
    → (any_where (λ b. b == placed / bucket_seconds) (reservation_buckets now ttl) ≡ true)
      × (length (reservation_buckets now ttl) ≤ (ttl + 299) / bucket_seconds + 1)
unfolding reservation_buckets
window_covers placed now ttl h k = (
  any_where-range_from (placed / bucket_seconds) _ _ (omega arith) (omega arith),
  omega (arith, length-range_from),
)
