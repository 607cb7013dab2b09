-- ===== src/Extraction/Tests.antt =====
-- The budget admission on concrete calls (extraction/cost_guard.py).
use django_core_micha.Extraction.CostGuard.Race.Run.{held}
use django_core_micha.Extraction.CostGuard.Race.Refine.{write}
use django_core_micha.Base.{ℕ, ◌+◌, ◌-◌, some, none, Option, false, if◌then◌else◌, ◌==◌, leb}
use django_core_micha.Base.Int.{ℤ, pos}
use django_core_micha.Extraction.CostGuard.{
  CacheBackend, Context, Reply, done, settled, reserved, Admission, reserve_user_budget, put_cents,
  check_cap, sum_counters, read_counter, reservation_ttl_seconds, decrement_reservation, Key,
}
use django_core_micha.Extraction.CostGuard.Admit.{
  placed, IsWithinLimit, reserve_user_budget_admitted,
}
use django_core_micha.Base.{◌≡◌, refl, true, [], ◌∷◌, arith, any_where, length, ◌+◌, ◌==◌, ◌≤◌, ◌/◌}
use django_core_micha.Extraction.CostGuard.Race.{
  Shared, Thread, Phase, admitted, bump, take_out, keep_until,
}
use django_core_micha.Extraction.CostGuard.{bucket_seconds, reservation_buckets}
use django_core_micha.Extraction.CostGuard.Window.{window_covers}

-- One call reserves 5 cents in bucket 3, reads its window, and is admitted under a limit of 10; it
-- costs 4 cents, and its counter expires.
abbrev call_at : Phase → Thread
call_at p = record { cents = 5; bucket = 3; begun = 1000; phase = p }

abbrev shared_at : ℕ → ℕ → (ℕ → ℕ) → Phase → Shared
shared_at clock spent counters p = record {
  clock = clock;
  spent = spent;
  counters = counters;
  deadline = keep_until 3 1900 (λ b. none);
  threads = call_at p ∷ [];
}

abbrev filled : ℕ → ℕ
filled = bump 3 5 (λ b. 0)

abbrev emptied : ℕ → ℕ
emptied = take_out 3 5 filled

abbrev at_end : Shared
at_end = record (shared_at 2000 6 (λ k. if k == 3 then 0 else emptied k) (Phase.settled 4)) {
  deadline = λ k. if k == 3 then none else keep_until 3 1900 (λ b. none) k;
}

window_covers_example :
    (any_where (λ b. b == 1000 / bucket_seconds) (reservation_buckets 2500 1800) ≡ true)
    × (length (reservation_buckets 2500 1800) ≤ (1800 + 299) / bucket_seconds + 1)
window_covers_example = window_covers 1000 2500 1800 (omega arith) (omega arith)

-- A cache with one bucket counter, of user 1 on day 9 in bucket 3, and nothing settled.
abbrev in_bucket : ℕ → ℕ → Reply (Option ℤ)
in_bucket n b = done (if b == 3 then some (pos n) else none)

abbrev small_cache : CacheBackend
small_cache = record {
  Store = ℕ;
  value =
      λ n k. elim k [ settled u d ↦ none | reserved u d b ↦ if b == 3 then some (pos n) else none ];
  get = λ k n. elim k [ settled u d ↦ done none | reserved u d b ↦ in_bucket n b ];
  add = λ k n old. (done false, old);
  incr = λ k n old. (done (pos (old + n)), old + n);
  decr = λ k n old. (done (pos (old - n)), old - n);
}

abbrev morning : Context
morning = record {
  enabled = true;
  limit = 10;
  configured_ttl = 600;
  today = 9;
  now = 1000;
  check_now = 1001;
}

admitted_call :
    reserve_user_budget small_cache morning (some 1) 6 4
    ≡ (Admission.admitted (placed small_cache morning 1 6), 10)
unfolding reserve_user_budget put_cents check_cap sum_counters read_counter reservation_buckets
    reservation_ttl_seconds
admitted_call = refl

refused_call : reserve_user_budget small_cache morning (some 1) 6 5 ≡ (Admission.exceeded 5 10, 5)
unfolding reserve_user_budget put_cents check_cap sum_counters read_counter reservation_buckets
    reservation_ttl_seconds decrement_reservation
refused_call = refl

reserve_user_budget_admitted_example :
    (placed small_cache morning 1 6 ≡ placed small_cache morning 1 6)
    × (put_cents small_cache (reserved 1 9 3) 6 4 ≡ (true, 10))
    × IsWithinLimit small_cache morning (placed small_cache morning 1 6) 10
reserve_user_budget_admitted_example =
    reserve_user_budget_admitted small_cache morning 1 6 (placed small_cache morning 1 6) 4 10
      admitted_call

-- A cache that keeps what it is given; four cents are settled, and no bucket has a counter.
abbrev Kept : Type 0
Kept = Key → Option ℕ

abbrev kept_cache : CacheBackend
kept_cache = record {
  Store = Kept;
  value = λ st k. held (st k);
  get = λ k st. done (held (st k));
  add = λ k n st. elim (st k) [ none ↦ (done true, write k n st) | some v ↦ (done false, st) ];
  incr = λ k n st. elim (st k) [
    | none ↦ (Reply.missing, st)
    | some v ↦ (done (pos (v + n)), write k (v + n) st)
  ];
  decr = λ k n st. elim (st k) [
    | none ↦ (Reply.missing, st)
    | some v ↦ (done (if leb n v then pos (v - n) else pos 0), write k (v - n) st)
  ];
}

abbrev four_settled : Kept
four_settled k = elim k [ settled u d ↦ some 4 | reserved u d b ↦ none ]

-- The call fits the limit of ten: it is admitted, and its bucket has a counter from then on.
kept_call :
    reserve_user_budget kept_cache morning (some 1) 6 four_settled
    ≡ (Admission.admitted (placed kept_cache morning 1 6), write (reserved 1 9 3) 6 four_settled)
unfolding reserve_user_budget put_cents check_cap sum_counters read_counter reservation_buckets
    reservation_ttl_seconds
kept_call = refl
