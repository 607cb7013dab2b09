-- ===== src/Extraction/CostGuard/Race/Run.antt =====
-- A call of `reserve_user_budget` is a run of the race (extraction/cost_guard.py). The laws of the
-- cache are those that Django documents: `add` sets a key only where it is absent, `incr` and `decr`
-- change a key that is there.
use django_core_micha.Extraction.CostGuard.Race.Refine.{write, ttl_of, read_at}
use django_core_micha.Extraction.CostGuard.Race.{Thread, Shared}
use django_core_micha.Extraction.CostGuard.{
  Key, Reply, CacheBackend, Reservation, Context, reservation_buckets,
}
use django_core_micha.Base.Int.{ℤ, pos}
use django_core_micha.Base.{ℕ, List, ◌≡◌, some, ◌+◌, ◌-◌, false, true, Option, none, ◌≤◌}

-- What the cache gives for a key.
abbrev pub held : Option ℕ → Option ℤ
held none = none
held (some n) = some (pos n)

module _ (cache : CacheBackend) where
  open cache use {Store, get, add, incr, decr}

  module _ (value : Store → Key → Option ℕ)
      (get_law : (k : Key) (st : Store) → get k st ≡ Reply.done (held (value st k)))
      (add_absent : (k : Key) (n : ℕ) (st : Store)
        → value st k ≡ none
        → ((add k n st).0 ≡ Reply.done true) × (value (add k n st).1 ≡ write k n (value st)))
      (add_present : (k : Key) (n v : ℕ) (st : Store)
        → value st k ≡ some v
        → ((add k n st).0 ≡ Reply.done false) × (value (add k n st).1 ≡ value st))
      (incr_present : (k : Key) (n v : ℕ) (st : Store)
        → value st k ≡ some v
        → ((incr k n st).0 ≡ Reply.done (pos (v + n)))
          × (value (incr k n st).1 ≡ write k (v + n) (value st)))
      (decr_present : (k : Key) (n v : ℕ) (st : Store)
        → value st k ≡ some v
        → n ≤ v
        → value (decr k n st).1 ≡ write k (v - n) (value st)) where
    module _ (last : ℕ) (c : Context) (r : Reservation) (deadline : ℕ → Option ℕ)
        (threads : List Thread) (s : Shared) where
      abbrev window : List ℕ
      window = reservation_buckets (read_at c) (ttl_of c)
