-- ===== src/Extraction/CostGuard/Race/Cap.antt =====
-- The cap holds under every interleaving of admissions, settlements and releases
-- (extraction/cost_guard.py).
use django_core_micha.Extraction.CostGuard.Race.Knowledge.{Inv}
use django_core_micha.Extraction.CostGuard.Race.Timed.{IsTimed, IsKept}
use django_core_micha.Extraction.CostGuard.Race.Measures.{paid, held_in, sum_by}
use django_core_micha.Base.{ℕ, ◌+◌, ◌≤◌, ◌≡◌, [], All, none}
use django_core_micha.Extraction.CostGuard.Race.{admitted, Thread, Shared}

module _ (limit ttl base : ℕ) where
  -- The counters tell what the calls hold, every call knows enough, and no counter expires early.
  pub record IsSound (s : Shared) : Type 0 where
    pub settled_counted : s.spent ≡ base + sum_by paid s.threads
    pub held_counted : (b : ℕ) → sum_by (held_in b) s.threads ≤ s.counters b
    pub known : Inv limit ttl base s.threads
    pub timed : All (IsTimed ttl s.clock) s.threads
    pub kept : IsKept ttl s.deadline

  -- The cents of the calls that have been admitted and not settled or released.
  abbrev pub outstanding : Thread → ℕ
  outstanding t = elim t.phase [ admitted ↦ t.cents | _ ↦ 0 ]

  -- A moment with `base` cents settled and no counter kept.
  abbrev pub start : ℕ → Shared
  start opened = record {
    clock = opened;
    spent = base;
    counters = λ b. 0;
    deadline = λ b. none;
    threads = [];
  }
