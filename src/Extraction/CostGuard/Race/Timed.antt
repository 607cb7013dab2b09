-- ===== src/Extraction/CostGuard/Race/Timed.antt =====
-- The lifetime of a reservation and of its counter (extraction/cost_guard.py).
use django_core_micha.Extraction.CostGuard.Window.{window_covers}
use django_core_micha.Extraction.CostGuard.Race.Measures.{sum_by, held_in, Covers, is_live}
use django_core_micha.Extraction.CostGuard.Race.{Thread, IsInTime, Move, is_held, keep_until}
use django_core_micha.Extraction.CostGuard.{bucket_seconds, reservation_buckets}
use django_core_micha.Base.{
  ℕ, ◌+◌, ◌*◌, ◌/◌, ◌≤◌, ◌≡◌, List, [], ◌∷◌, ◌++◌, All, arith, true, max, refl, Option, some,
  any_where, ◌==◌, Bool-cases, inl, inr, none,
}

All-replace {ℓ κ} :
    {A : Type ℓ} (P : A → Type κ) (xs ys : List A) (x x' : A)
    → (P x → P x')
    → All P (xs ++ x ∷ ys)
    → All P (xs ++ x' ∷ ys)
All-replace P [] ys x x' h all = (h all.0, all.1)
All-replace P (y ∷ xs) ys x x' h all = (all.0, All-replace P xs ys x x' h all.1)

pub All-at {ℓ κ} :
    {A : Type ℓ} (P : A → Type κ) (xs ys : List A) (x : A) → All P (xs ++ x ∷ ys) → All P (x ∷ ys)
All-at P [] ys x all = all
All-at P (y ∷ xs) ys x all = All-at P xs ys x all.1

module _ (ttl : ℕ) where
  -- A call's bucket is that of its begin, and it is in time.
  abbrev pub IsTimed : ℕ → Thread → Type 0
  IsTimed now t = (t.bucket ≡ t.begun / bucket_seconds) × (t.begun ≤ now) × IsInTime ttl now t

  live-held : (t : Thread) → is_live t.phase ≡ true → is_held t.phase ≡ true
  live-held t h = ground arith

  Covers-at :
      (begun now : ℕ) (t : Thread)
      → begun ≤ now
      → IsTimed now t
      → is_live t.phase ≡ true
      → any_where (λ b. b == t.bucket) (reservation_buckets (max begun now) ttl) ≡ true
  Covers-at begun now t h (at_bucket, after, in_time) alive =
      let late : max begun now ≡ now = ground arith in
      rw (late, at_bucket) (window_covers t.begun now ttl after (in_time (live-held t alive))).0

  -- The window of a call covers every call that is still live.
  pub window-Covers :
      (begun now : ℕ) (threads : List Thread)
      → begun ≤ now
      → All (IsTimed now) threads
      → Covers (reservation_buckets (max begun now) ttl) threads
  window-Covers begun now [] h all = tt
  window-Covers begun now (t ∷ threads) h all =
      (Covers-at begun now t h all.0, window-Covers begun now threads h all.1)

  pub tick-IsTimed :
      (now now' : ℕ) (threads : List Thread)
      → now ≤ now'
      → All (IsInTime ttl now') threads
      → All (IsTimed now) threads
      → All (IsTimed now') threads
  tick-IsTimed now now' [] h lasting all = tt
  tick-IsTimed now now' (t ∷ threads) h lasting all = (
    (all.0.0, omega (arith, all.0.1), lasting.0),
    tick-IsTimed now now' threads h lasting.1 all.1,
  )

  not_held :
      (b now : ℕ) (t : Thread)
      → b * bucket_seconds + bucket_seconds + ttl ≤ now
      → IsTimed now t
      → held_in b t ≡ 0
  not_held b now t h (at_bucket, after, in_time) = elim (Bool-cases (t.bucket == b)) [
    | inr f ↦ rw f refl
    | inl e ↦ elim (Bool-cases (is_held t.phase)) [
      | inr g ↦ rw (e, g) refl
      | inl held ↦
          let same : t.bucket ≡ b = ground arith in
          let within = in_time held in absurd (omega (arith, same, at_bucket, within))
    ]
  ]

  -- Nobody holds cents in a counter that may expire.
  pub sum_held-expired :
      (b now : ℕ) (threads : List Thread)
      → b * bucket_seconds + bucket_seconds + ttl ≤ now
      → All (IsTimed now) threads
      → sum_by (held_in b) threads ≡ 0
  unfolding sum_by
  sum_held-expired b now [] h all = refl
  sum_held-expired b now (t ∷ threads) h all =
      omega (arith, not_held b now t h all.0, sum_held-expired b now threads h all.1)

  -- A counter outlives its bucket by the lifetime of a reservation.
  abbrev pub IsKept : (ℕ → Option ℕ) → Type 0
  IsKept deadline = (b e : ℕ) → deadline b ≡ some e → b * bucket_seconds + bucket_seconds + ttl ≤ e

  keep_until-new :
      (b now k e : ℕ) (o : Option ℕ) (deadline : ℕ → Option ℕ)
      → deadline k ≡ o
      → IsKept deadline
      → b * bucket_seconds ≤ now
      → keep_until b (now + (ttl + bucket_seconds)) deadline k ≡ some e
      → k * bucket_seconds + bucket_seconds + ttl ≤ e
  keep_until-new b now k e none deadline at_k kept h new = ground arith
  keep_until-new b now k e (some d) deadline at_k kept h new =
      let old = kept k d at_k in ground arith

  pub keep_until-IsKept :
      (b now : ℕ) (deadline : ℕ → Option ℕ)
      → b * bucket_seconds ≤ now
      → IsKept deadline
      → IsKept (keep_until b (now + (ttl + bucket_seconds)) deadline)
  keep_until-IsKept b now deadline h kept k e new =
      keep_until-new b now k e (deadline k) deadline refl kept h new

  module _ (limit : ℕ) (t t' : Thread) (clock spent spent' : ℕ) (counters counters' : ℕ → ℕ) where
    Move-IsTimed :
        Move limit ttl t clock spent counters t' spent' counters'
        → IsTimed clock t
        → IsTimed clock t'
    Move-IsTimed (Move.look p e s c) h = ground arith
    Move-IsTimed (Move.read_bucket b todo acc p e s c) h = ground arith
    Move-IsTimed (Move.decide acc p e s c) h = ground arith
    Move-IsTimed (Move.fail todo acc p e s c) h = ground arith
    Move-IsTimed (Move.roll_back p e s c) h = ground arith
    Move-IsTimed (Move.settle actual p le e s c) h = ground arith
    Move-IsTimed (Move.release_settled actual p e s c) h = ground arith
    Move-IsTimed (Move.release p e s c) h = ground arith
    Move-IsTimed (Move.leave p e s c) h = ground arith
    Move-IsTimed (Move.leave_settled actual p e s c) h = ground arith

    pub move-IsTimed :
        (newer older : List Thread)
        → Move limit ttl t clock spent counters t' spent' counters'
        → All (IsTimed clock) (newer ++ t ∷ older)
        → All (IsTimed clock) (newer ++ t' ∷ older)
    move-IsTimed newer older m = All-replace (IsTimed clock) newer older t t' (Move-IsTimed m)
