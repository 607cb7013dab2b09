-- ===== src/Extraction/CostGuard/Race/Knowledge.antt =====
-- What each call knows of the cap, and how the step of one call keeps it (extraction/cost_guard.py).
use django_core_micha.Extraction.CostGuard.{reservation_buckets}
use django_core_micha.Extraction.CostGuard.Race.Timed.{IsTimed, window-Covers}
use django_core_micha.Extraction.CostGuard.Race.Measures.{
  live, paid, weight, held_in, seen, sum_by, sum_by-replace, is_live, Covers,
}
use django_core_micha.Base.{
  ℕ, ◌+◌, ◌≤◌, ◌≡◌, List, [], ◌∷◌, ◌++◌, arith, Bool-cases, ap, inl, inr, refl, All, max,
}
use django_core_micha.Extraction.CostGuard.Race.{
  Phase, placing, reading, admitted, denied, gone, settling, settled, Thread, Move, at_phase,
}

module _ (limit ttl base : ℕ) where
  -- What is known of a call with the older calls behind it.
  abbrev pub OkAt : Phase → Thread → List Thread → Type 0
  OkAt placing t older = Unit
  OkAt (reading todo acc) t older = sum_by (seen todo) (t ∷ older) ≤ acc
  OkAt admitted t older = base + sum_by weight (t ∷ older) ≤ limit
  OkAt (settling a) t older = base + sum_by weight (t ∷ older) ≤ limit
  OkAt (settled a) t older = base + sum_by weight (t ∷ older) ≤ limit
  OkAt denied t older = Unit
  OkAt gone t older = Unit

  unfoldable pub Inv : List Thread → Type 0
  Inv [] = Unit
  Inv (t ∷ older) = OkAt t.phase t older × Inv older

  -- A call that holds no more than before, in the same bucket.
  abbrev pub Shrinks : Thread → Thread → Type 0
  Shrinks t t' = (t'.bucket ≡ t.bucket) × (live t' ≤ live t) × (weight t' ≤ weight t)

  seen-le : (todo : List ℕ) (t t' : Thread) → Shrinks t t' → seen todo t' ≤ seen todo t
  seen-le todo t t' h = ground arith

  OkAt-replace :
      (p : Phase) (x : Thread) (newer older : List Thread) (t t' : Thread)
      → Shrinks t t'
      → OkAt p x (newer ++ t ∷ older)
      → OkAt p x (newer ++ t' ∷ older)
  unfolding sum_by
  OkAt-replace placing x newer older t t' h ok = tt
  OkAt-replace (reading todo acc) x newer older t t' h ok =
      omega (arith, seen-le todo t t' h, sum_by-replace (seen todo) newer older t t')
  OkAt-replace admitted x newer older t t' h ok =
      omega (arith, sum_by-replace weight newer older t t')
  OkAt-replace (settling a) x newer older t t' h ok =
      omega (arith, sum_by-replace weight newer older t t')
  OkAt-replace (settled a) x newer older t t' h ok =
      omega (arith, sum_by-replace weight newer older t t')
  OkAt-replace denied x newer older t t' h ok = tt
  OkAt-replace gone x newer older t t' h ok = tt

  -- The invariant survives the step of one call, if that call is fine after it.
  pub Inv-replace :
      (newer older : List Thread) (t t' : Thread)
      → Shrinks t t'
      → (OkAt t.phase t older → OkAt t'.phase t' older)
      → Inv (newer ++ t ∷ older)
      → Inv (newer ++ t' ∷ older)
  unfolding Inv
  Inv-replace [] older t t' h mine inv = (mine inv.0, inv.1)
  Inv-replace (x ∷ newer) older t t' h mine inv =
      (OkAt-replace x.phase x newer older t t' h inv.0, Inv-replace newer older t t' h mine inv.1)

  seen-cons-le :
      (b : ℕ) (todo : List ℕ) (x : Thread) → seen todo x ≤ seen (b ∷ todo) x + held_in b x
  seen-cons-le b todo x = ground arith

  sum_seen-cons-le :
      (b : ℕ) (todo : List ℕ) (xs : List Thread)
      → sum_by (seen todo) xs ≤ sum_by (seen (b ∷ todo)) xs + sum_by (held_in b) xs
  unfolding sum_by
  sum_seen-cons-le b todo [] = omega arith
  sum_seen-cons-le b todo (x ∷ xs) =
      omega (arith, seen-cons-le b todo x, sum_seen-cons-le b todo xs)

  sum_weight : (xs : List Thread) → sum_by weight xs ≡ sum_by (seen []) xs + sum_by paid xs
  unfolding sum_by
  sum_weight [] = omega arith
  sum_weight (x ∷ xs) = omega (arith, sum_weight xs)

  sum_seen-Covers : (todo : List ℕ) (xs : List Thread) → Covers todo xs → sum_by (seen todo) xs ≡ 0
  unfolding sum_by
  sum_seen-Covers todo [] h = refl
  sum_seen-Covers todo (x ∷ xs) h = elim (Bool-cases (is_live x.phase)) [
    | inl alive ↦ rw (h.0 alive) (ground (arith, sum_seen-Covers todo xs h.1))
    | inr dead ↦ rw dead (ground (arith, sum_seen-Covers todo xs h.1))
  ]

  -- What the step of a call does to what it holds and to the counters.
  module _ (t t' : Thread) (clock spent spent' : ℕ) (counters counters' : ℕ → ℕ) where
    pub Move-Shrinks : Move limit ttl t clock spent counters t' spent' counters' → Shrinks t t'
    Move-Shrinks (Move.look p e s c) = ground arith
    Move-Shrinks (Move.fail todo acc p e s c) = ground arith
    Move-Shrinks (Move.leave p e s c) = ground arith
    Move-Shrinks (Move.leave_settled actual p e s c) = ground arith
    Move-Shrinks (Move.read_bucket b todo acc p e s c) = ground arith
    Move-Shrinks (Move.decide acc p e s c) = ground arith
    Move-Shrinks (Move.roll_back p e s c) = ground arith
    Move-Shrinks (Move.settle actual p le e s c) = ground arith
    Move-Shrinks (Move.release_settled actual p e s c) = ground arith
    Move-Shrinks (Move.release p e s c) = ground arith

    pub Move-spent :
        Move limit ttl t clock spent counters t' spent' counters'
        → spent' + paid t ≡ spent + paid t'
    Move-spent (Move.look p e s c) = ground arith
    Move-spent (Move.fail todo acc p e s c) = ground arith
    Move-spent (Move.leave p e s c) = ground arith
    Move-spent (Move.leave_settled actual p e s c) = ground arith
    Move-spent (Move.read_bucket b todo acc p e s c) = ground arith
    Move-spent (Move.decide acc p e s c) = ground arith
    Move-spent (Move.roll_back p e s c) = ground arith
    Move-spent (Move.settle actual p le e s c) = ground arith
    Move-spent (Move.release_settled actual p e s c) = ground arith
    Move-spent (Move.release p e s c) = ground arith

    pub Move-counters :
        (k : ℕ)
        → held_in k t ≤ counters k
        → Move limit ttl t clock spent counters t' spent' counters'
        → counters k + held_in k t' ≤ counters' k + held_in k t
    Move-counters k h (Move.look p e s c) = ground (arith, ap (λ f. f k) c)
    Move-counters k h (Move.fail todo acc p e s c) = ground (arith, ap (λ f. f k) c)
    Move-counters k h (Move.leave p e s c) = ground (arith, ap (λ f. f k) c)
    Move-counters k h (Move.leave_settled actual p e s c) = ground (arith, ap (λ f. f k) c)
    Move-counters k h (Move.read_bucket b todo acc p e s c) = ground (arith, ap (λ f. f k) c)
    Move-counters k h (Move.decide acc p e s c) = ground (arith, ap (λ f. f k) c)
    Move-counters k h (Move.roll_back p e s c) = ground (arith, ap (λ f. f k) c)
    Move-counters k h (Move.settle actual p le e s c) = ground (arith, ap (λ f. f k) c)
    Move-counters k h (Move.release_settled actual p e s c) = ground (arith, ap (λ f. f k) c)
    Move-counters k h (Move.release p e s c) = ground (arith, ap (λ f. f k) c)

  -- What it knows afterwards, under what it finds in the counters.
  module _ (t t' : Thread) (clock spent spent' : ℕ) (counters counters' : ℕ → ℕ)
      (older : List Thread) (known : base + sum_by paid older ≤ spent)
      (full : (b : ℕ) → sum_by (held_in b) (t ∷ older) ≤ counters b)
      (timed : All (IsTimed ttl clock) (t ∷ older)) where
    pub Move-OkAt :
        Move limit ttl t clock spent counters t' spent' counters'
        → OkAt t.phase t older
        → OkAt t'.phase t' older
    unfolding sum_by
    Move-OkAt (Move.look p e s c) ok =
        let todo = reservation_buckets (max t.begun clock) ttl in
        let mine : Shrinks t (at_phase t (reading todo 0)) = ground arith in
        let cover = window-Covers ttl t.begun clock (t ∷ older) timed.0.1 timed in
        rw e (
          omega (
            arith,
            sum_seen-Covers todo (t ∷ older) cover,
            seen-le todo t (at_phase t (reading todo 0)) mine,
          ))
    Move-OkAt (Move.fail todo acc p e s c) ok = rw e tt
    Move-OkAt (Move.leave p e s c) ok = rw e tt
    Move-OkAt (Move.leave_settled actual p e s c) ok = ground arith
    Move-OkAt (Move.read_bucket b todo acc p e s c) ok =
        ground (arith, full b, sum_seen-cons-le b todo older, seen-cons-le b todo t)
    Move-OkAt (Move.decide acc p e s c) ok = ground (arith, sum_weight older)
    Move-OkAt (Move.roll_back p e s c) ok = ground arith
    Move-OkAt (Move.settle actual p le e s c) ok = ground arith
    Move-OkAt (Move.release_settled actual p e s c) ok = ground arith
    Move-OkAt (Move.release p e s c) ok = ground arith
