-- ===== src/Extraction/CostGuard/Race/Refine.antt =====
-- The steps of a race are those of `reserve_user_budget` (extraction/cost_guard.py), on a cache that
-- is up, while none of its counters expires.
use mathlib.Core.Path.{fun_ext}
use django_core_micha.Base.{
  ℕ, Bool, List, ◌≡◌, if◌then◌else◌, ◌∷◌, some, ◌+◌, ◌==◌, ◌-◌, [], ◌&&◌, false, subst, arith, ◌⊎◌,
  true, inl, refl, ◌∙◌, inr, max, Bool-cases, Option, none,
}
use django_core_micha.Extraction.CostGuard.{
  Key, Reservation, Context, Admission, reservation_ttl_seconds, bucket_seconds,
}
use django_core_micha.Extraction.CostGuard.Race.{
  Phase, Thread, Shared, Reach, next, move, read_bucket, bump, take_out, Move, keep_until,
}

abbrev pub same_key : Key → Key → Bool
same_key (Key.settled u d) (Key.settled v e) = u == v && d == e
same_key (Key.reserved u d b) (Key.reserved v e c) = u == v && d == e && b == c
same_key _ _ = false

-- What the keys hold after a key has got a value.
abbrev pub write : Key → ℕ → (Key → Option ℕ) → Key → Option ℕ
write k n value j = if same_key j k then some n else value j

-- A key that is not there counts as 0.
abbrev pub amount : Option ℕ → ℕ
amount none = 0
amount (some n) = n

-- The sum of some counters.
abbrev pub sum_of : (ℕ → ℕ) → List ℕ → ℕ
sum_of counters [] = 0
sum_of counters (b ∷ todo) = counters b + sum_of counters todo

abbrev pub call : ℕ → ℕ → ℕ → Phase → Thread
call cents bucket begun p = record { cents = cents; bucket = bucket; begun = begun; phase = p }

abbrev pub state : ℕ → ℕ → (ℕ → ℕ) → (ℕ → Option ℕ) → List Thread → Shared
state clock spent counters deadline threads = record {
  clock = clock;
  spent = spent;
  counters = counters;
  deadline = deadline;
  threads = threads;
}

module _ (limit ttl last : ℕ) (s : Shared) (clock : ℕ) (deadline : ℕ → Option ℕ)
    (threads : List Thread) (cents bucket begun : ℕ) where
  -- A run to a state of the newest call.
  abbrev pub To : ℕ → (ℕ → ℕ) → Phase → Type 0
  To spent counters p =
      Reach limit ttl last s
        (state clock spent counters deadline (call cents bucket begun p ∷ threads))

  pub moved :
      (spent spent' : ℕ) (counters counters' : ℕ → ℕ) (p p' : Phase)
      → Move limit ttl
          (call cents bucket begun p)
          clock
          spent
          counters
          (call cents bucket begun p')
          spent'
          counters'
      → To spent counters p
      → To spent' counters' p'
  moved spent spent' counters counters' p p' m r = next r (
      move [] threads (call cents bucket begun p) (call cents bucket begun p') spent' counters' refl
        m)

  pub reading_all :
      (spent : ℕ) (counters : ℕ → ℕ) (todo : List ℕ) (acc : ℕ)
      → To spent counters (Phase.reading todo acc)
      → To spent counters (Phase.reading [] (acc + sum_of counters todo))
  reading_all spent counters [] acc r =
      subst (λ (n : ℕ). To spent counters (Phase.reading [] n)) (omega arith) r
  reading_all spent counters (b ∷ todo) acc r =
      subst (λ (n : ℕ). To spent counters (Phase.reading [] n)) (omega arith)
        (reading_all spent counters todo (acc + counters b) (
          moved spent spent counters counters (Phase.reading (b ∷ todo) acc)
            (Phase.reading todo (acc + counters b)) (read_bucket b todo acc refl refl refl refl) r))

eq_self : (n : ℕ) → (n == n) ≡ true
eq_self n = ground arith

pub write_same :
    (u d bucket n : ℕ) (value : Key → Option ℕ)
    → write (Key.reserved u d bucket) n value (Key.reserved u d bucket) ≡ some n
write_same u d bucket n value = rw (eq_self u, eq_self d, eq_self bucket) refl

-- The counters of one user on one day after the write of a bucket.
view_write :
    (u d bucket n : ℕ) (value value' : Key → Option ℕ) (b : ℕ)
    → value' ≡ write (Key.reserved u d bucket) n value
    → amount (value' (Key.reserved u d b))
      ≡ (if b == bucket then n else amount (value (Key.reserved u d b)))
view_write u d bucket n value value' b e =
    rw (e, eq_self u, eq_self d)
      (elim (Bool-cases (b == bucket)) [ inl t ↦ rw t refl | inr f ↦ rw f refl ])

pub view_bump :
    (u d bucket n : ℕ) (value value' : Key → Option ℕ)
    → value' ≡ write (Key.reserved u d bucket) (amount (value (Key.reserved u d bucket)) + n) value
    → (λ (b : ℕ). amount (value' (Key.reserved u d b)))
      ≡ bump bucket n (λ b. amount (value (Key.reserved u d b)))
view_bump u d bucket n value value' e = fun_ext (λ b.
    view_write u d bucket _ value value' b e ∙ elim (Bool-cases (b == bucket)) [
      | inr f ↦ rw f refl
      | inl t ↦ let same : b ≡ bucket = ground arith in rw (t, same) refl
    ])

pub view_take_out :
    (u d bucket n : ℕ) (value value' : Key → Option ℕ)
    → value' ≡ write (Key.reserved u d bucket) (amount (value (Key.reserved u d bucket)) - n) value
    → (λ (b : ℕ). amount (value' (Key.reserved u d b)))
      ≡ take_out bucket n (λ b. amount (value (Key.reserved u d b)))
view_take_out u d bucket n value value' e = fun_ext (λ b.
    view_write u d bucket _ value value' b e ∙ elim (Bool-cases (b == bucket)) [
      | inr f ↦ rw f refl
      | inl t ↦ let same : b ≡ bucket = ground arith in rw (t, same) refl
    ])

pub view_settled :
    (u d bucket n : ℕ) (value value' : Key → Option ℕ)
    → value' ≡ write (Key.reserved u d bucket) n value
    → amount (value' (Key.settled u d)) ≡ amount (value (Key.settled u d))
view_settled u d bucket n value value' e = rw e refl

-- The counters of one user on one day at a time, with the calls that run.
unfoldable pub shared : ℕ → ℕ → ℕ → (ℕ → Option ℕ) → (Key → Option ℕ) → List Thread → Shared
shared u d clock deadline value threads =
    state clock (amount (value (Key.settled u d))) (λ b. amount (value (Key.reserved u d b)))
      deadline threads

-- The call of a reservation, begun at a time.
unfoldable pub thread : ℕ → Reservation → Phase → Thread
thread begun r phase = call r.cents r.bucket begun phase

abbrev pub ttl_of : Context → ℕ
ttl_of c = reservation_ttl_seconds c.configured_ttl

abbrev pub read_at : Context → ℕ
read_at c = max c.now c.check_now

-- The state that a call leaves: its thread stands first.
abbrev pub left_by :
    Context → Reservation → (ℕ → Option ℕ) → List Thread → Phase → (Key → Option ℕ) → Shared
left_by c r deadline threads phase after =
    shared r.user_id r.day (read_at c)
      (keep_until r.bucket (c.now + (ttl_of c + bucket_seconds)) deadline) after
      (thread c.now r phase ∷ threads)

-- What a call comes to, and what the keys hold after it: an admission or a denial, by steps of the
-- race.
abbrev pub Ends :
    ℕ
    → Context
    → Reservation
    → Shared
    → (ℕ → Option ℕ)
    → List Thread
    → Admission
    → (Key → Option ℕ)
    → Type 0
Ends last c r s deadline threads answer after =
    ((answer ≡ Admission.admitted r)
      × Reach c.limit (ttl_of c) last s (left_by c r deadline threads Phase.admitted after))
    ⊎ ((others : ℕ) × ((answer ≡ Admission.exceeded others c.limit)
          × Reach c.limit (ttl_of c) last s (left_by c r deadline threads Phase.gone after)))
