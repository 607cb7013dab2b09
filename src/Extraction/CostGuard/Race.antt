-- ===== src/Extraction/CostGuard/Race.antt =====
-- Concurrent admissions of one user on one day (extraction/cost_guard.py): each step is one call of
-- the cache or of the clock, and a counter that the cache does not keep counts as 0. The threads stand
-- newest first, in the order in which they put their cents in.
pub mod Measures
pub mod Timed
pub mod Knowledge
pub mod Cap
pub mod Refine
pub mod Run
use django_core_micha.Extraction.CostGuard.{bucket_seconds, reservation_buckets}
use django_core_micha.Base.{
  ℕ, ◌+◌, ◌-◌, ◌/◌, ◌≤◌, ◌≡◌, Bool, true, false, List, [], ◌∷◌, ◌++◌, if◌then◌else◌, ltb, ◌==◌, All,
  Option, none, some, max, ◌⊎◌,
}

-- Where a call stands: its cents are in; it reads the buckets `todo` after reading `acc` cents; it
-- has been admitted; it has been denied or could not read, with its cents still in the bucket; its
-- cost is in the settled counter, and its cents still in the bucket; it has given them back; or
-- nothing of it is left to do.
pub data Phase : Type 0 where
  placing : Phase
  reading : List ℕ → ℕ → Phase
  admitted denied gone : Phase
  settling settled : ℕ → Phase

-- `begun` is the time that the call read first.
pub record Thread : Type 0 where
  pub cents : ℕ
  pub bucket : ℕ
  pub begun : ℕ
  pub phase : Phase

-- The clock, the settled counter, the bucket counters with the times at which they expire, and the
-- calls.
pub record Shared : Type 0 where
  pub clock : ℕ
  pub spent : ℕ
  pub counters : ℕ → ℕ
  pub deadline : ℕ → Option ℕ
  pub threads : List Thread

abbrev pub bump : ℕ → ℕ → (ℕ → ℕ) → ℕ → ℕ
bump b n counters k = if k == b then counters k + n else counters k

abbrev pub take_out : ℕ → ℕ → (ℕ → ℕ) → ℕ → ℕ
take_out b n counters k = if k == b then counters k - n else counters k

-- `add` sets a timeout, and `incr` keeps the one that the key has.
abbrev pub or_new : Option ℕ → ℕ → Option ℕ
or_new none e = some e
or_new (some old) e = some old

abbrev pub keep_until : ℕ → ℕ → (ℕ → Option ℕ) → ℕ → Option ℕ
keep_until b e deadline k = if k == b then or_new (deadline k) e else deadline k

abbrev pub at_phase : Thread → Phase → Thread
at_phase t p = record t { phase = p }

-- Calls whose cents are their own to give back.
abbrev pub is_held : Phase → Bool
is_held gone = false
is_held (settled a) = false
is_held _ = true

-- A call that holds cents is no older than the lifetime of a reservation.
abbrev pub IsInTime : ℕ → ℕ → Thread → Type 0
IsInTime ttl now t = is_held t.phase ≡ true → now ≤ t.begun + ttl

module _ (limit ttl : ℕ) where
  -- The step of one call `t` at a time, from the settled counter and the bucket counters that it
  -- finds to those that it leaves.
  pub data Move (t : Thread) (clock spent : ℕ) (counters : ℕ → ℕ) (t' : Thread) (spent' : ℕ)
      (counters' : ℕ → ℕ) : Type 0 where
    -- the clock is read again, and gives the window
    look :
        t.phase ≡ placing
        → t' ≡ at_phase t (reading (reservation_buckets (max t.begun clock) ttl) 0)
        → spent' ≡ spent
        → counters' ≡ counters
        → Move t clock spent counters t' spent' counters'
    read_bucket :
        (b : ℕ) (todo : List ℕ) (acc : ℕ)
        → t.phase ≡ reading (b ∷ todo) acc
        → t' ≡ at_phase t (reading todo (acc + counters b))
        → spent' ≡ spent
        → counters' ≡ counters
        → Move t clock spent counters t' spent' counters'
    -- the settled counter is read last, and the cap decides
    decide :
        (acc : ℕ)
        → t.phase ≡ reading [] acc
        → t' ≡ at_phase t (if ltb limit (spent + acc) then denied else admitted)
        → spent' ≡ spent
        → counters' ≡ counters
        → Move t clock spent counters t' spent' counters'
    -- a read of the cache raises
    fail :
        (todo : List ℕ) (acc : ℕ)
        → t.phase ≡ reading todo acc
        → t' ≡ at_phase t denied
        → spent' ≡ spent
        → counters' ≡ counters
        → Move t clock spent counters t' spent' counters'
    roll_back :
        t.phase ≡ denied
        → t' ≡ at_phase t gone
        → spent' ≡ spent
        → counters' ≡ take_out t.bucket t.cents counters
        → Move t clock spent counters t' spent' counters'
    -- the actual cost is no more than what was reserved
    settle :
        (actual : ℕ)
        → t.phase ≡ admitted
        → actual ≤ t.cents
        → t' ≡ at_phase t (settling actual)
        → spent' ≡ spent + actual
        → counters' ≡ counters
        → Move t clock spent counters t' spent' counters'
    release_settled :
        (actual : ℕ)
        → t.phase ≡ settling actual
        → t' ≡ at_phase t (settled actual)
        → spent' ≡ spent
        → counters' ≡ take_out t.bucket t.cents counters
        → Move t clock spent counters t' spent' counters'
    release :
        t.phase ≡ admitted
        → t' ≡ at_phase t gone
        → spent' ≡ spent
        → counters' ≡ take_out t.bucket t.cents counters
        → Move t clock spent counters t' spent' counters'
    -- the `decr` raises, or the settlement does, and the cents stay in the bucket
    leave :
        t.phase ≡ denied ⊎ t.phase ≡ admitted
        → t' ≡ at_phase t gone
        → spent' ≡ spent
        → counters' ≡ counters
        → Move t clock spent counters t' spent' counters'
    leave_settled :
        (actual : ℕ)
        → t.phase ≡ settling actual
        → t' ≡ at_phase t (settled actual)
        → spent' ≡ spent
        → counters' ≡ counters
        → Move t clock spent counters t' spent' counters'

  -- The day's settled counter is kept until `last`.
  pub data Step (last : ℕ) (s : Shared) : Shared → Type 0 where
    -- a new call puts its cents in its bucket
    put :
        (t : Thread)
        → t.phase ≡ placing
        → t.bucket ≡ t.begun / bucket_seconds
        → t.begun ≤ s.clock
        → s.clock ≤ t.begun + ttl
        → Step last s (record s {
          counters = bump t.bucket t.cents s.counters;
          deadline = keep_until t.bucket (s.clock + (ttl + bucket_seconds)) s.deadline;
          threads = t ∷ s.threads;
        })
    -- a call raises, although the cache has put its cents in
    lose :
        (begun cents : ℕ)
        → begun ≤ s.clock
        → Step last s (record s {
          counters = bump (begun / bucket_seconds) cents s.counters;
          deadline =
              keep_until (begun / bucket_seconds) (s.clock + (ttl + bucket_seconds)) s.deadline;
        })
    move :
        (newer older : List Thread) (t t' : Thread) (spent' : ℕ) (counters' : ℕ → ℕ)
        → s.threads ≡ newer ++ t ∷ older
        → Move t s.clock s.spent s.counters t' spent' counters'
        → Step last s
            (record s { spent = spent'; counters = counters'; threads = newer ++ t' ∷ older })
    -- the cache drops a counter
    expire :
        (b e : ℕ)
        → s.deadline b ≡ some e
        → e ≤ s.clock
        → Step last s (record s {
          counters = λ k. if k == b then 0 else s.counters k;
          deadline = λ k. if k == b then none else s.deadline k;
        })
    -- time passes, and every call ends within its lifetime
    tick :
        (now : ℕ)
        → s.clock ≤ now
        → now ≤ last
        → All (IsInTime ttl now) s.threads
        → Step last s (record s { clock = now })

  pub data Reach (last : ℕ) (s : Shared) : Shared → Type 0 where
    here : Reach last s s
    next : {t u : Shared} → Reach last s t → Step last t u → Reach last s u
