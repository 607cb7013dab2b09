-- ===== src/Extraction/CostGuard.antt =====
-- The daily AI budget of src/django_core_micha/extraction/cost_guard.py. The cache is a parameter:
-- its operations and what they answer. A key is a data type in place of the text that the source
-- formats from the same parts. Times are whole seconds.
pub mod Admit
pub mod Window
pub mod Race
use django_core_micha.Base.{
  ℕ, zero, suc, ◌+◌, ◌-◌, ◌*◌, ◌/◌, ◌≡◌, ◌≢◌, Bool, true, false, not, ◌&&◌, ◌||◌, Option, none,
  some, List, [], ◌∷◌, if◌then◌else◌, ltb, leb, ◌==◌, max, min,
}
use django_core_micha.Base.Int.{ℤ, pos, negsuc, pos_part, sub_ℕ}

-- `_cache_key_for_day` and `_reservation_key`: the user and the day, and the bucket.
pub data Key : Type 0 where
  settled : ℕ → ℕ → Key
  reserved : ℕ → ℕ → ℕ → Key

-- What a call of the cache gives: a value, a ValueError (no such key), or any other exception.
pub data Reply (A : Type 0) : Type 0 where
  done : A → Reply A
  missing : Reply A
  down : Reply A

-- The cache's operations, and the value that a key holds in a store.
pub record CacheBackend : Type 1 where
  pub Store : Type 0
  pub value : Store → Key → Option ℤ
  pub get : Key → Store → Reply (Option ℤ)
  pub add : Key → ℕ → Store → Reply Bool × Store
  pub incr : Key → ℕ → Store → Reply ℤ × Store
  pub decr : Key → ℕ → Store → Reply ℤ × Store

pub record Reservation : Type 0 where
  pub user_id : ℕ
  pub day : ℕ
  pub bucket : ℕ
  pub cents : ℕ

-- The settings, and the clock as the call reads it: the day, and the time before and after `add`.
pub record Context : Type 0 where
  pub enabled : Bool
  pub limit : ℕ
  pub configured_ttl : ℕ
  pub today : ℕ
  pub now : ℕ
  pub check_now : ℕ

abbrev pub bucket_seconds : ℕ
bucket_seconds = 300

unfoldable pub reservation_ttl_seconds : ℕ → ℕ
reservation_ttl_seconds configured = max 60 configured

-- `range(lo, lo + n)`
abbrev pub range_from : ℕ → ℕ → List ℕ
range_from lo zero = []
range_from lo (suc n) = lo ∷ range_from (suc lo) n

-- `range(max(0, current - count), current + 1)`
unfoldable pub reservation_buckets : ℕ → ℕ → List ℕ
reservation_buckets now ttl =
    let current = now / bucket_seconds in
    let count = (ttl + bucket_seconds - 1) / bucket_seconds in
    range_from (current - count) (current + 1 - (current - count))

-- `_read_counter` on what the cache gives: no less than 0.
abbrev pub counter : Option ℤ → ℕ
counter none = 0
counter (some v) = pos_part v

pub data Admission : Type 0 where
  skipped : Admission
  admitted : Reservation → Admission
  -- AICostLimitExceeded, with the cents that others use and the limit
  exceeded : ℕ → ℕ → Admission
  -- AICostAccountingUnavailable
  unavailable : Admission

module _ (cache : CacheBackend) where
  open cache use {Store, get, add, incr, decr}

  unfoldable pub read_counter : Key → Store → Reply ℕ
  read_counter k st = elim (get k st) [
    | done v ↦ done (counter v)
    | missing ↦ missing
    | down ↦ down
  ]

  -- `sum(_read_counter(…) for item in buckets)`, `none` where a read raises.
  unfoldable pub sum_counters : (ℕ → Key) → List ℕ → Store → Option ℕ
  unfolding read_counter
  sum_counters key [] st = some 0
  sum_counters key (b ∷ buckets) st =
      let rest = sum_counters key buckets st in
      elim (read_counter (key b) st) [
        | done n ↦ elim rest [ none ↦ none | some m ↦ some (n + m) ]
        | missing ↦ none
        | down ↦ none
      ]

  -- The last `incr` of `reserve_user_budget`; true where the cents are in the counter.
  last_incr : Key → ℕ → Store → Bool × Store
  last_incr k n st =
      let (r, st') = incr k n st in (elim r [ done v ↦ true | missing ↦ false | down ↦ false ], st')

  retry_add : Key → ℕ → Store → Bool × Store
  retry_add k n st =
      let (r, st') = add k n st in
      elim r [
        | done fresh ↦ if fresh then (true, st') else last_incr k n st'
        | missing ↦ (false, st')
        | down ↦ (false, st')
      ]

  -- The `incr`, with another `add` where the bucket expired in between.
  incr_or_add : Key → ℕ → Store → Bool × Store
  incr_or_add k n st =
      let (r, st') = incr k n st in
      elim r [ done v ↦ (true, st') | missing ↦ retry_add k n st' | down ↦ (false, st') ]

  -- The reservation's cents go into its bucket.
  unfoldable pub put_cents : Key → ℕ → Store → Bool × Store
  unfolding last_incr retry_add incr_or_add
  put_cents k n st =
      let (r, st') = add k n st in
      elim r [
        | done fresh ↦ if fresh then (true, st') else incr_or_add k n st'
        | missing ↦ (false, st')
        | down ↦ (false, st')
      ]

  abbrev pub key_of : Reservation → Key
  key_of r = reserved r.user_id r.day r.bucket

  -- A failure of `decr` is ignored: the bucket expires.
  unfoldable pub decrement_reservation : Reservation → Store → Store
  decrement_reservation r st = (decr (key_of r) r.cents st).1

  -- The check of the cap, after the cents are in their bucket.
  unfoldable pub check_cap : Context → Reservation → Store → Admission × Store
  check_cap c r st =
      let ttl = reservation_ttl_seconds c.configured_ttl in
      let back = decrement_reservation r st in
      elim (sum_counters (reserved r.user_id r.day)
        (reservation_buckets (max c.now c.check_now) ttl) st) [
          | none ↦ (unavailable, back)
          | some total ↦ elim (read_counter (settled r.user_id r.day) st) [
            | missing ↦ (unavailable, back)
            | down ↦ (unavailable, back)
            | done spent ↦
                if ltb c.limit (spent + total)
                then (exceeded (spent + total - r.cents) c.limit, back)
                else (admitted r, st)
          ]
        ]

  unfoldable pub reserve_user_budget : Context → Option ℕ → ℕ → Store → Admission × Store
  reserve_user_budget c none cents st = (skipped, st)
  reserve_user_budget c (some user) cents st =
      if not c.enabled || cents == 0
      then (skipped, st)
      else let r : Reservation = record {
        user_id = user;
        day = c.today;
        bucket = c.now / bucket_seconds;
        cents = cents;
      } in
        let (added, st') = put_cents (key_of r) cents st in
        if added then check_cap c r st' else (unavailable, st')

  -- `release_reservation`
  unfoldable pub release_reservation : Option Reservation → Store → Store
  release_reservation none st = st
  release_reservation (some r) st = decrement_reservation r st

  last_increment : Key → ℕ → Store → Option ℤ × Store
  last_increment k n st =
      let (r, st') = incr k n st in (elim r [ done v ↦ some v | missing ↦ none | down ↦ none ], st')

  retry_increment : Key → ℕ → Store → Option ℤ × Store
  retry_increment k n st =
      let (r, st') = add k n st in
      elim r [
        | done fresh ↦ if fresh then (some (pos n), st') else last_increment k n st'
        | missing ↦ (none, st')
        | down ↦ (none, st')
      ]

  -- `_increment_day_counter`: the new total, or `none` where it raises.
  unfoldable pub increment_day_counter : ℕ → ℕ → ℕ → Store → Option ℤ × Store
  unfolding last_increment retry_increment
  increment_day_counter user day cents st =
      let k = settled user day in
      let (r, st') = add k cents st in
      elim r [
        | missing ↦ (none, st')
        | down ↦ (none, st')
        | done fresh ↦
            if fresh
            then (some (pos cents), st')
            else let (q, st'') = incr k cents st' in
              elim q [
                | done v ↦ (some v, st'')
                | missing ↦ retry_increment k cents st''
                | down ↦ (none, st'')
              ]
      ]

  -- `settle_reservation`, the response's cost being known: the new total, and 0 where the
  -- accounting fails.
  unfoldable pub settle_reservation : Option Reservation → ℕ → Store → ℤ × Store
  settle_reservation none actual st = (pos 0, st)
  settle_reservation (some r) actual st =
      let (total, st') = increment_day_counter r.user_id r.day actual st in
      elim total [ none ↦ (pos 0, st') | some v ↦ (v, decrement_reservation r st') ]
