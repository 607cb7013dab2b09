-- ===== src/Activity/Presence/Bounds.antt =====
-- How much presence heartbeats can credit (activity/services.py).
use native.Mathlib.Nat.{mul-add}
use django_core_micha.Base.{
  ℕ, ◌+◌, ◌≤◌, ◌≡◌, true, false, Option, none, some, List, [], ◌∷◌, arith, eq_iff, eq_refl,
  if◌then◌else◌, ◌*◌, Bool-cases, inr, ◌∙◌, inl,
}
use django_core_micha.Activity.Presence.{
  Scope, same_scope, ActivityBucket, latest_ping, add_credit, record_ping, credit, second,
}

-- The seconds of all buckets of a scope.
unfoldable pub total : Scope → List ActivityBucket → ℕ
total k [] = 0
total k (r ∷ rows) = (if same_scope r.scope k then r.active_seconds else 0) + total k rows

-- Pings of any scopes, in this order.
unfoldable pub ping_all : ℕ → List (Scope × ℕ) → List ActivityBucket → List ActivityBucket
ping_all most [] rows = rows
ping_all most ((k, now) ∷ pings) rows = ping_all most pings (record_ping most k now rows)

-- The clock does not run back.
abbrev pub InOrder : ℕ → List (Scope × ℕ) → Type 0
InOrder t [] = Unit
InOrder t ((k, now) ∷ pings) = (t ≤ now) × InOrder now pings

abbrev pub pings_of : Scope → List (Scope × ℕ) → ℕ
pings_of k [] = 0
pings_of k ((j, now) ∷ pings) = (if same_scope j k then 1 else 0) + pings_of k pings

same_scope_refl : (k : Scope) → same_scope k k ≡ true
same_scope_refl k = ground (arith, eq_refl k.app_key, eq_refl k.object_id)

same_scope_trans : (a b c : Scope) → same_scope a b ≡ true → same_scope a c ≡ same_scope b c
same_scope_trans a b c h =
    ground (arith, eq_iff a.app_key b.app_key, eq_iff a.object_id b.object_id)

same_scope_eq : (a b : Scope) → same_scope a b ≡ true → a ≡ b
same_scope_eq a b h = ground (arith, eq_iff a.app_key b.app_key, eq_iff a.object_id b.object_id)

total-add_credit :
    (k j : Scope) (delta now : ℕ) (rows : List ActivityBucket)
    → total k (add_credit j delta now rows) ≡ total k rows + (if same_scope j k then delta else 0)
unfolding total add_credit
total-add_credit k j delta now [] = omega arith
total-add_credit k j delta now (r ∷ rows) =
    ground (arith, same_scope_trans r.scope j k, total-add_credit k j delta now rows)

abbrev BeforeOrAt : Option ℕ → ℕ → Type 0
BeforeOrAt none now = Unit
BeforeOrAt (some t) now = t ≤ now

latest_ping-add_credit :
    (k : Scope) (delta now : ℕ) (rows : List ActivityBucket)
    → BeforeOrAt (latest_ping k rows) now
    → latest_ping k (add_credit k delta now rows) ≡ some now
unfolding latest_ping add_credit
latest_ping-add_credit k delta now [] h = ground (arith, same_scope_refl k)
latest_ping-add_credit k delta now (r ∷ rows) h =
    ground (arith, latest_ping-add_credit k delta now rows)

latest_ping-other :
    (k j : Scope) (delta now : ℕ) (rows : List ActivityBucket)
    → same_scope j k ≡ false
    → latest_ping k (add_credit j delta now rows) ≡ latest_ping k rows
unfolding latest_ping add_credit
latest_ping-other k j delta now [] h = ground arith
latest_ping-other k j delta now (r ∷ rows) h =
    ground (arith, same_scope_trans r.scope j k, latest_ping-other k j delta now rows h)

credit_le :
    (most now t : ℕ)
    → t ≤ now
    → (credit most now (some t) * second + t ≤ now) × (credit most now (some t) ≤ most)
credit_le most now t h = (omega arith, omega arith)

-- One ping of this or another scope.
record_ping-bounds :
    (most : ℕ) (k j : Scope) (now t : ℕ) (rows : List ActivityBucket)
    → latest_ping k rows ≡ some t
    → t ≤ now
    → let rows' = record_ping most j now rows in
      (last : ℕ) × (latest_ping k rows' ≡ some last)
      × (last ≤ now)
      × (total k rows' * second + t ≤ total k rows * second + last)
      × (total k rows' ≤ total k rows + most * (if same_scope j k then 1 else 0))
unfolding record_ping
record_ping-bounds most k j now t rows e h = elim (Bool-cases (same_scope j k)) [
  | inr other ↦ (
    t,
    latest_ping-other k j _ now rows other ∙ e,
    h,
    rw (total-add_credit k j (credit most now (latest_ping j rows)) now rows, other) (omega arith),
    rw (total-add_credit k j (credit most now (latest_ping j rows)) now rows, other) (omega arith),
  )
  | inl same ↦
      let p = same_scope_eq j k same in
      let (gain, capped) = credit_le most now t h in
      rw p (
        now,
        latest_ping-add_credit k _ now rows (rw e h),
        omega arith,
        rw
            (
              total-add_credit k k (credit most now (latest_ping k rows)) now rows,
              same_scope_refl k,
              e,
            )
            (omega (arith, gain)),
        rw
            (
              total-add_credit k k (credit most now (latest_ping k rows)) now rows,
              same_scope_refl k,
              e,
            )
            (omega (arith, capped)),
      )
]

-- From the last ping of a scope on, under pings of any scopes with a clock that does not run back,
-- the seconds that the scope gains are no more than the time between that ping and its last one,
-- and no more than the maximal credit for each of its pings.
pub presence_bounded :
    (most : ℕ) (k : Scope) (t : ℕ) (pings : List (Scope × ℕ)) (rows : List ActivityBucket)
    (first : ℕ)
    → latest_ping k rows ≡ some first
    → first ≤ t
    → InOrder t pings
    → let rows' = ping_all most pings rows in
      (last : ℕ) × (latest_ping k rows' ≡ some last)
      × (total k rows' * second + first ≤ total k rows * second + last)
      × (total k rows' ≤ total k rows + most * pings_of k pings)
unfolding ping_all
presence_bounded most k t [] rows first e h o = (first, e, omega arith, omega arith)
presence_bounded most k t ((j, now) ∷ pings) rows first e h o =
    let (last, e', h', gain, capped) =
      record_ping-bounds most k j now first rows e (omega (arith, o.0)) in
    let (last', e'', gain', capped') =
      presence_bounded most k now pings (record_ping most j now rows) last e' h' o.1 in
    (last', e'', omega arith, omega (arith, capped, capped', mul-add))
