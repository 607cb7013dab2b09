-- ===== src/Activity/Presence.antt =====
-- The heartbeat of src/django_core_micha/activity/services.py over the table ActivityBucket. A time
-- is a number of microseconds since the epoch. A ping runs under a row lock, and is one step here.
pub mod Bounds
use django_core_micha.Base.{
  ℕ, ◌+◌, ◌-◌, ◌*◌, ◌/◌, min, max, String, Bool, true, false, ◌&&◌, Option, none, some, List, [],
  ◌∷◌, if◌then◌else◌, ◌==◌, str_eq,
}
use django_core_micha.Base.Int.{ℤ, pos_part}

-- What a bucket belongs to. A content type is its primary key.
pub record Scope : Type 0 where
  pub app_key : String
  pub content_type : ℕ
  pub object_id : String
  pub user : ℕ

abbrev pub same_scope : Scope → Scope → Bool
same_scope a b =
    str_eq a.app_key b.app_key
    && a.content_type == b.content_type
    && str_eq a.object_id b.object_id
    && a.user == b.user

-- A row; scope and start are unique together.
pub record ActivityBucket : Type 0 where
  pub scope : Scope
  pub bucket_start : ℕ
  pub active_seconds : ℕ
  pub last_ping_at : Option ℕ

abbrev pub second : ℕ
second = 1000000

-- The start of the hour.
abbrev pub floor_to_bucket_start : ℕ → ℕ
floor_to_bucket_start now = now / (3600 * second) * (3600 * second)

-- `max(0, int(setting))`, with the default of 45 seconds.
abbrev pub max_credit_seconds : Option ℤ → ℕ
max_credit_seconds none = 45
max_credit_seconds (some n) = pos_part n

abbrev pub later : Option ℕ → Option ℕ → Option ℕ
later none t = t
later (some s) none = some s
later (some s) (some t) = some (max s t)

-- The newest `last_ping_at` of a scope: null values are left out.
unfoldable pub latest_ping : Scope → List ActivityBucket → Option ℕ
latest_ping k [] = none
latest_ping k (r ∷ rows) =
    let rest = latest_ping k rows in
    if same_scope r.scope k then later r.last_ping_at rest else rest

-- `int(max(0, min(max_credit_seconds, elapsed_seconds)))`: a clock that runs back credits nothing.
abbrev pub credit : ℕ → ℕ → Option ℕ → ℕ
credit most now none = 0
credit most now (some last) = min most ((now - last) / second)

-- The bucket of this hour is credited, a new one being made where there is none.
unfoldable pub add_credit : Scope → ℕ → ℕ → List ActivityBucket → List ActivityBucket
add_credit k delta now [] =
    record {
      scope = k;
      bucket_start = floor_to_bucket_start now;
      active_seconds = delta;
      last_ping_at = some now;
    }
    ∷ []
add_credit k delta now (r ∷ rows) =
    let rest = add_credit k delta now rows in
    if same_scope r.scope k && r.bucket_start == floor_to_bucket_start now
    then record r { active_seconds = r.active_seconds + delta; last_ping_at = some now } ∷ rows
    else r ∷ rest

-- `record_ping`, for a resolved content type and with no other ping in between: the source locks the
-- newest row of the scope, if there is one, and reads the clock before.
unfoldable pub record_ping : ℕ → Scope → ℕ → List ActivityBucket → List ActivityBucket
record_ping most k now rows = add_credit k (credit most now (latest_ping k rows)) now rows
