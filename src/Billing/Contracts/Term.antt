-- ===== src/Billing/Contracts/Term.antt =====
-- The dates of a contract (billing/contracts.py): the end of the withdrawal period, whether it can be
-- withdrawn from, and the end of the period that a cancellation takes effect at.
pub mod Search
use Prim.Native.Nat.{zero}
use django_core_micha.Base.{
  ℕ, Bool, if◌then◌else◌, ◌*◌, ◌-◌, suc, Option, ◌+◌, ◌%◌, ◌==◌, ◌/◌, ltb, String, some, true, List,
  none, ◌&&◌, ◌||◌, min, false, not, leb, contains, str_eq,
}

-- A `datetime`; the month is 1 to 12 and the day starts at 1.
pub record Moment : Type 0 where
  pub year : ℕ
  pub month : ℕ
  pub day : ℕ
  pub second : ℕ

abbrev pub is_leap : ℕ → Bool
is_leap y = y % 4 == 0 && (not (y % 100 == 0) || y % 400 == 0)

-- `monthrange(year, month)[1]`
unfoldable pub days_in_month : ℕ → ℕ → ℕ
days_in_month y m =
    if m == 2
    then if is_leap y then 29 else 28
    else if m == 4 || m == 6 || m == 9 || m == 11
    then 30
    else 31

-- The moments in order, as numbers: a year has fewer than 13 months, a month than 32 days, and a day
-- than 100000 seconds.
abbrev pub date_number : Moment → ℕ
date_number t = (t.year * 13 + t.month) * 32 + t.day

abbrev pub moment_number : Moment → ℕ
moment_number t = date_number t * 100000 + t.second

-- `_add_months`
unfoldable pub add_months : ℕ → Moment → Moment
add_months n t =
    let index = t.month - 1 + n in
    let year = t.year + index / 12 in
    let month = index % 12 + 1 in
    record t { year = year; month = month; day = min t.day (days_in_month year month) }

unfoldable pub next_day : Moment → Moment
next_day t =
    if ltb t.day (days_in_month t.year t.month)
    then record t { day = suc t.day }
    else if t.month == 12
    then record t { year = suc t.year; month = 1; day = 1 }
    else record t { month = suc t.month; day = 1 }

-- `value + timedelta(days=n)`
unfoldable pub add_days : ℕ → Moment → Moment
add_days zero t = t
add_days (suc n) t = add_days n (next_day t)

abbrev pub later_of : Moment → Moment → Moment
later_of s t = if ltb (moment_number s) (moment_number t) then t else s

pub data ContractStatus : Type 0 where
  active cancellation_scheduled withdrawn ended : ContractStatus

pub record Contract : Type 0 where
  pub is_subscription : Bool
  pub contract_status : ContractStatus
  pub billing_country : String
  pub consumer_status : String
  pub started_at : Moment
  pub info_delivered_at : Option Moment
  pub initial_term_end : Option Moment

unfoldable pub withdrawal_deadline : Contract → Moment
withdrawal_deadline c = deadline c.info_delivered_at
  where
    deadline : Option Moment → Moment
    deadline (some delivered) = add_days 14 (later_of c.started_at delivered)
    deadline none = add_days 14 (add_months 12 c.started_at)

abbrev pub is_running : ContractStatus → Bool
is_running active = true
is_running cancellation_scheduled = true
is_running _ = false

-- Whether the contract can be withdrawn from, and why. `enabled` is the setting.
unfoldable pub withdrawal_eligibility : Bool → List String → Contract → Moment → Bool × String
withdrawal_eligibility enabled eu_eea c now =
    if not enabled
    then (false, "withdrawal_disabled")
    else if not (is_running c.contract_status)
    then (false, "not_active")
    else if not (contains c.billing_country eu_eea)
    then (false, "country_not_eligible")
    else if not (str_eq c.consumer_status "consumer")
    then (false, "review_required")
    else if ltb (moment_number (withdrawal_deadline c)) (moment_number now)
    then (false, "period_over")
    else (true, "eligible")

-- The next period's end: the last day of a month stays the last day, else the day of the anchor where
-- the month has it.
unfoldable pub next_end : ℕ → Bool → Moment → Moment
next_end anchor month_end t =
    let year = if t.month == 12 then suc t.year else t.year in
    let month = t.month % 12 + 1 in
    let last = days_in_month year month in
    record t { year = year; month = month; day = if month_end then last else min anchor last }

-- The loop `while _local_date(end) < requested_date`, on fuel. `local` is the moment in the time zone
-- of the server.
unfoldable pub search_end : (Moment → Moment) → Moment → ℕ → Bool → ℕ → Moment → Option Moment
search_end local requested anchor month_end zero t = none
search_end local requested anchor month_end (suc fuel) t =
    let rest = search_end local requested anchor month_end fuel (next_end anchor month_end t) in
    if ltb (date_number (local t)) (date_number requested) then rest else some t

abbrev pub or_moment : Option Moment → Moment → Moment
or_moment none t = t
or_moment (some s) t = s

-- The rounds that are enough: the months between the two dates, and two more.
abbrev pub month_number : Moment → ℕ
month_number t = t.year * 12 + t.month

abbrev pub rounds : Moment → Moment → ℕ
rounds t requested = month_number requested + 3 - month_number t

-- `_cancellation_effective`. `current` is the end of the current period, the contract's or, where it
-- has none, now.
abbrev pub effective_of : (Moment → Moment) → Contract → Moment → Option Moment → Option Moment
effective_of local c current none = some current
effective_of local c current (some requested) =
    let found =
      search_end local requested current.day
        (current.day == days_in_month current.year current.month) (rounds current requested)
        current in
    if leb (date_number requested) (date_number (local current))
    then some current
    else if not c.is_subscription
    then some (or_moment c.initial_term_end current)
    else found

unfoldable pub cancellation_effective :
    (Moment → Moment) → Contract → Moment → Option Moment → Option Moment
cancellation_effective local c current requested = effective_of local c current requested
