-- ===== src/Assistant/Limit.antt =====
-- The cost limit of a user (assistant/limit.py). The settings and the admin's stored limit are
-- arguments; so is the period, whose ends are dates in the time zone of the server.
use django_core_micha.Assistant.Turns.{is_by, is_owner, find_chat}
use django_core_micha.Base.{
  ℕ, Bool, Option, List, String, none, some, ◌∷◌, select, true, if◌then◌else◌, leb, false, ltb, ◌+◌,
  str_eq, [], ◌||◌, ◌&&◌, not, length, contains, ◌*◌, ◌/◌,
}
use django_core_micha.Assistant.Model.{
  Turn, TurnState, Bill, Room, failed, is_completed, cancelled, interrupted,
}

pub record CostLimit : Type 0 where
  pub is_month : Bool
  pub usd_micros : ℕ

-- The setting DCM_ASSISTANT_COST_LIMIT: it is not set, it is malformed, or it is a limit.
pub data LimitSetting : Type 0 where
  not_set malformed : LimitSetting
  set_to : CostLimit → LimitSetting

-- `limit_setting`: a malformed limit is a limit of nothing for each day.
unfoldable pub limit_setting : LimitSetting → Option CostLimit
limit_setting not_set = none
limit_setting malformed = some (record { is_month = false; usd_micros = 0 })
limit_setting (set_to limit) = some limit

abbrev pub stored_or : Option ℕ → ℕ → ℕ
stored_or none limit = limit
stored_or (some stored) limit = stored

-- `effective_limit`: the admin's limit comes before that of the settings.
unfoldable pub effective_limit : LimitSetting → Option ℕ → Option ℕ
effective_limit setting stored = with_stored (limit_setting setting)
  where
    with_stored : Option CostLimit → Option ℕ
    with_stored none = none
    with_stored (some limit) = some (stored_or stored limit.usd_micros)

-- `_reported`
abbrev pub is_reported : Option Bill → Bool
is_reported none = false
is_reported (some b) =
    ltb 0 b.usage.input_tokens
    || ltb 0 b.usage.output_tokens
    || ltb 0 b.usage.cache_read_tokens
    || ltb 0 b.usage.cache_write_tokens

abbrev pub cost_of : Option Bill → ℕ
cost_of none = 0
cost_of (some b) = b.cost_usd_micros

abbrev pub sum_costs : List Turn → ℕ
sum_costs [] = 0
sum_costs (t ∷ turns) = cost_of t.bill + sum_costs turns

-- `average_cost_usd_micros`, without its cache: the mean of the completed answers since a time, rounded
-- half up, where there are ten.
unfoldable pub average_cost_usd_micros : String → String → ℕ → List Turn → Option ℕ
average_cost_usd_micros driver model since turns =
    let answers =
      select
        (λ t.
          str_eq t.turn_driver driver
          && str_eq t.turn_model model
          && is_completed t.state
          && leb since t.created_at
          && is_reported t.bill)
        turns in
    if ltb (length answers) 10
    then none
    else some ((2 * sum_costs answers + length answers) / (2 * length answers))

-- `PRE_PROVIDER_CODES`
abbrev pub pre_provider_codes : List String
pre_provider_codes =
    "not_configured" ∷ "invalid_selection" ∷ "access_lost" ∷ "archived" ∷ "rate_limited"
    ∷ "turn_active" ∷ "quota_exceeded" ∷ []

abbrev pub ended_badly : TurnState → Bool
ended_badly failed = true
ended_badly cancelled = true
ended_badly interrupted = true
ended_badly _ = false

-- `_turn_cost`: what the turn cost, or an estimate where it ended badly after it reached the provider.
unfoldable pub turn_cost : (String → String → Option ℕ) → ℕ → Turn → ℕ
turn_cost average unknown t =
    if is_reported t.bill || ltb 0 (cost_of t.bill)
    then cost_of t.bill
    else if ended_badly t.state && not (contains t.error_code pre_provider_codes)
    then stored_or (average t.turn_driver t.turn_model) unknown
    else 0

pub record Summary : Type 0 where
  pub summary_chat : ℕ
  pub summary_cost : ℕ
  pub summarised_at : ℕ

abbrev pub total_cost : (Turn → ℕ) → List Turn → ℕ
total_cost cost [] = 0
total_cost cost (t ∷ turns) = cost t + total_cost cost turns

abbrev pub total_summaries : List Summary → ℕ
total_summaries [] = 0
total_summaries (s ∷ summaries) = s.summary_cost + total_summaries summaries

abbrev pub is_within : ℕ → ℕ → ℕ → Bool
is_within start end at = leb start at && ltb at end

unfoldable pub used_usd_micros :
    (String → String → Option ℕ) → ℕ → ℕ → ℕ → ℕ → List Summary → Room → ℕ
used_usd_micros average unknown user start end summaries room =
    total_cost (turn_cost average unknown)
      (select (λ t. is_by room.chats user t && is_within start end t.created_at) room.turns)
    + total_summaries (
        select
          (λ s.
            is_owner user (find_chat s.summary_chat room.chats)
            && is_within start end s.summarised_at)
          summaries)

-- `over_limit`
unfoldable pub over_quota : Option ℕ → ℕ → Bool
over_quota none used = false
over_quota (some limit) used = leb limit used
