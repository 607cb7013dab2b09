-- ===== src/Assistant/Prices.antt =====
-- The price of a call of a model (ai_prices.py). A rate is a number of millionths of a dollar per
-- million tokens, so that an amount is in millionths of a micro-dollar.
use mathlib.Core.List.{[]}
use mathlib.Core.Option.{none}
use django_core_micha.Base.{
  ℕ, Option, List, String, ◌*◌, some, ◌∷◌, lookup, ◌+◌, if◌then◌else◌, ◌/◌, leb, ltb,
}
use django_core_micha.Assistant.Model.{Usage}

-- A row of rates; a key that it does not have is `none`.
pub record Rates : Type 0 where
  pub input : Option ℕ
  pub output : Option ℕ
  pub cache_read : Option ℕ
  pub cache_write : Option ℕ

pub record Tier : Type 0 where
  pub above_prompt_tokens : ℕ
  pub tier_rates : Rates

pub record Price : Type 0 where
  pub rates : Rates
  pub tiers : List Tier

-- The two settings: prices in dollars per million tokens, and cents per thousand tokens.
pub record PriceTable : Type 0 where
  pub prices : List (String × Price)
  pub cents : List (String × Rates)
  pub fallback_input : ℕ
  pub fallback_output : ℕ

abbrev pub or_rate : Option ℕ → ℕ → ℕ
or_rate none rate = rate
or_rate (some given) rate = given

-- `rates.update(tier)`
abbrev pub override : Option ℕ → Option ℕ → Option ℕ
override none old = old
override (some new) old = some new

abbrev pub update_rates : Rates → Rates → Rates
update_rates new old = record {
  input = override new.input old.input;
  output = override new.output old.output;
  cache_read = override new.cache_read old.cache_read;
  cache_write = override new.cache_write old.cache_write;
}

-- `sorted(tiers, key=above_prompt_tokens)`
abbrev pub insert_tier : Tier → List Tier → List Tier
insert_tier t [] = t ∷ []
insert_tier t (u ∷ tiers) =
    let rest = insert_tier t tiers in
    if leb t.above_prompt_tokens u.above_prompt_tokens then t ∷ u ∷ tiers else u ∷ rest

abbrev pub sort_tiers : List Tier → List Tier
sort_tiers [] = []
sort_tiers (t ∷ tiers) = insert_tier t (sort_tiers tiers)

-- Every tier that the prompt exceeds, the lowest first.
unfoldable pub apply_tiers : ℕ → List Tier → Rates → Rates
apply_tiers prompt [] rates = rates
apply_tiers prompt (t ∷ tiers) rates =
    apply_tiers prompt tiers
      (if ltb t.above_prompt_tokens prompt then update_rates t.tier_rates rates else rates)

-- `_legacy_rates`: cents per thousand tokens are tens of dollars per million.
abbrev pub legacy_of : PriceTable → Option Rates → ℕ × ℕ
legacy_of table none = (table.fallback_input * 10, table.fallback_output * 10)
legacy_of table (some row) =
    (or_rate row.input table.fallback_input * 10, or_rate row.output table.fallback_output * 10)

unfoldable pub legacy_rates : PriceTable → String → ℕ × ℕ
legacy_rates table model = legacy_of table (lookup model table.cents)

-- The rates of a call, where the row may lack a rate.
abbrev pub rates_of : PriceTable → String → ℕ → Option Price → Rates
rates_of table model prompt none =
    let (input, output) = legacy_rates table model in
    record { input = some input; output = some output; cache_read = none; cache_write = none }
rates_of table model prompt (some price) = apply_tiers prompt (sort_tiers price.tiers) price.rates

-- `quantize(Decimal("1"), rounding=ROUND_HALF_UP)` of millionths.
abbrev pub round_half_up : ℕ → ℕ
round_half_up amount = (2 * amount + 1000000) / 2000000

unfoldable pub price_usage : PriceTable → String → Usage → ℕ
price_usage table model u =
    let prompt = u.input_tokens + u.cache_read_tokens + u.cache_write_tokens in
    let rates = rates_of table model prompt (lookup model table.prices) in
    let (legacy_input, legacy_output) = legacy_rates table model in
    let input_rate = or_rate rates.input legacy_input in
    let output_rate = or_rate rates.output legacy_output in
    round_half_up (
      u.input_tokens * input_rate
      + u.output_tokens * output_rate
      + u.cache_read_tokens * or_rate rates.cache_read input_rate
      + u.cache_write_tokens * or_rate rates.cache_write input_rate)
