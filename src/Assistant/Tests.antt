-- ===== src/Assistant/Tests.antt =====
-- A chat with one turn, on concrete tables (assistant/turns.py).
use django_core_micha.Assistant.Limit.{
  over_quota, used_usd_micros, turn_cost, effective_limit, limit_setting, set_to,
}
use django_core_micha.Assistant.Turns.Steps.{step, Reach, created, finished, done}
use django_core_micha.Assistant.Prompt.Trim.{drop_rounds, fit_prompt-ends}
use django_core_micha.Assistant.Turns.Entries.{selected_id, select_entry-enabled}
use django_core_micha.Assistant.Catalogue.{
  Site, Entry, entry_by_id, entry_enabled, entry_id, default_entry, by_level, model_level,
  usable_entries, entry_usable, validate,
}
use django_core_micha.Assistant.Turns.{
  select_entry, create_turn, new_turn, reconcile_interrupted, admit_turn,
}
use django_core_micha.Assistant.Turns.Steps.Final.{Reach-final}
use django_core_micha.Assistant.Turns.Steps.Single.{IsSingle, Reach-IsSingle}
use django_core_micha.Assistant.Model.{Turn, Room, Limits, Chat, completed, is_generating}
use django_core_micha.Assistant.Prompt.{
  fit_prompt, answer_turn, Row, trim_loop, repair_loop, repair,
}
use django_core_micha.Assistant.Turns.Finish.{
  finish, make_title, finish_row, Ending, title_default, collapse_blanks,
}
use django_core_micha.Assistant.Prices.{PriceTable, price_usage, legacy_rates}
use mathlib.Core.List.{Memᴰ}
use django_core_micha.Base.{
  ℕ, contains, String, List, [], ◌≡◌, ◌==◌, ◌∷◌, none, true, false, arith, subst, ◌+◌, some, refl,
  sym, ◌*◌, length, ◌≤◌, ◌<◌, ◌⊎◌, take_chars, strip,
}

abbrev sonnet : Entry
sonnet = record {
  driver = "anthropic_api";
  model = "claude-sonnet-5-5";
  efforts = "low" ∷ "high" ∷ [];
  level = none;
  is_default = true;
}

abbrev luna : Entry
luna = record {
  driver = "openai_api";
  model = "gpt-6-luna";
  efforts = "medium" ∷ [];
  level = none;
  is_default = false;
}

abbrev site : Site
site = record {
  entries = luna ∷ sonnet ∷ [];
  disabled_entries = "openai_api:gpt-6-luna" ∷ [];
  is_available = λ driver. true;
  allowed = λ user row. true;
  stored_default = "";
  default_level = "balanced";
  model_levels = [];
}

abbrev chat : Chat
chat = record {
  key = 3;
  owner = 1;
  title = title_default;
  is_automatic = true;
  archived_at = none;
  selected_driver = "openai_api";
  selected_model = "gpt-6-luna";
  selected_effort = "medium";
  session_driver = "";
  session_reference = "";
  session_tokens = 0;
  session_version = "";
  updated_at = 0;
}

abbrev moved : Chat
moved = record chat {
  selected_driver = "anthropic_api";
  selected_model = "claude-sonnet-5-5";
  selected_effort = "low";
}

-- The selected entry is disabled: the turn moves to the default of the level.
falls_back : select_entry site 1 chat ≡ some moved
unfolding select_entry entry_by_id entry_enabled entry_id default_entry by_level model_level
    usable_entries entry_usable
falls_back = refl

select_entry-enabled_example : contains (selected_id moved) site.disabled_entries ≡ false
select_entry-enabled_example = select_entry-enabled site 1 chat moved falls_back

abbrev limits : Limits
limits = record { stale_turn_seconds = 30; max_concurrent_turns = 4; max_turns_per_user = 2 }

abbrev empty_room : Room
empty_room = record { chats = chat ∷ []; turns = []; next_turn = 1 }

abbrev table : PriceTable
table = record { prices = []; cents = []; fallback_input = 1500000; fallback_output = 6000000 }

abbrev ending : Ending
ending = record {
  text = "Done.";
  end_state = completed;
  code_of_error = "";
  used = record {
    input_tokens = 1000;
    output_tokens = 100;
    cache_read_tokens = 0;
    cache_write_tokens = 0;
  };
  trace = [];
  session_id = none;
  tokens_of_session = none;
  version_of_session = none;
  context = 0;
}

abbrev started : Room
started = (create_turn site limits (λ user c. true) false 3 1 "Hello there" 100 empty_room).1

abbrev ended : Room
ended = (finish table 1 ending 110 started).1

abbrev second_turn : Room
second_turn = (create_turn site limits (λ user c. true) false 3 1 "More" 120 ended).1

-- The price of the turn: 1000 * 15 + 100 * 60 micro-dollars.
priced : price_usage table "claude-sonnet-5-5" ending.used ≡ 21000
unfolding price_usage legacy_rates
priced = refl

titled : make_title "Hello \n there" ≡ "Hello there"
unfolding make_title take_chars strip collapse_blanks
titled = refl

run : Reach (λ k. k == 9) empty_room second_turn
unfolding finish create_turn reconcile_interrupted admit_turn select_entry entry_by_id entry_id
    entry_enabled default_entry by_level usable_entries entry_usable model_level validate finish_row
run = step (created site limits (λ user c. true) false 3 1 "Hello there" 100) (
    step (finished table 1 ending 110 refl)
      (step (created site limits (λ user c. true) false 3 1 "More" 120) done))

Reach-IsSingle_example : IsSingle second_turn
Reach-IsSingle_example = Reach-IsSingle (λ k. k == 9) empty_room second_turn run (λ k. omega arith)

abbrev first_turn : Turn
first_turn = finish_row table 110 ending (new_turn moved 1 "Hello there" 100 empty_room)

stored : ended.turns ≡ first_turn ∷ []
unfolding finish create_turn reconcile_interrupted admit_turn select_entry entry_by_id entry_enabled
    entry_id default_entry by_level model_level usable_entries entry_usable validate finish_row
stored = refl

over : is_generating first_turn.state ≡ false
unfolding finish_row
over = refl

not_droppable : (first_turn.turn_key == 9) ≡ false
unfolding finish_row
not_droppable = refl

Reach-final_example : Memᴰ first_turn second_turn.turns
unfolding finish create_turn reconcile_interrupted admit_turn select_entry entry_by_id entry_id
    entry_enabled default_entry by_level usable_entries entry_usable model_level validate finish_row
Reach-final_example =
    Reach-final (λ k. k == 9) ended second_turn first_turn over not_droppable
      (subst (λ l. Memᴰ first_turn l) (sym stored) (Memᴰ.head refl))
      (step (created site limits (λ user c. true) false 3 1 "More" 120) done)

abbrev row_of : String → Row
row_of s = record { is_user = true; content = s }

-- Each row takes ten bytes, and 25 bytes are allowed.
abbrev rows : List Row
rows = row_of "a" ∷ row_of "b" ∷ row_of "c" ∷ row_of "d" ∷ []

abbrev size : List Row → ℕ
size l = 5 + 10 * length l

trimmed : fit_prompt size 25 rows ≡ some (row_of "c" ∷ row_of "d" ∷ [], 1)
unfolding fit_prompt trim_loop
trimmed = refl

fit_prompt-ends_example :
    ((n : ℕ) × ((fit_prompt size 25 rows ≡ some (drop_rounds n rows, n))
        × ((size (drop_rounds n rows) ≤ 25) × ((k : ℕ) → k < n → 25 < size (drop_rounds k rows)))))
    ⊎ ((fit_prompt size 25 rows ≡ none) × (25 < size []))
fit_prompt-ends_example = fit_prompt-ends size 25 rows

two_repairs : (answer_turn (λ n feedback. "answer") (λ text. repair "again") 2 "go").1 ≡ 3
unfolding answer_turn repair_loop
two_repairs = refl

-- The finished turn cost 21000 micro-dollars, and a failed one without usage is estimated.
used : used_usd_micros (λ driver model. none) 50000 1 0 1000 [] ended ≡ 21000
unfolding used_usd_micros turn_cost finish create_turn reconcile_interrupted admit_turn select_entry
    entry_by_id entry_enabled entry_id default_entry by_level model_level usable_entries
    entry_usable validate finish_row price_usage legacy_rates
used = refl

over_the_limit :
    over_quota
      (effective_limit (set_to (record { is_month = true; usd_micros = 20000 })) none)
      21000
    ≡ true
unfolding over_quota effective_limit limit_setting
over_the_limit = refl
