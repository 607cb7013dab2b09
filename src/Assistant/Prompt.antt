-- ===== src/Assistant/Prompt.antt =====
-- Fitting a prompt and repairing an answer (assistant/turns.py, `run_turn`, and assistant/history.py).
-- The size of a prompt in bytes is a parameter, as the text is `json.dumps` of it; so are the
-- provider's answer and the app's hook.
pub mod Trim
pub mod Repair
use Prim.Native.Nat.{zero}
use mathlib.Core.List.{[]}
use django_core_micha.Assistant.Model.{Turn, Room, is_completed}
use django_core_micha.Base.{
  ℕ, Bool, List, Option, String, ◌∷◌, true, false, none, some, suc, if◌then◌else◌, ltb, select,
  length, leb, ◌==◌, ◌&&◌,
}

-- `build_history`: the two rows of each completed turn after the last summary, oldest first.
pub record Row : Type 0 where
  pub is_user : Bool
  pub content : String

abbrev pub insert_turn : Turn → List Turn → List Turn
insert_turn t [] = t ∷ []
insert_turn t (u ∷ turns) =
    let rest = insert_turn t turns in if leb t.sequence u.sequence then t ∷ u ∷ turns else u ∷ rest

-- `order_by("sequence")`
abbrev pub sort_turns : List Turn → List Turn
sort_turns [] = []
sort_turns (t ∷ turns) = insert_turn t (sort_turns turns)

abbrev pub is_after : Option ℕ → ℕ → Bool
is_after none sequence = true
is_after (some up_to) sequence = ltb up_to sequence

abbrev pub rows_of : List Turn → List Row
rows_of [] = []
rows_of (t ∷ turns) =
    record { is_user = true; content = t.user_text }
    ∷ record { is_user = false; content = t.assistant_text }
    ∷ rows_of turns

-- `up_to` is the last sequence that the latest summary covers.
unfoldable pub build_history : ℕ → Option ℕ → Room → List Row
build_history chat up_to room = rows_of (
    sort_turns (
      select (λ t. t.chat == chat && is_completed t.state && is_after up_to t.sequence) room.turns))

-- `rows[2:]`
abbrev pub drop_two : List Row → List Row
drop_two [] = []
drop_two (a ∷ []) = []
drop_two (a ∷ b ∷ rows) = rows

-- `rows` is not empty
abbrev pub has_rows : List Row → Bool
has_rows [] = false
has_rows (a ∷ rows) = true

-- The loop `while size > limit and rows`, on fuel, with the number of its rounds.
unfoldable pub trim_loop : (List Row → ℕ) → ℕ → ℕ → List Row → ℕ → Option (List Row × ℕ)
trim_loop size limit zero rows trimmed = none
trim_loop size limit (suc fuel) rows trimmed =
    let rest = trim_loop size limit fuel (drop_two rows) (suc trimmed) in
    if ltb limit (size rows) && has_rows rows then rest else some (rows, trimmed)

abbrev pub fits : (List Row → ℕ) → ℕ → Option (List Row × ℕ) → Option (List Row × ℕ)
fits size limit none = none
fits size limit (some (rows, trimmed)) =
    if ltb limit (size rows) then none else some (rows, trimmed)

-- The rows that are sent and how many rounds left two out, or `none` where even the prompt without
-- history is too long. The history has two rows for a turn.
unfoldable pub fit_prompt : (List Row → ℕ) → ℕ → List Row → Option (List Row × ℕ)
fit_prompt size limit rows = fits size limit (trim_loop size limit (suc (length rows)) rows 0)

-- What the hook says of an answer: another kind of result, or a result that may ask for a repair.
pub data AfterTurn : Type 0 where
  plain : Option String → AfterTurn
  accepted : Option String → AfterTurn
  repair : String → AfterTurn

-- The rounds of the repair loop: the last answer, what the hook said of it, and the number of calls of
-- the provider. `ask n feedback` is the answer of the call number `n`, where the provider does not
-- fail; `review` is the hook, whose failure is `plain none`.
unfoldable pub repair_loop :
    (ℕ → String → String)
    → (String → AfterTurn)
    → ℕ
    → ℕ
    → String
    → AfterTurn
    → (String × AfterTurn) × ℕ
repair_loop ask review zero calls text result = ((text, result), calls)
repair_loop ask review (suc left) calls text (plain t) = ((text, plain t), calls)
repair_loop ask review (suc left) calls text (accepted t) = ((text, accepted t), calls)
repair_loop ask review (suc left) calls text (repair feedback) =
    let answer = ask calls feedback in
    repair_loop ask review left (suc calls) answer (review answer)

abbrev pub or_text : Option String → String → String
or_text none text = text
or_text (some given) text = given

-- The text that is stored: the hook's, where it gives one.
abbrev pub stored_text : String × AfterTurn → String
stored_text (text, plain given) = or_text given text
stored_text (text, accepted given) = or_text given text
stored_text (text, repair feedback) = text

-- `max_rounds` is `max_repair_rounds`; the first call of the provider is the call number 0.
unfoldable pub answer_turn :
    (ℕ → String → String) → (String → AfterTurn) → ℕ → String → (String × AfterTurn) × ℕ
answer_turn ask review max_rounds message =
    let first = ask 0 message in repair_loop ask review max_rounds 1 first (review first)
