-- ===== src/Assistant/Turns/Finish.antt =====
-- The end of a turn (assistant/turns.py). The billing hook is a call of the billing package, whose
-- failure is logged only.
use mathlib.Core.Option.{none}
use django_core_micha.Assistant.Model.{
  Turn, TurnState, Chat, Room, Usage, is_completed, Refused, does_not_exist, is_generating,
}
use django_core_micha.Assistant.Prices.{PriceTable, price_usage}
use django_core_micha.Base.{
  ℕ, Option, if◌then◌else◌, strip, Bool, some, ◌==◌, is_space, has_char, str_eq, take_chars, false,
  ◌&&◌, Fallible, ltb, List, not, raises, first_where, returns, true, update_where, update_first,
}
use Prim.Native.String.{◌++◌ as join_text, count, String}
use Prim.Native.Char.{code}

-- `re.sub(r"\s+", " ", s)`
abbrev pub put_blank : String → String
put_blank String.[] = " "
put_blank (String.◌∷◌ c s) = if code c == 32 then String.◌∷◌ c s else join_text " " (String.◌∷◌ c s)

unfoldable pub collapse_blanks : String → String
collapse_blanks String.[] = ""
collapse_blanks (String.◌∷◌ c s) =
    let rest = collapse_blanks s in if is_space (code c) then put_blank rest else String.◌∷◌ c rest

-- `s.rsplit(" ", 1)[0]`
unfoldable pub before_last_blank : String → String
before_last_blank String.[] = ""
before_last_blank (String.◌∷◌ c s) =
    let rest = before_last_blank s in
    if has_char 32 s then String.◌∷◌ c rest else if code c == 32 then "" else String.◌∷◌ c s

-- `AssistantChat.title`'s default
abbrev pub title_default : String
title_default = "New chat"

abbrev pub or_default : String → String
or_default s = if str_eq s "" then title_default else s

-- The title from the first message.
unfoldable pub make_title : String → String
make_title text =
    let title = strip (collapse_blanks text) in
    let cut = take_chars 60 title in
    or_default (
      take_chars 60 (
        if ltb 60 (count title)
        then if has_char 32 cut then before_last_blank cut else cut
        else title))

-- What a turn ends with.
pub record Ending : Type 0 where
  pub text : String
  pub end_state : TurnState
  pub code_of_error : String
  pub used : Usage
  pub trace : List String
  pub session_id : Option String
  pub tokens_of_session : Option ℕ
  pub version_of_session : Option String
  pub context : ℕ

abbrev pub is_filled : Option String → Bool
is_filled none = false
is_filled (some s) = not (str_eq s "")

abbrev pub or_old {ℓ} : {A : Type ℓ} → Option A → A → A
or_old none old = old
or_old (some new) old = new

-- The chat's session after the turn: only the command-line driver keeps one.
unfoldable pub keep_session : Turn → Ending → Chat → Chat
keep_session t e c =
    if is_filled e.session_id && str_eq t.turn_driver "claude_cli"
    then record c {
      session_driver = t.turn_driver;
      session_reference = or_old e.session_id "";
      session_tokens = or_old e.tokens_of_session c.session_tokens;
      session_version = or_old e.version_of_session c.session_version;
    }
    else if not (str_eq t.turn_driver "claude_cli")
    then record c { session_driver = ""; session_reference = "" }
    else c

unfoldable pub finish_chat : ℕ → Turn → Ending → Chat → Chat
finish_chat now t e c =
    let titled : Chat =
      if is_completed e.end_state
        && t.sequence == 1
        && c.is_automatic
        && str_eq c.title title_default
      then record c { title = make_title t.user_text }
      else c in
    record (keep_session t e titled) { updated_at = now }

unfoldable pub finish_row : PriceTable → ℕ → Ending → Turn → Turn
finish_row table now e t = record t {
  assistant_text = e.text;
  state = e.end_state;
  error_code = e.code_of_error;
  finished_at = some now;
  bill = some (record {
    usage = e.used;
    cost_usd_micros = price_usage table t.turn_model e.used;
    context_tokens = e.context;
  });
  tool_trace = e.trace;
}

-- `turn.save()` and `chat.save()` write the row of the primary key.
abbrev pub finish_found :
    PriceTable → ℕ → Ending → ℕ → Room → Option Turn → Fallible Refused Bool × Room
finish_found table k e now room none = (raises does_not_exist, room)
finish_found table k e now room (some t) =
    if not (is_generating t.state) then (returns false, room) else (
      returns true,
      record room {
        turns = update_first (λ u. u.turn_key == k) (finish_row table now e) room.turns;
        chats = update_where (λ c. c.key == t.chat) (finish_chat now t e) room.chats;
      },
    )

-- `_finish`: true where this call ended the turn.
unfoldable pub finish : PriceTable → ℕ → Ending → ℕ → Room → Fallible Refused Bool × Room
finish table k e now room =
    finish_found table k e now room (first_where (λ t. t.turn_key == k) room.turns)
