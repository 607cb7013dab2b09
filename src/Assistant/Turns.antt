-- ===== src/Assistant/Turns.antt =====
-- The life of a turn (assistant/turns.py): starting it, its heartbeats, its one end, and the turns
-- that are given up. Each operation is one transaction.
pub mod Create
pub mod Entries
pub mod Finish
pub mod Steps
use mathlib.Core.List.{[], ◌∷◌}
use mathlib.Core.Option.{none}
use django_core_micha.Assistant.Catalogue.{
  Site, Entry, effort_of, entry_enabled, entry_by_id, default_entry, validate,
}
use django_core_micha.Assistant.Model.{
  rate_limited, Chat, Turn, Limits, Room, interrupted, is_generating, Refused, generating,
  not_configured, does_not_exist, access_lost, invalid_selection, archived, quota_exceeded,
  turn_active,
}
use Prim.Native.String.{◌++◌ as join_text, String}
use django_core_micha.Base.{
  is_none, ℕ, Option, List, Bool, update_where, first_where, delete_where, true, false, some,
  count_where, ◌==◌, ltb, select, if◌then◌else◌, Fallible, ◌+◌, leb, ◌&&◌, ◌||◌, any_where, str_eq,
  max, suc, raises, not, length, returns, ◌++◌,
}

-- `heartbeat_at is None or heartbeat_at < now - stale`, on times where nothing is before 0.
abbrev pub is_stale : Limits → ℕ → Option ℕ → Bool
is_stale limits now none = true
is_stale limits now (some beat) = ltb (beat + limits.stale_turn_seconds) now

abbrev pub is_fresh : Limits → ℕ → Option ℕ → Bool
is_fresh limits now none = false
is_fresh limits now (some beat) = leb now (beat + limits.stale_turn_seconds)

abbrev pub is_of : Option ℕ → ℕ → Bool
is_of none chat = true
is_of (some key) chat = chat == key

-- The turns that `reconcile_interrupted(chat, everything)` gives up.
abbrev pub is_given_up : Limits → Option ℕ → Bool → ℕ → Turn → Bool
is_given_up limits chat everything now t =
    is_generating t.state && is_of chat t.chat && (everything || is_stale limits now t.heartbeat_at)

abbrev pub interrupt : ℕ → Turn → Turn
interrupt now t = record t {
  state = interrupted;
  error_code = "interrupted";
  finished_at = some now;
}

-- With the number of the turns that it gave up.
unfoldable pub reconcile_interrupted : Limits → Option ℕ → Bool → ℕ → Room → ℕ × Room
reconcile_interrupted limits chat everything now room = (
  count_where (is_given_up limits chat everything now) room.turns,
  record room {
    turns = update_where (is_given_up limits chat everything now) (interrupt now) room.turns;
  },
)

abbrev pub is_running : ℕ → Turn → Bool
is_running k t = t.turn_key == k && is_generating t.state

-- `_beat`
unfoldable pub beat : ℕ → ℕ → Room → Room
beat k now room = record room {
  turns = update_where (is_running k) (λ t. record t { heartbeat_at = some now }) room.turns;
}

abbrev pub find_chat : ℕ → List Chat → Option Chat
find_chat k = first_where (λ c. c.key == k)

abbrev pub is_owner : ℕ → Option Chat → Bool
is_owner user none = false
is_owner user (some c) = c.owner == user

-- `_by_user`: a turn without a sender belongs to the chat's owner.
abbrev pub is_by : List Chat → ℕ → Turn → Bool
is_by chats user t = sent t.sender
  where
    sent : Option ℕ → Bool
    sent (some s) = s == user
    sent none = is_owner user (find_chat t.chat chats)

abbrev pub is_active : Limits → ℕ → Turn → Bool
is_active limits now t = is_generating t.state && is_fresh limits now t.heartbeat_at

-- The position of a turn in `order_by("created_at", "pk")`: how many come before it.
abbrev pub comes_before : Turn → Turn → Bool
comes_before t u =
    ltb u.created_at t.created_at || (u.created_at == t.created_at && ltb u.turn_key t.turn_key)

-- `_over_limit`: the turn is in a list and its position there is at the limit.
unfoldable pub over_limit : Limits → ℕ → Turn → ℕ → Room → Bool
over_limit limits now turn user room =
    let active = select (is_active limits now) room.turns in
    let mine = select (is_by room.chats user) active in
    any_where (λ t. t.turn_key == turn.turn_key) active
      && leb limits.max_concurrent_turns (count_where (comes_before turn) active)
    || any_where (λ t. t.turn_key == turn.turn_key) mine
      && leb limits.max_turns_per_user (count_where (comes_before turn) mine)

-- The chat with the entry that its turn runs on: the selected one while it is enabled, else the
-- current default.
abbrev pub fall_back : Chat → Option Entry → Option Chat
fall_back c none = none
fall_back c (some row) = some (record c {
  selected_driver = row.driver;
  selected_model = row.model;
  selected_effort = effort_of row.efforts c.selected_effort;
})

abbrev pub keep_selection : Site → Chat → Option Entry → Option Entry → Option Chat
keep_selection site c none fallback = fall_back c fallback
keep_selection site c (some row) fallback =
    if entry_enabled site row then some c else fall_back c fallback

unfoldable pub select_entry : Site → ℕ → Chat → Option Chat
select_entry site user c =
    let selected : Option Entry =
      if str_eq c.selected_driver "" || str_eq c.selected_model ""
      then none
      else entry_by_id site (join_text c.selected_driver (join_text ":" c.selected_model)) in
    keep_selection site c selected (default_entry site (some user))

-- The last sequence of a chat.
abbrev pub last_sequence : ℕ → List Turn → ℕ
last_sequence chat [] = 0
last_sequence chat (t ∷ turns) =
    let last = last_sequence chat turns in if t.chat == chat then max t.sequence last else last

abbrev pub new_turn : Chat → ℕ → String → ℕ → Room → Turn
new_turn c user message now room = record {
  turn_key = room.next_turn;
  chat = c.key;
  sender = some user;
  sequence = suc (last_sequence c.key room.turns);
  user_text = message;
  assistant_text = "";
  state = generating;
  turn_driver = c.selected_driver;
  turn_model = c.selected_model;
  turn_effort = c.selected_effort;
  bill = none;
  tool_trace = [];
  error_code = "";
  created_at = now;
  finished_at = none;
  heartbeat_at = some now;
}

abbrev pub runs_in : ℕ → Turn → Bool
runs_in chat t = t.chat == chat && is_generating t.state

-- The rest of `_create_turn`, once the entry is selected; a refusal rolls the selection back.
unfoldable pub admit_turn :
    Site → Limits → Bool → ℕ → String → ℕ → Room → Option Chat → Fallible Refused Turn × Room
admit_turn site limits over_quota user message now room none = (raises not_configured, room)
admit_turn site limits over_quota user message now room (some c) =
    let active = select (is_active limits now) room.turns in
    let t = new_turn c user message now room in
    if is_none (validate site c.selected_driver c.selected_model c.selected_effort)
    then (raises invalid_selection, room)
    else if over_quota
    then (raises quota_exceeded, room)
    else if any_where (runs_in c.key) room.turns
    then (raises turn_active, room)
    else if leb limits.max_concurrent_turns (length active)
        || leb limits.max_turns_per_user (count_where (is_by room.chats user) active)
    then (raises rate_limited, room)
    else (
      returns t,
      record room {
        turns = room.turns ++ t ∷ [];
        next_turn = suc room.next_turn;
        chats =
            update_where (λ d. d.key == c.key)
              (λ d. record d {
                selected_driver = c.selected_driver;
                selected_model = c.selected_model;
                selected_effort = c.selected_effort;
              })
              room.chats;
      },
    )

abbrev pub enter_chat :
    Site
    → Limits
    → (ℕ → Chat → Bool)
    → Bool
    → ℕ
    → String
    → ℕ
    → Room
    → Option Chat
    → Fallible Refused Turn × Room
enter_chat site limits can_view over_quota user message now room none =
    (raises does_not_exist, room)
enter_chat site limits can_view over_quota user message now room (some c) =
    if not (can_view user c)
    then (raises access_lost, room)
    else if not (is_none c.archived_at)
    then (raises archived, room)
    else admit_turn site limits over_quota user message now room (select_entry site user c)

-- `_create_turn`, where no other process runs between its two transactions: what was given up stays
-- given up where the start is refused. `over_quota` is the answer of the cost limit.
unfoldable pub create_turn :
    Site
    → Limits
    → (ℕ → Chat → Bool)
    → Bool
    → ℕ
    → ℕ
    → String
    → ℕ
    → Room
    → Fallible Refused Turn × Room
create_turn site limits can_view over_quota chat user message now room =
    let (_, room') = reconcile_interrupted limits none false now room in
    enter_chat site limits can_view over_quota user message now room' (find_chat chat room'.chats)

-- `turn.delete()`
unfoldable pub delete_turn : ℕ → Room → Room
delete_turn k room = record room { turns = delete_where (λ t. t.turn_key == k) room.turns }

-- `_start`: the new turn is deleted where the count after the commit finds it over a limit.
unfoldable pub recount :
    Limits → ℕ → ℕ → Fallible Refused Turn × Room → Fallible Refused Turn × Room
recount limits later user (raises e, room) = (raises e, room)
recount limits later user (returns t, room) =
    if over_limit limits later t user room
    then (raises rate_limited, delete_turn t.turn_key room)
    else (returns t, room)
