-- ===== src/Assistant/Model.antt =====
-- The chats and turns of the assistant (assistant/models.py). A chat, a turn and a user are their
-- keys; a time is a number of seconds.
use django_core_micha.Base.{ℕ, Bool, String, Option, List, true, false}

pub data TurnState : Type 0 where
  generating completed failed cancelled interrupted : TurnState

abbrev pub is_generating : TurnState → Bool
is_generating generating = true
is_generating _ = false

abbrev pub is_completed : TurnState → Bool
is_completed completed = true
is_completed _ = false

pub record Usage : Type 0 where
  pub input_tokens : ℕ
  pub output_tokens : ℕ
  pub cache_read_tokens : ℕ
  pub cache_write_tokens : ℕ

-- What is stored of the usage of a finished turn.
pub record Bill : Type 0 where
  pub usage : Usage
  pub cost_usd_micros : ℕ
  pub context_tokens : ℕ

pub record Chat : Type 0 where
  pub key : ℕ
  pub owner : ℕ
  pub title : String
  pub is_automatic : Bool
  pub archived_at : Option ℕ
  pub selected_driver : String
  pub selected_model : String
  pub selected_effort : String
  pub session_driver : String
  pub session_reference : String
  pub session_tokens : ℕ
  pub session_version : String
  pub updated_at : ℕ

pub record Turn : Type 0 where
  pub turn_key : ℕ
  pub chat : ℕ
  pub sender : Option ℕ
  pub sequence : ℕ
  pub user_text : String
  pub assistant_text : String
  pub state : TurnState
  pub turn_driver : String
  pub turn_model : String
  pub turn_effort : String
  pub bill : Option Bill
  pub tool_trace : List String
  pub error_code : String
  pub created_at : ℕ
  pub finished_at : Option ℕ
  pub heartbeat_at : Option ℕ

-- The tables.
pub record Room : Type 0 where
  pub chats : List Chat
  pub turns : List Turn
  pub next_turn : ℕ

-- `get_limit`, of the names that starting a turn reads.
pub record Limits : Type 0 where
  pub stale_turn_seconds : ℕ
  pub max_concurrent_turns : ℕ
  pub max_turns_per_user : ℕ

-- The codes that a start can be refused with; `does_not_exist` is the lookup of the chat.
pub data Refused : Type 0 where
  does_not_exist access_lost archived not_configured invalid_selection quota_exceeded : Refused
  turn_active rate_limited : Refused
