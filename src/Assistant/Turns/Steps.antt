-- ===== src/Assistant/Turns/Steps.antt =====
-- The life of the turns of all chats as a step relation: each step is one transaction of
-- assistant/turns.py (a start is `reconciled`, then `created`, then perhaps `dropped`), whichever process runs it. `may_drop` says of which turns the start may still
-- find itself over a limit and delete its own turn.
pub mod Single
pub mod Final
use django_core_micha.Assistant.Prices.{PriceTable}
use django_core_micha.Assistant.Turns.{
  enter_chat, find_chat, true, delete_turn, beat, false, Option, reconcile_interrupted,
}
use django_core_micha.Assistant.Catalogue.{Site}
use django_core_micha.Assistant.Model.{Room, Limits, Chat, is_generating}
use django_core_micha.Assistant.Turns.Finish.{Ending, finish}
use django_core_micha.Base.{ℕ, Bool, String, ◌≡◌}

pub data Step (may_drop : ℕ → Bool) : Room → Room → Type 0 where
  created :
      {room : Room} (site : Site) (limits : Limits) (can_view : ℕ → Chat → Bool) (over_quota : Bool)
      (chat user : ℕ) (message : String) (now : ℕ)
      → Step may_drop room
          (enter_chat site limits can_view over_quota user message now room
            (find_chat chat room.chats)).1
  dropped : {room : Room} (k : ℕ) → may_drop k ≡ true → Step may_drop room (delete_turn k room)
  beaten : {room : Room} (k now : ℕ) → Step may_drop room (beat k now room)
  finished :
      {room : Room} (table : PriceTable) (k : ℕ) (e : Ending) (now : ℕ)
      → is_generating e.end_state ≡ false
      → Step may_drop room (finish table k e now room).1
  reconciled :
      {room : Room} (limits : Limits) (chat : Option ℕ) (everything : Bool) (now : ℕ)
      → Step may_drop room (reconcile_interrupted limits chat everything now room).1

pub data Reach (may_drop : ℕ → Bool) : Room → Room → Type 0 where
  done : {room : Room} → Reach may_drop room room
  step :
      {room room' room'' : Room}
      → Step may_drop room room'
      → Reach may_drop room' room''
      → Reach may_drop room room''
