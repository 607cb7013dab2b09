-- ===== src/Messaging/Reactions.antt =====
-- Reactions to messages (messaging/services.py), on the tables of the polls' board.
use django_core_micha.Messaging.Polls.{Board, Reaction}
use Prim.Native.String.{count}
use django_core_micha.Messaging.Messages.{may_enter}
use mathlib.Core.List.{[]}
use django_core_micha.Messaging.Model.{
  Policy, Message, Conversation, Refusal, invalid, denied, publish,
}
use django_core_micha.Base.{
  ℕ, String, Bool, ◌∷◌, delete_where, Fallible, any_where, if◌then◌else◌, ◌==◌, none, ◌&&◌, ◌++◌,
  returns, raises, not, str_eq, ltb, ◌||◌,
}

abbrev is_reaction : ℕ → ℕ → String → Reaction → Bool
is_reaction m user emoji r = r.on_message == m && r.reactor == user && str_eq r.emoji emoji

unfoldable pub add_reaction :
    Policy → ℕ → Conversation → Message → String → Board → Fallible Refusal Reaction × Board
add_reaction policy actor c m emoji b =
    let reaction : Reaction = record { on_message = m.key; reactor = actor; emoji = emoji } in
    if not (may_enter policy actor c b.hub)
    then (raises denied, b)
    else if count emoji == 0 || ltb 16 (count emoji)
    then (raises invalid, b)
    else if any_where (is_reaction m.key actor emoji) b.reactions
    then (returns reaction, b)
    else (
      returns reaction,
      record b {
        reactions = b.reactions ++ reaction ∷ [];
        hub = publish policy c none "reaction" m.key b.hub;
      },
    )

unfoldable pub remove_reaction :
    Policy → ℕ → Conversation → Message → String → Board → Fallible Refusal (Unit {0}) × Board
remove_reaction policy actor c m emoji b =
    if not (may_enter policy actor c b.hub)
    then (raises denied, b)
    else if any_where (is_reaction m.key actor emoji) b.reactions
    then (
      returns tt,
      record b {
        reactions = delete_where (is_reaction m.key actor emoji) b.reactions;
        hub = publish policy c none "reaction" m.key b.hub;
      },
    )
    else (returns tt, b)
