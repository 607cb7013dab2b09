-- ===== src/Messaging/Polls.antt =====
-- Polls (messaging/services.py), and the tables that reactions are on too. The texts of a poll and of its options are encrypted
-- fields; here they are the texts themselves.
pub mod Votes
use Prim.Native.String.{count}
use mathlib.Core.Bool.{true}
use django_core_micha.Messaging.Messages.{Draft, may_enter, send_message}
use mathlib.Core.List.{[]}
use django_core_micha.Messaging.Model.{
  Hub, Policy, Message, Conversation, Refusal, invalid, denied, publish,
}
use django_core_micha.Base.{
  is_key, is_none, ℕ, String, List, Bool, ◌∷◌, select, delete_where, Option, suc, some, Fallible,
  any_where, if◌then◌else◌, ◌==◌, none, ◌&&◌, ◌++◌, ◌+◌, first_where, returns, raises, member, not,
  length, str_eq, false, ltb, ◌||◌, distinct_count, contains, update_where,
}

pub record Poll : Type 0 where
  pub poll_key : ℕ
  pub poll_message : ℕ
  pub question : String
  pub allow_multiple : Bool
  pub created_by : Option ℕ
  pub closed_at : Option ℕ

pub record PollOption : Type 0 where
  pub option_key : ℕ
  pub of_poll : ℕ
  pub text : String
  pub order : ℕ

pub record PollVote : Type 0 where
  pub for_option : ℕ
  pub voter : ℕ

pub record Reaction : Type 0 where
  pub on_message : ℕ
  pub reactor : ℕ
  pub emoji : String

-- The tables of this module, besides those of the hub.
pub record Board : Type 0 where
  pub hub : Hub
  pub polls : List Poll
  pub options : List PollOption
  pub votes : List PollVote
  pub reactions : List Reaction
  pub next_poll : ℕ
  pub next_option : ℕ

-- `PollOption(poll=poll, text=text, order=index)` for each text
abbrev number_options : ℕ → ℕ → ℕ → List String → List PollOption
number_options poll key index [] = []
number_options poll key index (text ∷ texts) =
    record { option_key = key; of_poll = poll; text = text; order = index }
    ∷ number_options poll (suc key) (suc index) texts

unfoldable pub store_poll : ℕ → Message → String → List String → Bool → Board → Poll × Board
store_poll actor m question texts multiple b =
    let poll : Poll = record {
      poll_key = b.next_poll;
      poll_message = m.key;
      question = question;
      allow_multiple = multiple;
      created_by = some actor;
      closed_at = none;
    } in
    (
      poll,
      record b {
        polls = b.polls ++ poll ∷ [];
        options = b.options ++ number_options b.next_poll b.next_option 0 texts;
        next_poll = suc b.next_poll;
        next_option = b.next_option + length texts;
      },
    )

-- `not created and hasattr(message, "poll")`
abbrev existing_poll : Message × Bool → Board → Option Poll
existing_poll (m, true) b = none
existing_poll (m, false) b = first_where (λ poll. poll.poll_message == m.key) b.polls

abbrev answer_poll :
    ℕ
    → Message
    → String
    → List String
    → Bool
    → Board
    → Option Poll
    → Fallible Refusal (Poll × Bool) × Board
answer_poll actor m question texts multiple b (some poll) = (returns (poll, false), b)
answer_poll actor m question texts multiple b none =
    let (poll, b') = store_poll actor m question texts multiple b in (returns (poll, true), b')

abbrev with_message :
    ℕ
    → String
    → List String
    → Bool
    → Board
    → Fallible Refusal (Message × Bool) × Hub
    → Fallible Refusal (Poll × Bool) × Board
with_message actor question texts multiple b (raises e, hub) = (raises e, b)
with_message actor question texts multiple b (returns sent, hub) =
    let b' = record b { hub = hub } in
    answer_poll actor sent.0 question texts multiple b' (existing_poll sent b')

-- `draft` is the empty draft of kind "poll" with the request's id.
unfoldable pub create_poll :
    Policy
    → ℕ
    → Conversation
    → String
    → List String
    → Bool
    → Option ℕ
    → ℕ
    → Board
    → Fallible Refusal (Poll × Bool) × Board
create_poll policy actor c question texts multiple request now b =
    let draft : Draft = record {
      draft_kind = "poll";
      draft_title = none;
      draft_body = none;
      draft_link = none;
      draft_reply_to = none;
      request = request;
    } in
    if ltb (length texts) 2
    then (raises invalid, b)
    else with_message actor question texts multiple b (send_message policy actor c draft now b.hub)

-- `PollVote.objects.filter(option=…, user=…).exists()`
unfoldable pub has_vote : ℕ → ℕ → List PollVote → Bool
has_vote option user = any_where (λ v. v.for_option == option && v.voter == user)

-- `bulk_create(…, ignore_conflicts=True)`: an option and a user have one vote.
unfoldable pub add_votes : ℕ → List PollOption → List PollVote → List PollVote
add_votes actor [] votes = votes
add_votes actor (o ∷ options) votes =
    let vote : PollVote = record { for_option = o.option_key; voter = actor } in
    if has_vote o.option_key actor votes
    then add_votes actor options votes
    else add_votes actor options (votes ++ vote ∷ [])

-- Whether an option belongs to a poll.
abbrev pub is_option : ℕ → List PollOption → ℕ → Bool
is_option poll options k = any_where (λ o. o.option_key == k && o.of_poll == poll) options

-- The requested options of the poll.
abbrev pub chosen : ℕ → List ℕ → List PollOption → List PollOption
chosen poll ids = select (λ o. o.of_poll == poll && member o.option_key ids)

-- The actor's votes in the poll that are not requested any more.
abbrev pub is_retracted : ℕ → ℕ → List ℕ → List PollOption → PollVote → Bool
is_retracted actor poll ids options v =
    v.voter == actor && is_option poll options v.for_option && not (member v.for_option ids)

-- The votes after the deletion and the insertion.
unfoldable pub cast_votes : ℕ → ℕ → List ℕ → List PollOption → List PollVote → List PollVote
cast_votes actor poll ids options votes =
    add_votes actor (chosen poll ids options)
      (delete_where (is_retracted actor poll ids options) votes)

unfoldable pub vote_poll :
    Policy → ℕ → Conversation → Poll → List ℕ → Board → Fallible Refusal Poll × Board
vote_poll policy actor c poll ids b =
    let found = length (chosen poll.poll_key ids b.options) in
    if not (may_enter policy actor c b.hub)
    then (raises denied, b)
    else if not (is_none poll.closed_at)
    then (raises invalid, b)
    else if not (found == distinct_count ids) || (not poll.allow_multiple && not (found == 1))
    then (raises invalid, b)
    else (
      returns poll,
      record b {
        votes = cast_votes actor poll.poll_key ids b.options b.votes;
        hub = publish policy c none "poll_updated" poll.poll_key b.hub;
      },
    )

-- `m` is the poll's message.
unfoldable pub close_poll :
    Policy → ℕ → Conversation → Message → Poll → ℕ → Board → Fallible Refusal Poll × Board
close_poll policy actor c m poll now b =
    let rights = policy.moderation_rights actor c (some m) in
    let closed = record poll { closed_at = some now } in
    if not (may_enter policy actor c b.hub)
    then (raises denied, b)
    else if not (is_key poll.created_by actor)
        && not (contains "edit_any" rights || contains "delete_any" rights)
    then (raises denied, b)
    else if is_none poll.closed_at
    then (
      returns closed,
      record b {
        polls =
            update_where (λ old. old.poll_key == poll.poll_key)
              (λ old. record old { closed_at = some now }) b.polls;
        hub = publish policy c none "poll_updated" poll.poll_key b.hub;
      },
    )
    else (returns poll, b)
