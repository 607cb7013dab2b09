-- ===== src/Messaging/Tests.antt =====
-- A group chat of three users, on concrete tables (messaging/services.py).
use django_core_micha.Messaging.Polls.Votes.{vote_poll-votes}
use django_core_micha.Messaging.Messages.Once.{send_message-again}
use django_core_micha.Messaging.Receipts.Batch.{one_by_one, batch_read_status-one_by_one}
use django_core_micha.Messaging.Reading.Marks.{mark_read-unread}
use django_core_micha.Messaging.Membership.Live.{is_in_step, reconcile_membership-live}
use django_core_micha.Messaging.Receipts.{batch_read_status}
use django_core_micha.Messaging.Reading.{unread_of, mark_read, record_read, read_time}
use django_core_micha.Messaging.Messages.{
  send_message, Draft, send_request, answer_request, store_message, find_request,
}
use django_core_micha.Messaging.Polls.{has_vote, Poll, vote_poll, Board, PollOption, is_option}
use django_core_micha.Messaging.Membership.{reconcile_membership, new_row, Snapshot}
use mathlib.Core.List.{Perm}
use django_core_micha.Messaging.Model.{
  group, manual, provider, Conversation, Policy, Message, Hub, participant, Participant,
  as_participant, publish, publish_to, resolve_live_recipients, save_participant, is_row,
}
use django_core_micha.Base.{
  ℕ, RaisesOr, String, some, true, none, returns, ◌≡◌, all_where, ◌∷◌, [], false, if◌then◌else◌,
  not, ◌==◌, refl, select, member, ◌&&◌, ◌||◌, any_where, leb,
}

abbrev team : Conversation
team = record {
  id = 7;
  app = 1;
  scope = 1;
  kind = group;
  conversation_title = some "Team";
  external_key = none;
  pair = none;
  last_message_at = none;
}

abbrev hub : Hub
unfolding new_row
hub = record {
  conversations = team ∷ [];
  participants = new_row 7 manual 1 ∷ new_row 7 provider 2 ∷ [];
  messages = [];
  frames = [];
  next_message = 100;
  next_conversation = 8;
}

abbrev open_policy : Policy
open_policy = record {
  can_view = λ user c. true;
  can_post = λ user c kind. true;
  moderation_rights = λ user c m. "read_receipt_detail" ∷ [];
  resolve_recipients = λ c. 1 ∷ 2 ∷ [];
}

abbrev hello : Draft
hello = record {
  draft_kind = "chat";
  draft_title = none;
  draft_body = some "Hello";
  draft_link = none;
  draft_reply_to = none;
  request = some 55;
}

abbrev retry : Draft
retry = record hello { draft_body = some "Hello again" }

abbrev first_message : Message
first_message = record {
  key = 100;
  in_conversation = 7;
  sender = some 1;
  message_kind = "chat";
  title = none;
  body = some "Hello";
  link_target = none;
  reply_to = none;
  client_request_id = some 55;
  created_at = 10;
  edited_at = none;
  deleted_at = none;
  deleted_by = none;
}

abbrev after_send : Hub
after_send = (send_message open_policy 1 team hello 10 hub).1

sent : send_message open_policy 1 team hello 10 hub ≡ (returns (first_message, true), after_send)
unfolding send_message send_request answer_request store_message find_request participant publish
    publish_to new_row resolve_live_recipients
sent = refl

send_message-again_example :
    RaisesOr after_send
      (returns (first_message, false), after_send)
      (send_message open_policy 1 team retry 20 after_send)
send_message-again_example =
    send_message-again open_policy 1 team hello retry 10 20 55 hub after_send first_message true
      refl refl sent

abbrev read_row : Participant
unfolding new_row
read_row = record (new_row 7 provider 2) { last_read_at = some 12 }

abbrev after_read : Hub
after_read = (mark_read open_policy 2 team none 12 after_send).1

marked : mark_read open_policy 2 team none 12 after_send ≡ (returns read_row, after_read)
unfolding mark_read as_participant record_read send_message send_request answer_request
    store_message find_request participant publish publish_to new_row save_participant
marked = refl

unread_before : unread_of 2 after_send.messages (new_row 7 provider 2) ≡ 1
unfolding unread_of send_message send_request answer_request store_message find_request participant
    publish publish_to new_row
unread_before = refl

all_created : all_where (λ m. leb m.created_at (read_time none 12)) after_send.messages ≡ true
unfolding send_message send_request answer_request store_message find_request participant publish
    publish_to new_row
all_created = refl

mark_read-unread_example :
    (participant 7 2 after_read.participants ≡ some read_row)
    × (unread_of 2 after_read.messages read_row ≡ 0)
mark_read-unread_example =
    mark_read-unread open_policy 2 team none 12 after_send read_row after_read all_created marked

batch_read_status-one_by_one_example :
    Perm (batch_read_status open_policy 1 (100 ∷ 300 ∷ []) after_read) (
      one_by_one open_policy 1 after_read
        (select (λ m. member m.key (100 ∷ 300 ∷ [])) after_read.messages))
batch_read_status-one_by_one_example =
    batch_read_status-one_by_one open_policy 1 after_read (λ c m. refl) (100 ∷ 300 ∷ [])

-- The member is user 3: the provider's row of user 2 is removed.
abbrev snapshot : Snapshot
snapshot = record { members = 3 ∷ []; snapshot_key = none; remove_absent = true }

reconcile_membership-live_example :
    let rows = (reconcile_membership open_policy snapshot team 30 hub).participants in
    (all_where (is_in_step 7 (3 ∷ []) 2) rows ≡ true)
    × ((not (member 2 (3 ∷ [])) || any_where (is_row 7 2) rows) ≡ true)
reconcile_membership-live_example =
    reconcile_membership-live open_policy snapshot team 30 hub 2 refl

-- A poll with two options, and a vote of another poll.
abbrev lunch : Poll
lunch = record {
  poll_key = 4;
  poll_message = 100;
  question = "Lunch?";
  allow_multiple = true;
  created_by = some 1;
  closed_at = none;
}

abbrev option_of : ℕ → ℕ → String → PollOption
option_of k poll text = record { option_key = k; of_poll = poll; text = text; order = 0 }

abbrev board : Board
board = record {
  hub = hub;
  polls = lunch ∷ [];
  options = option_of 1 4 "Soup" ∷ option_of 2 4 "Salad" ∷ option_of 3 5 "Other" ∷ [];
  votes =
      record { for_option = 1; voter = 2 }
      ∷ record { for_option = 3; voter = 2 }
      ∷ record { for_option = 1; voter = 1 }
      ∷ [];
  reactions = [];
  next_poll = 6;
  next_option = 4;
}

abbrev after_vote : Board
after_vote = (vote_poll open_policy 2 team lunch (2 ∷ []) board).1

voted : vote_poll open_policy 2 team lunch (2 ∷ []) board ≡ (returns lunch, after_vote)
unfolding vote_poll participant new_row
voted = refl

vote_poll-votes_example : has_vote 1 2 after_vote.votes ≡ (
    if 2 == 2 && is_option 4 board.options 1 then member 1 (2 ∷ []) else has_vote 1 2 board.votes)
vote_poll-votes_example =
    vote_poll-votes open_policy 2 team lunch (2 ∷ []) board lunch after_vote 1 2 voted
