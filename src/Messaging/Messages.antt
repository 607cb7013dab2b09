-- ===== src/Messaging/Messages.antt =====
-- Sending, editing and deleting messages (messaging/services.py). `m` is the message object that the
-- caller holds. The notification of a message is a call of the notifications package.
pub mod Once
use django_core_micha.Base.{
  is_key, is_none, ℕ, suc, String, Bool, true, false, not, ◌&&◌, ◌||◌, Option, none, some, List, [],
  ◌∷◌, ◌++◌, if◌then◌else◌, ◌==◌, first_where, contains,
}
use django_core_micha.Base.Tables.{update_where, Fallible, returns, raises}
use django_core_micha.Messaging.Model.{
  Conversation, Participant, Message, Hub, Policy, Refusal, denied, invalid, participant, publish,
}

-- What `send_message` is given besides the actor and the conversation.
pub record Draft : Type 0 where
  pub draft_kind : String
  pub draft_title : Option String
  pub draft_body : Option String
  pub draft_link : Option String
  pub draft_reply_to : Option Message
  pub request : Option ℕ

-- A reply goes to a root message of the same conversation.
abbrev pub is_bad_reply : Conversation → Option Message → Bool
is_bad_reply c none = false
is_bad_reply c (some m) = not (m.in_conversation == c.id) || not (is_none m.reply_to)

abbrev pub key_of_message : Option Message → Option ℕ
key_of_message none = none
key_of_message (some m) = some m.key

-- The row of a request of this sender in this conversation.
abbrev pub is_request : ℕ → ℕ → ℕ → Message → Bool
is_request conversation sender request m =
    m.in_conversation == conversation
    && is_key m.sender sender
    && is_key m.client_request_id request

unfoldable pub find_request : ℕ → ℕ → ℕ → List Message → Option Message
find_request conversation sender request = first_where (is_request conversation sender request)

-- The new row and its effects: the conversation's time, and the unarchived participants.
unfoldable pub store_message : Policy → ℕ → Conversation → Draft → ℕ → Hub → Message × Hub
store_message policy actor c draft now hub =
    let m : Message = record {
      key = hub.next_message;
      in_conversation = c.id;
      sender = some actor;
      message_kind = draft.draft_kind;
      title = draft.draft_title;
      body = draft.draft_body;
      link_target = draft.draft_link;
      reply_to = key_of_message draft.draft_reply_to;
      client_request_id = draft.request;
      created_at = now;
      edited_at = none;
      deleted_at = none;
      deleted_by = none;
    } in
    let stored : Hub = record hub {
      messages = hub.messages ++ m ∷ [];
      next_message = suc hub.next_message;
      conversations =
          update_where (λ d. d.id == c.id) (λ d. record d { last_message_at = some now })
            hub.conversations;
      participants =
          update_where
            (λ p. p.conversation == c.id && is_none p.removed_at && not (p.user == actor))
            (λ p. record p { archived_at = none }) hub.participants;
    } in
    (
      m,
      publish policy c (some actor) "conversation_upsert" c.id
          (publish policy c (some actor) "message" m.key stored),
    )

-- The row that was found, or the new row with its effects.
unfoldable pub answer_request : Message × Hub → Hub → Option Message → (Message × Bool) × Hub
answer_request stored hub none = ((stored.0, true), stored.1)
answer_request stored hub (some old) = ((old, false), hub)

-- The lookup of the request, and the new row where there is none. A lost race for the row ends in
-- the lookup of the row that won, which is the same answer.
unfoldable pub send_request :
    Policy → ℕ → Conversation → Draft → ℕ → Option ℕ → Hub → (Message × Bool) × Hub
send_request policy actor c draft now none hub =
    answer_request (store_message policy actor c draft now hub) hub none
send_request policy actor c draft now (some request) hub =
    answer_request (store_message policy actor c draft now hub) hub
      (find_request c.id actor request hub.messages)

-- `_require_view` and `_require_participant`
abbrev pub may_enter : Policy → ℕ → Conversation → Hub → Bool
may_enter policy actor c hub =
    policy.can_view actor c && not (is_none (participant c.id actor hub.participants))

unfoldable pub send_message :
    Policy → ℕ → Conversation → Draft → ℕ → Hub → Fallible Refusal (Message × Bool) × Hub
send_message policy actor c draft now hub =
    let (sent, hub') = send_request policy actor c draft now draft.request hub in
    if not (may_enter policy actor c hub)
    then (raises denied, hub)
    else if not (policy.can_post actor c draft.draft_kind)
    then (raises denied, hub)
    else if is_bad_reply c draft.draft_reply_to
    then (raises invalid, hub)
    else (returns sent, hub')

-- The author, or a moderator with this right.
abbrev pub may_change : Policy → ℕ → Conversation → String → Message → Bool
may_change policy actor c right m =
    is_key m.sender actor || contains right (policy.moderation_rights actor c (some m))

-- `message.save(update_fields=…)`: only the named fields of the row are written.
abbrev pub save_edit : Message → List Message → List Message
save_edit m =
    update_where (λ old. old.key == m.key)
      (λ old. record old {
        body = m.body;
        title = m.title;
        link_target = m.link_target;
        edited_at = m.edited_at;
      })

abbrev pub save_deletion : Message → List Message → List Message
save_deletion m =
    update_where (λ old. old.key == m.key)
      (λ old. record old {
        body = m.body;
        title = m.title;
        link_target = m.link_target;
        deleted_at = m.deleted_at;
        deleted_by = m.deleted_by;
      })

unfoldable pub edit_message :
    Policy
    → ℕ
    → Conversation
    → Message
    → Option String
    → Option String
    → Option String
    → ℕ
    → Hub
    → Fallible Refusal Message × Hub
edit_message policy actor c m body title link now hub =
    let m' = record m { body = body; title = title; link_target = link; edited_at = some now } in
    if not (policy.can_view actor c)
    then (raises denied, hub)
    else if not (may_change policy actor c "edit_any" m)
    then (raises denied, hub)
    else if not (is_none m.deleted_at)
    then (raises invalid, hub)
    else (
      returns m',
      publish policy c none "message_edited" m.key
          (record hub { messages = save_edit m' hub.messages }),
    )

unfoldable pub soft_delete_message :
    Policy → ℕ → Conversation → Message → ℕ → Hub → Fallible Refusal Message × Hub
soft_delete_message policy actor c m now hub =
    let m' = record m {
      body = none;
      title = none;
      link_target = none;
      deleted_at = some now;
      deleted_by = some actor;
    } in
    if not (policy.can_view actor c)
    then (raises denied, hub)
    else if not (may_change policy actor c "delete_any" m)
    then (raises denied, hub)
    else if is_none m.deleted_at
    then (
      returns m',
      publish policy c none "message_deleted" m.key
          (record hub { messages = save_deletion m' hub.messages }),
    )
    else (returns m, hub)
