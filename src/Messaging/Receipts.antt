-- ===== src/Messaging/Receipts.antt =====
-- Read status of messages (messaging/services.py): of one message, of many at once, and the audited
-- reading of a message's text by a moderator.
pub mod Batch
use mathlib.Core.List.{[]}
use django_core_micha.Messaging.Model.{
  Conversation, Policy, Participant, Kind, Message, Hub, direct, Refusal, denied,
}
use django_core_micha.Base.{
  is_key, is_none, ℕ, List, Bool, Option, String, false, true, ◌∷◌, not, some, ◌&&◌, select,
  Fallible, if◌then◌else◌, first_where, none, [], leb, contains, ◌==◌, returns, all_where, member,
  str_eq, ◌++◌, length, raises, count_where,
}

-- `last is not None and last >= created`
abbrev pub has_read : ℕ → Participant → Bool
has_read created p = is_read p.last_read_at created
  where
    is_read : Option ℕ → ℕ → Bool
    is_read none created = false
    is_read (some last) created = leb created last

abbrev pub is_empty {ℓ} : {A : Type ℓ} → List A → Bool
is_empty [] = true
is_empty (a ∷ rows) = false

abbrev pub is_direct : Kind → Bool
is_direct direct = true
is_direct _ = false

-- What both report of a message: whether all have read it, and where allowed how many of how many.
pub record Entry : Type 0 where
  pub all_read : Bool
  pub counts : Option (ℕ × ℕ)

pub record Detail : Type 0 where
  pub user : ℕ
  pub last_read : Option ℕ
  pub last_delivered : Option ℕ

abbrev pub details : List Participant → List Detail
details [] = []
details (p ∷ rows) =
    record { user = p.user; last_read = p.last_read_at; last_delivered = p.last_delivered_at }
    ∷ details rows

-- Whether the actor may see more than `all_read`.
abbrev pub is_gated : Conversation → List String → Bool
is_gated c rights = not (is_direct c.kind) && contains "read_receipt_detail" rights

unfoldable pub status_of :
    Conversation → List String → Message → List Participant → Entry × Option (List Detail)
status_of c rights m rows =
    let readers =
      select (λ p. not (is_key m.sender p.user))
        (select (λ p. p.conversation == c.id && is_none p.removed_at) rows) in
    let all_read : Bool =
      not (is_empty readers) && is_empty (select (λ p. not (has_read m.created_at p)) readers) in
    if is_gated c rights
    then (
      record {
        all_read = all_read;
        counts = some (length readers, count_where (has_read m.created_at) readers);
      },
      some (details readers),
    )
    else (record { all_read = all_read; counts = none }, none)

unfoldable pub read_status :
    Policy → ℕ → Conversation → Message → Hub → Fallible Refusal (Entry × Option (List Detail))
read_status policy actor c m hub =
    let rights = policy.moderation_rights actor c (some m) in
    if policy.can_view actor c
    then returns (status_of c rights m hub.participants)
    else raises denied

-- The entry of one message of the batch, given the live rows of its conversation.
unfoldable pub entry_of : Bool → List Participant → Message → Entry
entry_of gated live m =
    let rows = select (λ p. not (is_key m.sender p.user)) live in
    record {
      all_read = not (is_empty rows) && all_where (has_read m.created_at) rows;
      counts = if gated then some (length rows, count_where (has_read m.created_at) rows) else none;
    }

-- `messages_by_conversation.setdefault(conversation, []).append(message)`
abbrev pub add_to_group :
    Conversation × Message → List (Conversation × List Message) → List (Conversation × List Message)
add_to_group e [] = (e.0, e.1 ∷ []) ∷ []
add_to_group e (g ∷ groups) =
    let rest = add_to_group e groups in
    if g.0.id == e.0.id then (g.0, g.1 ++ e.1 ∷ []) ∷ groups else g ∷ rest

abbrev pub group_by_conversation :
    List (Conversation × Message)
    → List (Conversation × List Message)
    → List (Conversation × List Message)
group_by_conversation [] groups = groups
group_by_conversation (e ∷ entries) groups = group_by_conversation entries (add_to_group e groups)

-- `message.conversation`
unfoldable pub conversation_of : Hub → Message → Option Conversation
conversation_of hub m = first_where (λ c. c.id == m.in_conversation) hub.conversations

abbrev pub keep_viewable :
    Policy
    → ℕ
    → Message
    → Option Conversation
    → List (Conversation × Message)
    → List (Conversation × Message)
keep_viewable policy actor m none rest = rest
keep_viewable policy actor m (some c) rest = if policy.can_view actor c then (c, m) ∷ rest else rest

-- The messages, each with its conversation, where the actor may view it.
unfoldable pub viewable : Policy → ℕ → Hub → List Message → List (Conversation × Message)
viewable policy actor hub [] = []
viewable policy actor hub (m ∷ messages) =
    keep_viewable policy actor m (conversation_of hub m) (viewable policy actor hub messages)

abbrev pub entries_of_group : Bool → List Participant → List Message → List (ℕ × Entry)
entries_of_group gated live [] = []
entries_of_group gated live (m ∷ messages) =
    (m.key, entry_of gated live m) ∷ entries_of_group gated live messages

unfoldable pub entries_of : Policy → ℕ → Hub → List (Conversation × List Message) → List (ℕ × Entry)
entries_of policy actor hub [] = []
entries_of policy actor hub (g ∷ groups) =
    entries_of_group (is_gated g.0 (policy.moderation_rights actor g.0 none))
      (select (λ p. p.conversation == g.0.id && is_none p.removed_at) hub.participants) g.1
    ++ entries_of policy actor hub groups

unfoldable pub batch_read_status : Policy → ℕ → List ℕ → Hub → List (ℕ × Entry)
batch_read_status policy actor ids hub = entries_of policy actor hub (
    group_by_conversation (viewable policy actor hub (select (λ m. member m.key ids) hub.messages))
      [])

-- An audit row: its action, its actor, the message, and the reason.
pub record AuditRow : Type 0 where
  pub action : String
  pub by : ℕ
  pub target : ℕ
  pub reason : String

pub record Plain : Type 0 where
  pub plain_title : Option String
  pub plain_body : Option String
  pub plain_link : Option String

-- `break_glass_read`: the audit log is written whether it is allowed or not. Decryption is a
-- parameter.
unfoldable pub break_glass_read :
    (Option String → Option String)
    → Policy
    → ℕ
    → Conversation
    → Message
    → String
    → List AuditRow
    → Fallible Refusal Plain × List AuditRow
break_glass_read decrypt policy actor c m reason log =
    let allowed : Bool =
      not (str_eq reason "") && is_gated c (policy.moderation_rights actor c (some m)) in
    let log' : List AuditRow =
      log
      ++ record {
        action = if allowed then "break_glass_read" else "break_glass_read_denied";
        by = actor;
        target = m.key;
        reason = reason;
      }
        ∷ [] in
    if not allowed then (raises denied, log') else (
      returns (record {
        plain_title = decrypt m.title;
        plain_body = decrypt m.body;
        plain_link = decrypt m.link_target;
      }),
      log',
    )
