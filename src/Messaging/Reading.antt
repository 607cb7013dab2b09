-- ===== src/Messaging/Reading.antt =====
-- What participants have read (messaging/services.py): marking as read, preferences, the archive,
-- unread counts, read status, and the audited reading by a moderator.
pub mod Marks
use mathlib.Core.List.{[]}
use mathlib.Core.Option.{none}
use django_core_micha.Messaging.Model.{
  Policy, Hub, Conversation, Message, Participant, Refusal, publish, as_participant,
  save_participant, publish_to, invalid, denied,
}
use django_core_micha.Base.{
  is_key, is_none, ℕ, Option, List, some, Bool, ◌∷◌, select, min, true, ◌+◌, ◌==◌, Fallible, ltb,
  if◌then◌else◌, ◌&&◌, count_where, not, ◌++◌, first_where, String, str_eq, raises, returns,
  contains,
}

-- `min(read_at or timezone.now(), timezone.now())`
abbrev pub read_time : Option ℕ → ℕ → ℕ
read_time none now = now
read_time (some at) now = min at now

-- `last is None or timestamp > last`
abbrev pub is_later : ℕ → Option ℕ → Bool
is_later timestamp none = true
is_later timestamp (some last) = ltb last timestamp

unfoldable pub record_read : Policy → ℕ → Conversation → ℕ → Hub → Participant → Participant × Hub
record_read policy actor c timestamp hub p =
    let read : Participant → Participant = λ q. record q { last_read_at = some timestamp } in
    if is_later timestamp p.last_read_at
    then (read p, publish policy c none "read_state" actor (save_participant c.id actor read hub))
    else (p, hub)

unfoldable pub mark_read :
    Policy → ℕ → Conversation → Option ℕ → ℕ → Hub → Fallible Refusal Participant × Hub
mark_read policy actor c read_at now hub =
    as_participant policy actor c hub (record_read policy actor c (read_time read_at now) hub)

-- `value if value is not None else old`
abbrev pub given_or {ℓ} : {A : Type ℓ} → Option A → A → A
given_or none old = old
given_or (some new) old = new

abbrev pub keep_or {ℓ} : {A : Type ℓ} → Option A → Option A → Option A
keep_or none old = old
keep_or (some new) old = some new

unfoldable pub set_preferences :
    Policy
    → ℕ
    → Conversation
    → Option Bool
    → Option Bool
    → Option Bool
    → Hub
    → Fallible Refusal Participant × Hub
set_preferences policy actor c muted email push hub =
    let prefer : Participant → Participant = λ p. record p {
      muted = given_or muted p.muted;
      email_enabled = keep_or email p.email_enabled;
      push_enabled = keep_or push p.push_enabled;
    } in
    as_participant policy actor c hub (λ p. (prefer p, save_participant c.id actor prefer hub))

unfoldable pub archive_conversation :
    Policy → ℕ → Conversation → Bool → ℕ → Hub → Fallible Refusal Participant × Hub
archive_conversation policy actor c archived now hub =
    let archive : Participant → Participant =
      λ p. record p { archived_at = if archived then some now else none } in
    as_participant policy actor c hub (λ p. (
      archive p,
      publish_to (actor ∷ []) c "conversation_archived" actor
          (save_participant c.id actor archive hub),
    ))

-- The messages that count as unread for a row: not deleted, of others, and after the last reading.
unfoldable pub unread_of : ℕ → List Message → Participant → ℕ
unread_of actor messages p =
    count_where
      (λ m.
        m.in_conversation == p.conversation
        && is_none m.deleted_at
        && not (is_key m.sender actor)
        && is_later m.created_at p.last_read_at)
      messages

-- The entries of `by_conversation`: a conversation without an unread message has none.
unfoldable pub unread_entries : ℕ → List Message → List Participant → List (ℕ × ℕ)
unread_entries actor messages [] = []
unread_entries actor messages (p ∷ rows) =
    let rest = unread_entries actor messages rows in
    if unread_of actor messages p == 0
    then rest
    else (p.conversation, unread_of actor messages p) ∷ rest

abbrev pub total : List (ℕ × ℕ) → ℕ
total [] = 0
total (e ∷ entries) = e.1 + total entries

-- `unread_counts`, of all apps: the sum and the entries.
unfoldable pub unread_counts : ℕ → Hub → ℕ × List (ℕ × ℕ)
unread_counts actor hub =
    let entries =
      unread_entries actor hub.messages
        (select (λ p. p.user == actor && is_none p.removed_at) hub.participants) in
    (total entries, entries)

-- A receipt of a thread: its root, its reader, and the time.
pub record ThreadReceipt : Type 0 where
  pub root : ℕ
  pub reader : ℕ
  pub thread_read_at : ℕ

abbrev pub is_receipt : ℕ → ℕ → ThreadReceipt → Bool
is_receipt root user r = r.root == root && r.reader == user

abbrev pub last_of : Option ThreadReceipt → Option ℕ
last_of none = none
last_of (some r) = some r.thread_read_at

-- `update_or_create`
abbrev pub save_receipt : ThreadReceipt → List ThreadReceipt → List ThreadReceipt
save_receipt new [] = new ∷ []
save_receipt new (r ∷ receipts) =
    let rest = save_receipt new receipts in
    if is_receipt new.root new.reader r then new ∷ receipts else r ∷ rest

-- The receipts, and the hub for the frames.
unfoldable pub mark_thread_read :
    Policy
    → ℕ
    → Conversation
    → Message
    → Option ℕ
    → ℕ
    → List ThreadReceipt
    → Hub
    → Fallible Refusal (List ThreadReceipt) × Hub
mark_thread_read policy actor c root read_at now receipts hub =
    let timestamp = read_time read_at now in
    let new : ThreadReceipt = record {
      root = root.key;
      reader = actor;
      thread_read_at = timestamp;
    } in
    as_participant policy actor c hub (λ p.
      if is_later timestamp (last_of (first_where (is_receipt root.key actor) receipts))
      then (save_receipt new receipts, publish policy c none "thread_read_state" root.key hub)
      else (receipts, hub))

-- `{**config, **given}`: a given key replaces the old one.
abbrev pub put_key {ℓ} : {V : Type ℓ} → String → V → List (String × V) → List (String × V)
put_key k v [] = (k, v) ∷ []
put_key k v ((j, w) ∷ config) =
    let rest = put_key k v config in if str_eq j k then (j, v) ∷ config else (j, w) ∷ rest

abbrev pub merge {ℓ} : {V : Type ℓ} → List (String × V) → List (String × V) → List (String × V)
merge config [] = config
merge config ((k, v) ∷ given) = merge (put_key k v config) given

abbrev pub merge_given {ℓ} :
    {V : Type ℓ}
    → List (String × V)
    → Option (List (String × V))
    → Fallible Refusal (List (String × V))
merge_given config none = raises invalid
merge_given config (some given) = returns (merge config given)

-- The configuration of the conversation's scope. A value that is no object is refused before the
-- merge; here `given` is `none` for it.
unfoldable pub update_conversation_config {ℓ} :
    {V : Type ℓ}
    → Policy
    → ℕ
    → Conversation
    → Option (List (String × V))
    → List (String × V)
    → Fallible Refusal (List (String × V))
update_conversation_config policy actor c given config =
    if not (policy.can_view actor c)
    then raises denied
    else if not (contains "manage_config" (policy.moderation_rights actor c none))
    then raises denied
    else merge_given config given
