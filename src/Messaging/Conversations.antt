-- ===== src/Messaging/Conversations.antt =====
-- Opening direct conversations and creating the others (messaging/services.py). What the policy's
-- `validate_scope` refuses is not modelled.
use django_core_micha.Messaging.Membership.{ensure_row, reconcile_membership, Snapshot}
use Prim.Native.String.{compare as compare_text}
use Prim.Native.Nat.{Ordering, suc}
use mathlib.Core.List.{[]}
use django_core_micha.Messaging.Model.{
  Policy, Source, Participant, Conversation, Hub, publish, manual, Kind, Refusal, group,
  object_thread, direct, broadcast, managed, invalid, denied,
}
use django_core_micha.Base.{
  ℕ, List, none, if◌then◌else◌, Bool, ◌∷◌, false, ◌==◌, true, ◌&&◌, some, ◌++◌, not, Option,
  Fallible, String, str_eq, contains, first_where, decimal, select, raises, returns,
}

abbrev pub has_key : Option String → String → Bool
has_key none k = false
has_key (some j) k = str_eq j k

abbrev pub same_kind : Kind → Kind → Bool
same_kind direct direct = true
same_kind group group = true
same_kind broadcast broadcast = true
same_kind managed managed = true
same_kind object_thread object_thread = true
same_kind _ _ = false

-- `Conversation.objects.get_or_create(…)`: the row that a test finds, or a new one; and whether it is
-- new.
unfoldable pub create_row :
    ℕ → ℕ → Kind → Option String → Option String → Option (ℕ × ℕ) → Hub → Conversation × Hub
create_row app scope kind title key pair hub =
    let c : Conversation = record {
      id = hub.next_conversation;
      app = app;
      scope = scope;
      kind = kind;
      conversation_title = title;
      external_key = key;
      pair = pair;
      last_message_at = none;
    } in
    (
      c,
      record hub {
        conversations = hub.conversations ++ c ∷ [];
        next_conversation = suc hub.next_conversation;
      },
    )

abbrev pub get_or_create :
    Option Conversation → Conversation × Hub → Hub → (Conversation × Bool) × Hub
get_or_create (some c) created hub = ((c, false), hub)
get_or_create none (c, hub') hub = ((c, true), hub')

abbrev pub is_pair : ℕ × ℕ → Option (ℕ × ℕ) → Bool
is_pair (low, high) none = false
is_pair (low, high) (some (l, h)) = l == low && h == high

-- `sorted((actor, target), key=lambda user: str(user.pk))`
unfoldable pub sorted_pair : ℕ → ℕ → ℕ × ℕ
sorted_pair actor target = in_order (compare_text (decimal actor) (decimal target))
  where
    in_order : Ordering → ℕ × ℕ
    in_order Ordering.gt = (target, actor)
    in_order _ = (actor, target)

-- The frame of a conversation that is new.
abbrev pub announce : Policy → Conversation × Bool → Hub → Conversation × Hub
announce policy (c, true) hub = (c, publish policy c none "conversation_upsert" c.id hub)
announce policy (c, false) hub = (c, hub)

abbrev pub ensure_rows : ℕ → Source → List ℕ → Hub → Hub
ensure_rows conversation source users hub = record hub {
  participants = ensure_each users hub.participants;
}
  where
    ensure_each : List ℕ → List Participant → List Participant
    ensure_each [] rows = rows
    ensure_each (user ∷ users) rows = ensure_each users (ensure_row conversation source rows user)

-- `can_open_direct` of the app's policy is a parameter.
unfoldable pub open_direct :
    (ℕ → ℕ → ℕ → Bool) → Policy → ℕ → ℕ → ℕ → ℕ → Hub → Fallible Refusal Conversation × Hub
open_direct can_open policy actor target app scope hub =
    let found : Option Conversation =
      first_where
        (λ d.
          d.app == app
          && d.scope == scope
          && same_kind d.kind direct
          && is_pair (sorted_pair actor target) d.pair)
        hub.conversations in
    let (opened, hub') =
      get_or_create found
        (create_row app scope direct none none (some (sorted_pair actor target)) hub) hub in
    let (c, hub'') =
      announce policy opened (ensure_rows opened.0.id manual (actor ∷ target ∷ []) hub') in
    if actor == target
    then (raises invalid, hub)
    else if not (can_open actor target scope)
    then (raises denied, hub)
    else (returns c, hub'')

-- The right that opening a conversation of a kind needs.
abbrev pub needed_right : Kind → Option String
needed_right group = some "open_group"
needed_right broadcast = some "open_broadcast"
needed_right managed = some "create_managed"
needed_right _ = none

abbrev pub lacks : Option String → List String → Bool
lacks none rights = false
lacks (some right) rights = not (contains right rights)

abbrev pub is_object_thread : Kind → Bool
is_object_thread object_thread = true
is_object_thread _ = false

-- The row of a managed, group or broadcast conversation with a key is reused.
unfoldable pub keyed_row : ℕ → ℕ → Kind → Option String → Hub → Option Conversation
keyed_row app scope kind none hub = none
keyed_row app scope kind (some key) hub =
    if is_object_thread kind
    then none
    else first_where
        (λ d.
          d.app == app && d.scope == scope && same_kind d.kind kind && has_key d.external_key key)
        hub.conversations

-- `rights` are the moderation rights for the conversation to be, `is_object_scope` is the kind of the
-- scope, and `snapshot` is what the provider answers for the conversation.
unfoldable pub create_conversation :
    Policy
    → List String
    → Bool
    → (Conversation → Snapshot)
    → ℕ
    → ℕ
    → ℕ
    → Kind
    → Option String
    → List ℕ
    → Option String
    → ℕ
    → Hub
    → Fallible Refusal Conversation × Hub
create_conversation policy rights is_object_scope snapshot actor app scope kind title users key now
      hub =
    let (opened, hub') =
      get_or_create (keyed_row app scope kind key hub)
        (create_row app scope kind title key none hub) hub in
    let c = opened.0 in
    let joined = ensure_rows c.id manual (actor ∷ select (λ u. not (u == actor)) users) hub' in
    let (c', hub'') =
      announce policy opened (reconcile_membership policy (snapshot c) c now joined) in
    if same_kind kind direct
    then (raises invalid, hub)
    else if lacks (needed_right kind) rights
    then (raises denied, hub)
    else if is_object_thread kind && not is_object_scope
    then (raises invalid, hub)
    else (returns c', hub'')
