-- ===== src/Messaging/Membership.antt =====
-- Who takes part in a conversation (messaging/services.py): the provider's snapshot.
pub mod Live
use Prim.Native.String.{compare as compare_text}
use Prim.Native.Nat.{Ordering, suc, compare}
use mathlib.Core.List.{[]}
use django_core_micha.Messaging.Model.{
  Policy, Source, Participant, Conversation, Hub, is_row, publish, manual, provider, Kind, Refusal,
  group, object_thread, direct, broadcast, managed, invalid, denied,
}
use django_core_micha.Base.{
  is_none, ℕ, List, none, if◌then◌else◌, Bool, ◌∷◌, false, any_where, ◌==◌, update_where, true,
  ◌&&◌, some, ◌++◌, not, member, Option, Fallible, String, str_eq, contains, first_where, decimal,
  select, raises, returns,
}

-- `MembershipSnapshot`
pub record Snapshot : Type 0 where
  pub members : List ℕ
  pub snapshot_key : Option String
  pub remove_absent : Bool

-- A row as the database creates it.
unfoldable pub new_row : ℕ → Source → ℕ → Participant
new_row conversation source user = record {
  conversation = conversation;
  user = user;
  source = source;
  last_delivered_at = none;
  last_read_at = none;
  muted = false;
  email_enabled = none;
  push_enabled = none;
  archived_at = none;
  removed_at = none;
}

-- `get_or_create`: a conversation and a user have one row.
unfoldable pub ensure_row : ℕ → Source → List Participant → ℕ → List Participant
ensure_row conversation source rows user =
    if any_where (is_row conversation user) rows
    then rows
    else rows ++ new_row conversation source user ∷ []

abbrev pub is_provider : Source → Bool
is_provider manual = false
is_provider provider = true

-- The provider brings a row that it had removed back.
abbrev pub restore : Participant → Participant
restore p = if is_provider p.source then record p { removed_at = none } else p

-- One member of the snapshot.
unfoldable pub admit : ℕ → List Participant → ℕ → List Participant
admit conversation rows user =
    if any_where (is_row conversation user) rows
    then update_where (is_row conversation user) restore rows
    else rows ++ new_row conversation provider user ∷ []

unfoldable pub admit_all : ℕ → List ℕ → List Participant → List Participant
admit_all conversation [] rows = rows
admit_all conversation (user ∷ members) rows =
    admit_all conversation members (admit conversation rows user)

-- The provider's live rows of users that are not members.
abbrev pub is_absent : ℕ → List ℕ → Participant → Bool
is_absent conversation members p =
    p.conversation == conversation
    && is_provider p.source
    && is_none p.removed_at
    && not (member p.user members)

unfoldable pub apply_snapshot : ℕ → Snapshot → ℕ → List Participant → List Participant
apply_snapshot conversation s now rows =
    let admitted = admit_all conversation s.members rows in
    if s.remove_absent
    then update_where (is_absent conversation s.members) (λ p. record p { removed_at = some now })
        admitted
    else admitted

-- The key of the provider is stored where it gives one.
abbrev pub store_key : Option String → Conversation → Conversation
store_key none d = d
store_key (some key) d = record d { external_key = some key }

unfoldable pub reconcile_membership : Policy → Snapshot → Conversation → ℕ → Hub → Hub
reconcile_membership policy s c now hub =
    publish policy c none "participant_changed" c.id (record hub {
      participants = apply_snapshot c.id s now hub.participants;
      conversations = update_where (λ d. d.id == c.id) (store_key s.snapshot_key) hub.conversations;
    })
