-- ===== src/Messaging/Model.antt =====
-- The tables of src/django_core_micha/messaging/models.py and what every service of
-- messaging/services.py asks first. The app's policy is a parameter, as it is code of the app; a
-- user, a conversation and a message are their keys; a time is a number of microseconds. What a
-- transaction publishes when it commits is appended to the list of frames.
use django_core_micha.Base.{
  is_key, is_none, ℕ, String, Bool, not, ◌&&◌, Option, none, some, List, [], ◌∷◌, ◌++◌, ◌==◌,
  first_where, select, if◌then◌else◌,
}
use django_core_micha.Base.Tables.{member, Fallible, update_where, raises, returns}

pub data Kind : Type 0 where
  direct group broadcast managed object_thread : Kind

-- `pair` are the two users of a direct conversation.
pub record Conversation : Type 0 where
  pub id : ℕ
  pub app : ℕ
  pub scope : ℕ
  pub kind : Kind
  pub conversation_title : Option String
  pub external_key : Option String
  pub pair : Option (ℕ × ℕ)
  pub last_message_at : Option ℕ

pub data Source : Type 0 where
  manual provider : Source

pub record Participant : Type 0 where
  pub conversation : ℕ
  pub user : ℕ
  pub source : Source
  pub last_delivered_at : Option ℕ
  pub last_read_at : Option ℕ
  pub muted : Bool
  pub email_enabled : Option Bool
  pub push_enabled : Option Bool
  pub archived_at : Option ℕ
  pub removed_at : Option ℕ

-- `sender` is `none` where the sender's account was deleted.
pub record Message : Type 0 where
  pub key : ℕ
  pub in_conversation : ℕ
  pub sender : Option ℕ
  pub message_kind : String
  pub title : Option String
  pub body : Option String
  pub link_target : Option String
  pub reply_to : Option ℕ
  pub client_request_id : Option ℕ
  pub created_at : ℕ
  pub edited_at : Option ℕ
  pub deleted_at : Option ℕ
  pub deleted_by : Option ℕ

-- A frame: its type, its conversation, the users it goes to, and what it is about.
pub record Frame : Type 0 where
  pub event_type : String
  pub about : ℕ
  pub recipients : List ℕ
  pub subject : ℕ

pub record Hub : Type 0 where
  pub conversations : List Conversation
  pub participants : List Participant
  pub messages : List Message
  pub frames : List Frame
  pub next_message : ℕ
  pub next_conversation : ℕ

-- The hooks of the app's MessagingPolicy, as they answer now.
pub record Policy : Type 0 where
  pub can_view : ℕ → Conversation → Bool
  pub can_post : ℕ → Conversation → String → Bool
  pub moderation_rights : ℕ → Conversation → Option Message → List String
  pub resolve_recipients : Conversation → List ℕ

-- MessagingPermissionDenied and ValueError.
pub data Refusal : Type 0 where
  denied invalid : Refusal

-- A row of this conversation and user, and one that is still live.
abbrev pub is_row : ℕ → ℕ → Participant → Bool
is_row conversation user p = p.conversation == conversation && p.user == user

abbrev pub is_live_row : ℕ → ℕ → Participant → Bool
is_live_row conversation user p = is_row conversation user p && is_none p.removed_at

-- `_participant(conversation, user)`
unfoldable pub participant : ℕ → ℕ → List Participant → Option Participant
participant conversation user = first_where (is_live_row conversation user)

abbrev pub users_of : List Participant → List ℕ
users_of [] = []
users_of (p ∷ rows) = p.user ∷ users_of rows

-- `resolve_live_recipients`, without the sender where there is one.
unfoldable pub resolve_live_recipients : Policy → Conversation → Option ℕ → Hub → List ℕ
resolve_live_recipients policy c sender hub = users_of (
    select
      (λ p.
        p.conversation == c.id
        && is_none p.removed_at
        && not p.muted
        && member p.user (policy.resolve_recipients c)
        && not (is_key sender p.user))
      hub.participants)

-- `_publish`
unfoldable pub publish_to : List ℕ → Conversation → String → ℕ → Hub → Hub
publish_to users c event subject hub = record hub {
  frames =
      hub.frames
      ++ record { event_type = event; about = c.id; recipients = users; subject = subject } ∷ [];
}

-- `_publish` to the live recipients.
unfoldable pub publish : Policy → Conversation → Option ℕ → String → ℕ → Hub → Hub
publish policy c sender event subject hub =
    publish_to (resolve_live_recipients policy c sender hub) c event subject hub

-- `_require_view` and `_require_participant`, and then the rest of an operation on the participant.
abbrev pub run_with {ℓ} :
    {A : Type ℓ} → Hub → (Participant → A × Hub) → Option Participant → Fallible Refusal A × Hub
run_with hub act none = (raises denied, hub)
run_with hub act (some p) = let (a, hub') = act p in (returns a, hub')

unfoldable pub as_participant {ℓ} :
    {A : Type ℓ}
    → Policy
    → ℕ
    → Conversation
    → Hub
    → (Participant → A × Hub)
    → Fallible Refusal A × Hub
as_participant policy actor c hub act =
    if not (policy.can_view actor c)
    then (raises denied, hub)
    else run_with hub act (participant c.id actor hub.participants)

-- The live row of a user in a conversation is changed and saved: there is one row for the pair.
unfoldable pub save_participant : ℕ → ℕ → (Participant → Participant) → Hub → Hub
save_participant conversation user f hub = record hub {
  participants = update_where (is_live_row conversation user) f hub.participants;
}
