-- ===== src/Messaging/Reading/Marks.antt =====
-- Marking a conversation as read (messaging/services.py).
use mathlib.Core.Option.{none}
use django_core_micha.Messaging.Reading.{record_read, unread_of, is_later, mark_read, read_time}
use django_core_micha.Messaging.Model.{
  as_participant, publish, participant, publish_to, Policy, save_participant, Conversation,
  Participant, Hub, is_live_row, run_with, Message,
}
use django_core_micha.Base.{
  true≢false, ℕ, Option, String, ◌≡◌, returns, some, refl, first_where-update_where,
  raises-ne-returns, ap, returns-parts, Bool-cases, inl, inr, List, all_where, leb, ◌≤◌, true,
  count_where-zero, arith, false,
}

-- A publication leaves the tables alone.
pub publish-participants :
    (policy : Policy) (c : Conversation) (sender : Option ℕ) (event : String) (k : ℕ) (hub : Hub)
    → (publish policy c sender event k hub).participants ≡ hub.participants
unfolding publish publish_to
publish-participants policy c sender event k hub = refl

pub publish-messages :
    (policy : Policy) (c : Conversation) (sender : Option ℕ) (event : String) (k : ℕ) (hub : Hub)
    → (publish policy c sender event k hub).messages ≡ hub.messages
unfolding publish publish_to
publish-messages policy c sender event k hub = refl

-- An operation that returned was allowed, and its participant was found.
pub as_participant-returns {ℓ} :
    {A : Type ℓ} (policy : Policy) (actor : ℕ) (c : Conversation) (hub : Hub)
    (act : Participant → A × Hub) {a : A} {hub' : Hub}
    → as_participant policy actor c hub act ≡ (returns a, hub')
    → (p : Participant) × ((participant c.id actor hub.participants ≡ some p)
        × (((act p).0 ≡ a) × ((act p).1 ≡ hub')))
unfolding as_participant
as_participant-returns policy actor c hub act {a} {hub'} h =
    elim (Bool-cases (policy.can_view actor c)) [
      | inl t ↦ found (participant c.id actor hub.participants) refl (rw t at h)
      | inr f ↦ absurd (raises-ne-returns (ap (λ y. y.0) (rw f at h)))
    ]
  where
    found :
        (o : Option Participant)
        → participant c.id actor hub.participants ≡ o
        → run_with hub act o ≡ (returns a, hub')
        → (p : Participant) × ((participant c.id actor hub.participants ≡ some p)
            × (((act p).0 ≡ a) × ((act p).1 ≡ hub')))
    found none e h = absurd (raises-ne-returns (ap (λ y. y.0) h))
    found (some p) e h = (p, (e, returns-parts h))

-- The saved row is the one that is found from then on.
pub participant-save_participant :
    (conversation user : ℕ) (f : Participant → Participant) (hub : Hub) (p : Participant)
    → ((q : Participant) → is_live_row conversation user (f q) ≡ is_live_row conversation user q)
    → participant conversation user hub.participants ≡ some p
    → participant conversation user (save_participant conversation user f hub).participants
      ≡ some (f p)
unfolding participant save_participant
participant-save_participant conversation user f hub p keeps found =
    rw
      (
        first_where-update_where _ (is_live_row conversation user) f keeps (λ x t. t)
            hub.participants,
        found,
      )
      refl

unread_of-zero :
    (actor timestamp last : ℕ) (messages : List Message) (p : Participant)
    → p.last_read_at ≡ some last
    → timestamp ≤ last
    → all_where (λ m. leb m.created_at timestamp) messages ≡ true
    → unread_of actor messages p ≡ 0
unfolding unread_of
unread_of-zero actor timestamp last messages p e le all =
    count_where-zero _ (λ m. leb m.created_at timestamp) messages (λ m h. rw e (ground arith)) all

not_later :
    (timestamp : ℕ) (last : Option ℕ)
    → is_later timestamp last ≡ false
    → (l : ℕ) × ((last ≡ some l) × (timestamp ≤ l))
not_later timestamp none h = absurd (true≢false h)
not_later timestamp (some l) h = (l, (refl, ground arith))

record_read-unread :
    (policy : Policy) (actor : ℕ) (c : Conversation) (timestamp : ℕ) (hub : Hub) (p : Participant)
    → all_where (λ m. leb m.created_at timestamp) hub.messages ≡ true
    → participant c.id actor hub.participants ≡ some p
    → let (p', hub') = record_read policy actor c timestamp hub p in
      (participant c.id actor hub'.participants ≡ some p') × (unread_of actor hub'.messages p' ≡ 0)
unfolding record_read publish publish_to save_participant
record_read-unread policy actor c timestamp hub p all found =
    elim (Bool-cases (is_later timestamp p.last_read_at)) [
      | inl t ↦ rw t (
        participant-save_participant c.id actor _ hub p (λ q. refl) found,
        unread_of-zero actor timestamp timestamp hub.messages _ refl (omega arith) all,
      )
      | inr f ↦
          let (last, (e, le)) = not_later timestamp p.last_read_at f in
          rw f (found, unread_of-zero actor timestamp last hub.messages p e le all)
    ]

-- If marking a conversation as read up to a time returns a row, and every message was created no
-- later than that time and than now, then this row is found for the user from then on and no message
-- counts as unread for it.
pub mark_read-unread :
    (policy : Policy) (actor : ℕ) (c : Conversation) (read_at : Option ℕ) (now : ℕ) (hub : Hub)
    (p : Participant) (hub' : Hub)
    → all_where (λ m. leb m.created_at (read_time read_at now)) hub.messages ≡ true
    → mark_read policy actor c read_at now hub ≡ (returns p, hub')
    → (participant c.id actor hub'.participants ≡ some p) × (unread_of actor hub'.messages p ≡ 0)
unfolding mark_read
mark_read-unread policy actor c read_at now hub p hub' all h =
    let (old, (found, (e, e'))) = as_participant-returns policy actor c hub _ h in
    let read = record_read-unread policy actor c (read_time read_at now) hub old all found in
    rw e at (rw e' at read)
