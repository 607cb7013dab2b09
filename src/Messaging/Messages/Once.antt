-- ===== src/Messaging/Messages/Once.antt =====
-- A message is sent once for each request (messaging/services.py).
use django_core_micha.Base.{
  ℕ, ◌≡◌, refl, inl, inr, Bool, true, false, Option, none, some, [], ◌∷◌, ◌++◌, arith,
  first_where-append, Option-cases, not, subst,
}
use django_core_micha.Base.Tables.{returns, RaisesOr, RaisesOr-if, RaisesOr-returns}
use django_core_micha.Messaging.Model.{Conversation, Message, Hub, Policy, publish, publish_to}
use django_core_micha.Messaging.Messages.{
  Draft, is_request, find_request, store_message, send_request, send_message, answer_request,
  denied, invalid, may_enter, is_bad_reply,
}

-- Publishing and the conversation's update leave the messages alone.
store_message-messages :
    (policy : Policy) (actor : ℕ) (c : Conversation) (draft : Draft) (now : ℕ) (hub : Hub)
    → let (m, hub') = store_message policy actor c draft now hub in
      hub'.messages ≡ hub.messages ++ m ∷ []
unfolding store_message publish publish_to
store_message-messages policy actor c draft now hub = refl

is_request-store_message :
    (policy : Policy) (actor : ℕ) (c : Conversation) (draft : Draft) (now k : ℕ) (hub : Hub)
    → draft.request ≡ some k
    → is_request c.id actor k (store_message policy actor c draft now hub).0 ≡ true
unfolding store_message
is_request-store_message policy actor c draft now k hub e = ground arith

found-store_message :
    (policy : Policy) (actor : ℕ) (c : Conversation) (draft : Draft) (now k : ℕ) (hub : Hub)
    → draft.request ≡ some k
    → find_request c.id actor k hub.messages ≡ none
    → let (m, hub') = store_message policy actor c draft now hub in
      find_request c.id actor k hub'.messages ≡ some m
unfolding find_request
found-store_message policy actor c draft now k hub e new =
    rw (store_message-messages policy actor c draft now hub) (
      first_where-append (is_request c.id actor k) hub.messages _ new
        (is_request-store_message policy actor c draft now k hub e))

-- The request is found after it has been served.
send_request-found :
    (policy : Policy) (actor : ℕ) (c : Conversation) (draft : Draft) (now k : ℕ) (hub : Hub)
    → draft.request ≡ some k
    → let (sent, hub') = send_request policy actor c draft now (some k) hub in
      find_request c.id actor k hub'.messages ≡ some sent.0
unfolding send_request answer_request
send_request-found policy actor c draft now k hub e =
    elim (Option-cases (find_request c.id actor k hub.messages)) [
      | inr (old, found) ↦ rw (found, found) refl
      | inl new ↦ rw new (found-store_message policy actor c draft now k hub e new)
    ]

-- A request that is found is answered with its message, and nothing is stored.
send_request-again :
    (policy : Policy) (actor : ℕ) (c : Conversation) (draft : Draft) (now k : ℕ) (hub : Hub)
    (m : Message)
    → find_request c.id actor k hub.messages ≡ some m
    → send_request policy actor c draft now (some k) hub ≡ ((m, false), hub)
unfolding send_request answer_request
send_request-again policy actor c draft now k hub m found = rw found refl

-- A send either raises and leaves the hub alone, or it answers the request.
pub send_message-RaisesOr :
    (policy : Policy) (actor : ℕ) (c : Conversation) (draft : Draft) (now : ℕ) (hub : Hub)
    → let (sent, hub') = send_request policy actor c draft now draft.request hub in
      RaisesOr hub (returns sent, hub') (send_message policy actor c draft now hub)
unfolding send_message
send_message-RaisesOr policy actor c draft now hub =
    RaisesOr-if (not (may_enter policy actor c hub)) denied hub _ _ (
      RaisesOr-if (not (policy.can_post actor c draft.draft_kind)) denied hub _ _
        (RaisesOr-if (is_bad_reply c draft.draft_reply_to) invalid hub _ _ (inr refl)))

send_message-RaisesOr_request :
    (policy : Policy) (actor : ℕ) (c : Conversation) (draft : Draft) (now k : ℕ) (hub : Hub)
    → draft.request ≡ some k
    → let (sent, hub') = send_request policy actor c draft now (some k) hub in
      RaisesOr hub (returns sent, hub') (send_message policy actor c draft now hub)
send_message-RaisesOr_request policy actor c draft now k hub e =
    subst
      (λ (r : Option ℕ).
        let (sent, hub') = send_request policy actor c draft now r hub in
        RaisesOr hub (returns sent, hub') (send_message policy actor c draft now hub))
      e (send_message-RaisesOr policy actor c draft now hub)

-- After a send with a request id has returned a message, a further send by this sender with the same request
-- id to this conversation, with whatever text and at whatever time, leaves the hub as it is: it
-- raises, or it returns the first message and says that it is not new.
pub send_message-again :
    (policy : Policy) (actor : ℕ) (c : Conversation) (draft again : Draft) (now later k : ℕ)
    (hub hub' : Hub) (m : Message) (b : Bool)
    → draft.request ≡ some k
    → again.request ≡ some k
    → send_message policy actor c draft now hub ≡ (returns (m, b), hub')
    → RaisesOr hub' (returns (m, false), hub') (send_message policy actor c again later hub')
send_message-again policy actor c draft again now later k hub hub' m b e e' sent =
    let (given, left) =
      RaisesOr-returns hub _ _ _ (send_message-RaisesOr_request policy actor c draft now k hub e)
        sent in
    let found : find_request c.id actor k hub'.messages ≡ some m =
      rw given at (rw left at (send_request-found policy actor c draft now k hub e)) in
    rw (send_request-again policy actor c again later k hub' m found) at
      (send_message-RaisesOr_request policy actor c again later k hub' e')
