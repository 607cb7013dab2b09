-- ===== src/Messaging/Receipts/Batch.antt =====
-- The read status of many messages at once against that of each (messaging/services.py).
use mathlib.Core.List.Perm
use mathlib.Core.List.{[], perm_middle, append_assoc, Perm, append-nil}
use django_core_micha.Messaging.Model.{Hub, Policy, Conversation, Refusal, Message, Participant}
use django_core_micha.Messaging.Receipts.{
  status_of, entries_of, entry_of, is_empty, Entry, is_gated, entries_of_group, add_to_group,
  Detail, has_read, read_status, conversation_of, viewable, batch_read_status,
  group_by_conversation, keep_viewable,
}
use django_core_micha.Base.{
  is_key, is_none, if◌then◌else◌, ℕ, Bool, Fallible, List, String, first_where, ◌≡◌, All, Option,
  select, ◌∷◌, some, ◌==◌, not, none, sym, returns, ◌++◌, ◌&&◌, all_where, subst, raises, refl,
  Bool-cases, ◌∙◌, inl, inr, arith, member, true, first_where-passes,
}

-- The two tests of whether all have read.
is_empty-all_where {ℓ} :
    {A : Type ℓ} (p : A → Bool) (rows : List A)
    → is_empty (select (λ a. not (p a)) rows) ≡ all_where p rows
is_empty-all_where p [] = refl
is_empty-all_where p (a ∷ rows) = elim (Bool-cases (p a)) [
  | inl t ↦ rw t (is_empty-all_where p rows)
  | inr f ↦ rw f refl
]

-- `live` are the rows that both read.
abbrev live_rows : Hub → Conversation → List Participant
live_rows hub c = select (λ p. p.conversation == c.id && is_none p.removed_at) hub.participants

status_of-entry_of :
    (c : Conversation) (rights : List String) (m : Message) (hub : Hub)
    → (status_of c rights m hub.participants).0 ≡ entry_of (is_gated c rights) (live_rows hub c) m
unfolding status_of entry_of
status_of-entry_of c rights m hub =
    let readers = select (λ p. not (is_key m.sender p.user)) (live_rows hub c) in
    elim (Bool-cases (is_gated c rights)) [
      | inl t ↦ rw (is_empty-all_where (has_read m.created_at) readers, t) refl
      | inr f ↦ rw (is_empty-all_where (has_read m.created_at) readers, f) refl
    ]

-- What the batch gives for one message.
abbrev single : Policy → ℕ → Hub → Conversation × Message → ℕ × Entry
single policy actor hub e = (
  e.1.key,
  entry_of (is_gated e.0 (policy.moderation_rights actor e.0 none)) (live_rows hub e.0) e.1,
)

abbrev singles : Policy → ℕ → Hub → List (Conversation × Message) → List (ℕ × Entry)
singles policy actor hub [] = []
singles policy actor hub (e ∷ entries) =
    single policy actor hub e ∷ singles policy actor hub entries

-- A conversation that is the row of its key.
abbrev IsRow : Hub → Conversation → Type 0
IsRow hub c = first_where (λ d. d.id == c.id) hub.conversations ≡ some c

IsRow-injective : (hub : Hub) (c d : Conversation) → IsRow hub c → IsRow hub d → c.id ≡ d.id → c ≡ d
IsRow-injective hub c d h h' e =
    some-injective
      (sym (subst (λ (k : ℕ). first_where (λ x. x.id == k) hub.conversations ≡ some c) e h) ∙ h')
  where
    some-injective : {c d : Conversation} → some c ≡ some d → c ≡ d
    some-injective h = cc

entries_of_group-append :
    (gated : Bool) (live : List Participant) (messages : List Message) (m : Message)
    → entries_of_group gated live (messages ++ m ∷ [])
      ≡ entries_of_group gated live messages ++ (m.key, entry_of gated live m) ∷ []
entries_of_group-append gated live [] m = refl
entries_of_group-append gated live (n ∷ messages) m =
    rw (entries_of_group-append gated live messages m) refl

-- A message that is added to its group is one more entry.
entries_of-add_to_group :
    (policy : Policy) (actor : ℕ) (hub : Hub) (e : Conversation × Message)
    (groups : List (Conversation × List Message))
    → IsRow hub e.0
    → All (λ g. IsRow hub g.0) groups
    → Perm
        (entries_of policy actor hub (add_to_group e groups))
        (single policy actor hub e ∷ entries_of policy actor hub groups)
unfolding entries_of
entries_of-add_to_group policy actor hub e [] row rows = Perm.refl _
entries_of-add_to_group policy actor hub e (g ∷ groups) row (h, rows) =
    elim (Bool-cases (g.0.id == e.0.id)) [
      | inl t ↦
          let same : e.0 ≡ g.0 = IsRow-injective hub e.0 g.0 row h (ground arith) in
          rw t (
            rw
              (
                same,
                entries_of_group-append (is_gated g.0 (policy.moderation_rights actor g.0 none))
                    (live_rows hub g.0) g.1 e.1,
                append_assoc
                    (entries_of_group (is_gated g.0 (policy.moderation_rights actor g.0 none))
                      (live_rows hub g.0) g.1)
                    (single policy actor hub (g.0, e.1) ∷ []) (entries_of policy actor hub groups),
              )
              (perm_middle _ _))
      | inr f ↦ rw f (
          Perm.trans
            (Perm.append_left _ (entries_of-add_to_group policy actor hub e groups row rows))
            (perm_middle _ _))
    ]

add_to_group-IsRow :
    (hub : Hub) (e : Conversation × Message) (groups : List (Conversation × List Message))
    → IsRow hub e.0
    → All (λ g. IsRow hub g.0) groups
    → All (λ g. IsRow hub g.0) (add_to_group e groups)
add_to_group-IsRow hub e [] row rows = (row, tt)
add_to_group-IsRow hub e (g ∷ groups) row (h, rows) = elim (Bool-cases (g.0.id == e.0.id)) [
  | inl t ↦ rw t (h, rows)
  | inr f ↦ rw f (h, add_to_group-IsRow hub e groups row rows)
]

entries_of-group :
    (policy : Policy) (actor : ℕ) (hub : Hub) (entries : List (Conversation × Message))
    (groups : List (Conversation × List Message))
    → All (λ e. IsRow hub e.0) entries
    → All (λ g. IsRow hub g.0) groups
    → Perm
        (entries_of policy actor hub (group_by_conversation entries groups))
        (singles policy actor hub entries ++ entries_of policy actor hub groups)
entries_of-group policy actor hub [] groups entered rows = Perm.refl _
entries_of-group policy actor hub (e ∷ entries) groups (h, entered) rows =
    Perm.trans
      (entries_of-group policy actor hub entries (add_to_group e groups) entered
        (add_to_group-IsRow hub e groups h rows))
      (Perm.trans (Perm.append_left _ (entries_of-add_to_group policy actor hub e groups h rows))
        (perm_middle _ _))

-- The entry of a single reading, where it is not refused.
abbrev keep_answer :
    ℕ → Fallible Refusal (Entry × Option (List Detail)) → List (ℕ × Entry) → List (ℕ × Entry)
keep_answer k (returns s) rest = (k, s.0) ∷ rest
keep_answer k (raises e) rest = rest

abbrev read_one :
    Policy → ℕ → Hub → Message → Option Conversation → List (ℕ × Entry) → List (ℕ × Entry)
read_one policy actor hub m none rest = rest
read_one policy actor hub m (some c) rest =
    keep_answer m.key (read_status policy actor c m hub) rest

-- Reading the status of each message on its own.
unfoldable pub one_by_one : Policy → ℕ → Hub → List Message → List (ℕ × Entry)
one_by_one policy actor hub [] = []
one_by_one policy actor hub (m ∷ messages) =
    read_one policy actor hub m (conversation_of hub m) (one_by_one policy actor hub messages)

-- `moderation_rights` answers for a message as for the conversation.
module _ (policy : Policy) (actor : ℕ) (hub : Hub)
    (same : (c : Conversation) (m : Message)
      → policy.moderation_rights actor c (some m) ≡ policy.moderation_rights actor c none) where
  read_status-single :
      (c : Conversation) (m : Message) (rest : List (ℕ × Entry))
      → keep_answer m.key (read_status policy actor c m hub) rest
        ≡ (if policy.can_view actor c then single policy actor hub (c, m) ∷ rest else rest)
  unfolding read_status
  read_status-single c m rest = elim (Bool-cases (policy.can_view actor c)) [
    | inl t ↦
        rw (t, same c m, status_of-entry_of c (policy.moderation_rights actor c none) m hub) refl
    | inr f ↦ rw f refl
  ]

  one_by_one-singles :
      (messages : List Message)
      → one_by_one policy actor hub messages
        ≡ singles policy actor hub (viewable policy actor hub messages)
  unfolding one_by_one viewable
  one_by_one-singles [] = refl
  one_by_one-singles (m ∷ messages) =
      rw (one_by_one-singles messages) (one_more (conversation_of hub m))
    where
      one_more :
          (o : Option Conversation)
          → read_one policy actor hub m o
              (singles policy actor hub (viewable policy actor hub messages))
            ≡ singles policy actor hub
                (keep_viewable policy actor m o (viewable policy actor hub messages))
      one_more none = refl
      one_more (some c) =
          rw (read_status-single c m _)
            (elim (Bool-cases (policy.can_view actor c)) [ inl t ↦ rw t refl | inr f ↦ rw f refl ])

  viewable-IsRow :
      (messages : List Message) → All (λ e. IsRow hub e.0) (viewable policy actor hub messages)
  unfolding viewable conversation_of
  viewable-IsRow [] = tt
  viewable-IsRow (m ∷ messages) = one_more (conversation_of hub m) refl (viewable-IsRow messages)
    where
      row : (c : Conversation) → conversation_of hub m ≡ some c → IsRow hub c
      row c e =
          let passes : c.id == m.in_conversation ≡ true =
            first_where-passes _ hub.conversations e in
          let id : m.in_conversation ≡ c.id = ground arith in
          subst (λ (k : ℕ). first_where (λ d. d.id == k) hub.conversations ≡ some c) id e

      one_more :
          (o : Option Conversation)
          → conversation_of hub m ≡ o
          → All (λ e. IsRow hub e.0) (viewable policy actor hub messages)
          → All
              (λ e. IsRow hub e.0)
              (keep_viewable policy actor m o (viewable policy actor hub messages))
      one_more none e rows = rows
      one_more (some c) e rows = elim (Bool-cases (policy.can_view actor c)) [
        | inl t ↦ rw t (row c e, rows)
        | inr f ↦ rw f rows
      ]

  -- Where the policy grants an actor the same rights for a message as for its conversation, the batch
  -- of read states has, in some order, exactly the entries that reading the status of each message of
  -- the list on its own gives; a message whose reading is refused has none.
  pub batch_read_status-one_by_one :
      (ids : List ℕ)
      → Perm
          (batch_read_status policy actor ids hub)
          (one_by_one policy actor hub (select (λ m. member m.key ids) hub.messages))
  unfolding batch_read_status entries_of
  batch_read_status-one_by_one ids =
      let messages = select (λ m. member m.key ids) hub.messages in
      rw (one_by_one-singles messages) (
        subst (λ l. Perm (batch_read_status policy actor ids hub) l) (append-nil _)
          (entries_of-group policy actor hub (viewable policy actor hub messages) []
            (viewable-IsRow messages) tt))
