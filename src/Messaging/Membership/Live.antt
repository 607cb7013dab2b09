-- ===== src/Messaging/Membership/Live.antt =====
-- Who is a live member after a snapshot (messaging/services.py).
use mathlib.Core.List.{[]}
use django_core_micha.Messaging.Model.{publish, publish_to, Participant, publish_to}
use django_core_micha.Messaging.Membership.{
  admit, new_row, is_row, is_provider, restore, is_none, provider, admit_all, is_absent,
  reconcile_membership, publish, apply_snapshot, Policy, Snapshot, Conversation, Hub,
}
use django_core_micha.Base.{
  ℕ, Bool, not, List, any_where, all_where, ◌≡◌, ◌&&◌, true, ◌||◌, Bool-cases, inl,
  any_where-update_where, all_where-update_where, inr, any_where-append, all_where-append, arith,
  ◌∙◌, refl, all_where-made, ◌∷◌, member, all_where-none, true≢false, sym, ◌==◌, false, some,
  if◌then◌else◌, all_where-entails,
}

-- A row of this conversation and user that the provider made is live.
abbrev pub is_settled : ℕ → ℕ → Participant → Bool
is_settled conversation k p =
    not (is_row conversation k p && is_provider p.source) || is_none p.removed_at

restore-row :
    (conversation k : ℕ) (p : Participant)
    → is_row conversation k (restore p) ≡ is_row conversation k p
restore-row conversation k p = elim (Bool-cases (is_provider p.source)) [
  | inl t ↦ rw t refl
  | inr f ↦ rw f refl
]

restore-settled :
    (conversation k : ℕ) (p : Participant) → is_settled conversation k (restore p) ≡ true
restore-settled conversation k p = elim (Bool-cases (is_provider p.source)) [
  | inl t ↦ rw t (ground arith)
  | inr f ↦ rw (f, f) (ground arith)
]

module _ (conversation k : ℕ) where
  admit-keeps_row :
      (user : ℕ) (rows : List Participant)
      → any_where (is_row conversation k) rows ≡ true
      → any_where (is_row conversation k) (admit conversation rows user) ≡ true
  unfolding admit
  admit-keeps_row user rows h = elim (Bool-cases (any_where (is_row conversation user) rows)) [
    | inl t ↦
        rw
          (
            t,
            any_where-update_where (is_row conversation k) (is_row conversation user) restore rows
                (restore-row conversation k),
          )
          h
    | inr f ↦
        rw
          (f, any_where-append (is_row conversation k) rows (new_row conversation provider user), h)
          refl
  ]

  admit-keeps_settled :
      (user : ℕ) (rows : List Participant)
      → all_where (is_settled conversation k) rows ≡ true
      → all_where (is_settled conversation k) (admit conversation rows user) ≡ true
  unfolding admit new_row
  admit-keeps_settled user rows h = elim (Bool-cases (any_where (is_row conversation user) rows)) [
    | inl t ↦ rw t (
        all_where-update_where _ (is_row conversation user) restore rows
          (λ x e e'. restore-settled conversation k x) h)
    | inr f ↦ rw f (all_where-append _ rows (new_row conversation provider user) h (ground arith))
  ]

  admit-settles :
      (rows : List Participant)
      → (any_where (is_row conversation k) (admit conversation rows k) ≡ true)
        × (all_where (is_settled conversation k) (admit conversation rows k) ≡ true)
  unfolding admit new_row
  admit-settles rows = elim (Bool-cases (any_where (is_row conversation k) rows)) [
    | inl t ↦ rw t (
      any_where-update_where (is_row conversation k) (is_row conversation k) restore rows
            (restore-row conversation k)
          ∙ t,
      all_where-made _ (is_row conversation k) restore rows
          (λ x e. restore-settled conversation k x) (λ x e. rw e refl),
    )
    | inr f ↦ rw f (
      any_where-append (is_row conversation k) rows (new_row conversation provider k)
          ∙ ground arith,
      all_where-append _ rows (new_row conversation provider k)
          (all_where-none _ (is_row conversation k) rows (λ x e. rw e refl) f) (ground arith),
    )
  ]

  admit_all-keeps :
      (members : List ℕ) (rows : List Participant)
      → any_where (is_row conversation k) rows ≡ true
      → all_where (is_settled conversation k) rows ≡ true
      → (any_where (is_row conversation k) (admit_all conversation members rows) ≡ true)
        × (all_where (is_settled conversation k) (admit_all conversation members rows) ≡ true)
  unfolding admit_all
  admit_all-keeps [] rows row settled = (row, settled)
  admit_all-keeps (user ∷ members) rows row settled =
      admit_all-keeps members (admit conversation rows user) (admit-keeps_row user rows row)
        (admit-keeps_settled user rows settled)

  -- Every member has a row, and its row is live where it is the provider's.
  admit_all-settles :
      (members : List ℕ) (rows : List Participant)
      → member k members ≡ true
      → (any_where (is_row conversation k) (admit_all conversation members rows) ≡ true)
        × (all_where (is_settled conversation k) (admit_all conversation members rows) ≡ true)
  unfolding admit_all
  admit_all-settles [] rows h = absurd (true≢false (sym h))
  admit_all-settles (user ∷ members) rows h = elim (Bool-cases (user == k)) [
    | inl t ↦
        let same : user ≡ k = ground arith in
        rw same (
          let (row, settled) = admit-settles rows in
          admit_all-keeps members (admit conversation rows k) row settled)
    | inr f ↦ admit_all-settles members (admit conversation rows user) (rw f at h)
  ]

-- A row of this conversation and user that the provider made is live if and only if the user is a
-- member.
abbrev pub is_in_step : ℕ → List ℕ → ℕ → Participant → Bool
is_in_step conversation members k p =
    not (is_row conversation k p && is_provider p.source)
    || (if member k members then is_none p.removed_at else not (is_none p.removed_at))

removed-in_step :
    (conversation k now : ℕ) (members : List ℕ) (p : Participant)
    → member k members ≡ true
    → is_absent conversation members p ≡ true
    → is_settled conversation k p ≡ true
    → is_settled conversation k (record p { removed_at = some now }) ≡ true
removed-in_step conversation k now members p m absent settled = elim (Bool-cases (p.user == k)) [
  | inl t ↦
      let same : p.user ≡ k = ground arith in
      let no : not (member k members) ≡ true =
        rw same at (is_absent-user conversation members p absent) in
      absurd (true≢false (sym (rw m at no)))
  | inr f ↦ ground arith
]
  where
    is_absent-user :
        (conversation : ℕ) (members : List ℕ) (p : Participant)
        → is_absent conversation members p ≡ true
        → not (member p.user members) ≡ true
    is_absent-user conversation members p h = ground arith

present-in_step :
    (conversation k : ℕ) (members : List ℕ) (p : Participant)
    → member k members ≡ false
    → is_absent conversation members p ≡ false
    → (not (is_row conversation k p && is_provider p.source) || not (is_none p.removed_at)) ≡ true
present-in_step conversation k members p m present = elim (Bool-cases (p.user == k)) [
  | inl t ↦
      let same : p.user ≡ k = ground arith in
      let out : member p.user members ≡ false = rw same m in ground arith
  | inr f ↦ ground arith
]

-- After a snapshot that removes absent users, the rows of any user that the provider made in the
-- conversation are live if and only if the user is a member; and every member has a row.
pub reconcile_membership-live :
    (policy : Policy) (s : Snapshot) (c : Conversation) (now : ℕ) (hub : Hub) (k : ℕ)
    → s.remove_absent ≡ true
    → let rows = (reconcile_membership policy s c now hub).participants in
      (all_where (is_in_step c.id s.members k) rows ≡ true)
      × ((not (member k s.members) || any_where (is_row c.id k) rows) ≡ true)
unfolding reconcile_membership publish publish_to apply_snapshot
reconcile_membership-live policy s c now hub k removes =
    let admitted = admit_all c.id s.members hub.participants in
    let gone : Participant → Participant = λ p. record p { removed_at = some now } in
    elim (Bool-cases (member k s.members)) [
      | inl t ↦
          let (row, settled) = admit_all-settles c.id k s.members hub.participants t in
          rw (removes, t)
            (
              all_where-entails (is_settled c.id k) _ _ (λ x e. rw t e)
                  (all_where-update_where _ (is_absent c.id s.members) gone admitted
                    (λ x e e'. removed-in_step c.id k now s.members x t e e') settled),
              any_where-update_where (is_row c.id k) (is_absent c.id s.members) gone admitted
                    (λ x. refl)
                  ∙ row,
            )
      | inr f ↦
          rw (removes, f)
            (
              all_where-made _ (is_absent c.id s.members) gone admitted (λ x e. rw f (ground arith))
                  (λ x e. rw f (present-in_step c.id k s.members x f e)),
              refl,
            )
    ]
