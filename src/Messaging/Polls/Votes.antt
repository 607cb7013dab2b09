-- ===== src/Messaging/Polls/Votes.antt =====
-- The votes of a poll after a vote (messaging/services.py).
use django_core_micha.Messaging.Model.{denied, invalid}
use django_core_micha.Messaging.Polls.{
  cast_votes, add_votes, has_vote, PollVote, PollOption, chosen, is_option, is_retracted, vote_poll,
  Policy, Conversation, Poll, Board, publish, may_enter,
}
use django_core_micha.Base.{
  is_none, if◌then◌else◌, ℕ, List, Bool, ◌≡◌, any_where, ◌++◌, delete_where, ◌||◌, ◌==◌, ◌∷◌, [],
  ◌&&◌, not, arith, member, refl, true, Bool-cases, sym, inl, ap, inr, ◌∙◌, false, returns, length,
  RaisesOr-returns, none, RaisesOr-if, distinct_count, subst,
}

-- Deleting by a test that reads an option and a user.
has_vote-delete_where :
    (option user : ℕ) (d : PollVote → Bool) (votes : List PollVote)
    → has_vote option user (delete_where d votes)
      ≡ (has_vote option user votes && not (d (record { for_option = option; voter = user })))
unfolding has_vote
has_vote-delete_where option user d [] = refl
has_vote-delete_where option user d (v ∷ votes) = elim (Bool-cases (d v)) [
  | inl t ↦ rw t (rw (has_vote-delete_where option user d votes) (deleted t))
  | inr f ↦ rw f (rw (has_vote-delete_where option user d votes) (kept f))
]
  where
    is_it : Bool
    is_it = v.for_option == option && v.voter == user

    at_vote : is_it ≡ true → v ≡ record { for_option = option; voter = user }
    at_vote e =
        let o : v.for_option ≡ option = ground arith in
        let u : v.voter ≡ user = ground arith in rw (sym o, sym u) refl

    deleted :
        d v ≡ true
        → (has_vote option user votes && not (d (record { for_option = option; voter = user }))) ≡ (
            (is_it || has_vote option user votes)
            && not (d (record { for_option = option; voter = user })))
    deleted t = elim (Bool-cases is_it) [
      | inl e ↦ rw e (rw (ap d (sym (at_vote e)) ∙ t) (ground arith))
      | inr e ↦ rw e refl
    ]

    kept :
        d v ≡ false
        → (is_it
            || (has_vote option user votes
                && not (d (record { for_option = option; voter = user }))))
          ≡ ((is_it || has_vote option user votes)
              && not (d (record { for_option = option; voter = user })))
    kept f = elim (Bool-cases is_it) [
      | inl e ↦ rw e (rw (ap d (sym (at_vote e)) ∙ f) refl)
      | inr e ↦ rw e refl
    ]

has_vote-append :
    (option user k w : ℕ) (votes : List PollVote)
    → has_vote option user (votes ++ (record { for_option = k; voter = w }) ∷ [])
      ≡ (has_vote option user votes || (k == option && w == user))
unfolding has_vote
has_vote-append option user k w [] = ground arith
has_vote-append option user k w (v ∷ votes) =
    rw (has_vote-append option user k w votes) (ground arith)

has_vote-add_votes :
    (option user actor : ℕ) (options : List PollOption) (votes : List PollVote)
    → has_vote option user (add_votes actor options votes) ≡ (
        has_vote option user votes
        || (actor == user && any_where (λ o. o.option_key == option) options))
unfolding add_votes
has_vote-add_votes option user actor [] votes = ground arith
has_vote-add_votes option user actor (o ∷ options) votes =
    elim (Bool-cases (has_vote o.option_key actor votes)) [
      | inl t ↦ rw t (rw (has_vote-add_votes option user actor options votes) (already t))
      | inr f ↦ rw f (
          rw
            (
              has_vote-add_votes option user actor options
                  (votes ++ (record { for_option = o.option_key; voter = actor }) ∷ []),
              has_vote-append option user o.option_key actor votes,
            )
            (ground arith))
    ]
  where
    already :
        has_vote o.option_key actor votes ≡ true
        → (has_vote option user votes
            || (actor == user && any_where (λ x. x.option_key == option) options))
          ≡ (has_vote option user votes
              || (actor == user
                  && (o.option_key == option || any_where (λ x. x.option_key == option) options)))
    already t = elim (Bool-cases (actor == user && o.option_key == option)) [
      | inl e ↦
          let k : o.option_key ≡ option = ground arith in
          let u : actor ≡ user = ground arith in
          let had : has_vote option user votes ≡ true = rw k at (rw u at t) in rw had refl
      | inr e ↦ ground arith
    ]

any_where-chosen :
    (poll k : ℕ) (ids : List ℕ) (options : List PollOption)
    → any_where (λ o. o.option_key == k) (chosen poll ids options)
      ≡ (is_option poll options k && member k ids)
any_where-chosen poll k ids [] = refl
any_where-chosen poll k ids (o ∷ options) =
    elim (Bool-cases (o.of_poll == poll && member o.option_key ids)) [
      | inl t ↦ rw t (rw (any_where-chosen poll k ids options) (matching t))
      | inr f ↦ rw f (rw (any_where-chosen poll k ids options) (passing f))
    ]
  where
    matching :
        (o.of_poll == poll && member o.option_key ids) ≡ true
        → (o.option_key == k || (is_option poll options k && member k ids))
          ≡ (((o.option_key == k && o.of_poll == poll) || is_option poll options k) && member k ids)
    matching t = elim (Bool-cases (o.option_key == k)) [
      | inl e ↦
          let same : o.option_key ≡ k = ground arith in
          let wanted : (o.of_poll == poll && member k ids) ≡ true = rw same at t in ground arith
      | inr e ↦ ground arith
    ]

    passing :
        (o.of_poll == poll && member o.option_key ids) ≡ false
        → (is_option poll options k && member k ids)
          ≡ (((o.option_key == k && o.of_poll == poll) || is_option poll options k) && member k ids)
    passing f = elim (Bool-cases (o.option_key == k)) [
      | inl e ↦
          let same : o.option_key ≡ k = ground arith in
          let unwanted : (o.of_poll == poll && member k ids) ≡ false = rw same at f in ground arith
      | inr e ↦ ground arith
    ]

cast_votes-exact :
    (actor poll : ℕ) (ids : List ℕ) (options : List PollOption) (votes : List PollVote) (k user : ℕ)
    → has_vote k user (cast_votes actor poll ids options votes)
      ≡ (if actor == user && is_option poll options k then member k ids else has_vote k user votes)
unfolding cast_votes
cast_votes-exact actor poll ids options votes k user =
    rw
      (
        has_vote-add_votes k user actor (chosen poll ids options)
            (delete_where (is_retracted actor poll ids options) votes),
        has_vote-delete_where k user (is_retracted actor poll ids options) votes,
        any_where-chosen poll k ids options,
      )
      (ground arith)

-- If a vote in a poll returns, then the actor has afterwards, among the options of the poll, exactly
-- the votes for the requested options; the votes of other users and for the options of other polls
-- are as before.
pub vote_poll-votes :
    (policy : Policy) (actor : ℕ) (c : Conversation) (poll : Poll) (ids : List ℕ) (b : Board)
    (p : Poll) (b' : Board) (k user : ℕ)
    → vote_poll policy actor c poll ids b ≡ (returns p, b')
    → has_vote k user b'.votes ≡ (
        if actor == user && is_option poll.poll_key b.options k
        then member k ids
        else has_vote k user b.votes)
unfolding vote_poll
vote_poll-votes policy actor c poll ids b p b' k user h =
    let found = length (chosen poll.poll_key ids b.options) in
    let (_, same) =
      RaisesOr-returns b poll
        (record b {
          votes = cast_votes actor poll.poll_key ids b.options b.votes;
          hub = publish policy c none "poll_updated" poll.poll_key b.hub;
        })
        (vote_poll policy actor c poll ids b)
        (RaisesOr-if (not (may_enter policy actor c b.hub)) denied b _ _ (
          RaisesOr-if (not (is_none poll.closed_at)) invalid b _ _ (
            RaisesOr-if
              (not (found == distinct_count ids) || (not poll.allow_multiple && not (found == 1)))
              invalid b _ _ (inr refl))))
        h in
    subst
      (λ (x : Board). has_vote k user x.votes ≡ (
        if actor == user && is_option poll.poll_key b.options k
        then member k ids
        else has_vote k user b.votes))
      same (cast_votes-exact actor poll.poll_key ids b.options b.votes k user)
