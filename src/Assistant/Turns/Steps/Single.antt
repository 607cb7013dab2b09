-- ===== src/Assistant/Turns/Steps/Single.antt =====
-- At most one turn of a chat is being generated (assistant/turns.py).
use django_core_micha.Assistant.Turns.Create.{AtMostAdds, enter_chat-AtMostAdds}
use django_core_micha.Assistant.Turns.Steps.{
  Step, Reach, created, step, done, dropped, beaten, finished, reconciled,
}
use mathlib.Core.Option.{none}
use django_core_micha.Assistant.Prices.{PriceTable}
use django_core_micha.Assistant.Model.{Turn, Room, is_generating}
use django_core_micha.Assistant.Turns.Finish.{finish_row, Ending, finish, finish_found}
use django_core_micha.Assistant.Turns.{
  count_where, reconcile_interrupted, runs_in, true, delete_turn, false, Option, beat, update_where,
  some, is_running, not, List, is_given_up, interrupt,
}
use django_core_micha.Base.{
  inl, inr, ℕ, Bool, ◌≡◌, ◌≤◌, count_where-update_where, arith, Bool-cases, ◌==◌, count_where-none,
  count_where-append, count_where-delete_where, count_where-update_first, update_first,
}

abbrev pub IsSingle : Room → Type 0
IsSingle room = (chat : ℕ) → count_where (runs_in chat) room.turns ≤ 1

-- An update that starts no turn.
update-IsSingle :
    (q : Turn → Bool) (f : Turn → Turn) (turns : List Turn)
    → ((chat : ℕ) (t : Turn) → q t ≡ true → runs_in chat t ≡ false → runs_in chat (f t) ≡ false)
    → ((chat : ℕ) → count_where (runs_in chat) turns ≤ 1)
    → (chat : ℕ) → count_where (runs_in chat) (update_where q f turns) ≤ 1
update-IsSingle q f turns starts single chat =
    let fewer = count_where-update_where (runs_in chat) q f turns (starts chat) in
    let one = single chat in omega arith

update_first-IsSingle :
    (q : Turn → Bool) (f : Turn → Turn) (turns : List Turn)
    → ((chat : ℕ) (t : Turn) → runs_in chat t ≡ false → runs_in chat (f t) ≡ false)
    → ((chat : ℕ) → count_where (runs_in chat) turns ≤ 1)
    → (chat : ℕ) → count_where (runs_in chat) (update_first q f turns) ≤ 1
update_first-IsSingle q f turns starts single chat =
    let fewer = count_where-update_first (runs_in chat) q f turns (starts chat) in
    let one = single chat in omega arith

added-IsSingle :
    (turns turns' : List Turn)
    → AtMostAdds turns turns'
    → ((chat : ℕ) → count_where (runs_in chat) turns ≤ 1)
    → (chat : ℕ) → count_where (runs_in chat) turns' ≤ 1
added-IsSingle turns turns' (inl same) single chat = rw same (single chat)
added-IsSingle turns turns' (inr (t, (idle, one_more))) single chat =
    rw (one_more, count_where-append (runs_in chat) turns t)
      (elim (Bool-cases (t.chat == chat)) [
        | inl e ↦
            let same : t.chat ≡ chat = ground arith in
            let nothing : count_where (runs_in chat) turns ≡ 0 =
              rw same at (count_where-none (runs_in t.chat) turns idle) in
            rw nothing (ground arith)
        | inr f ↦ let one = single chat in rw f (ground arith)
      ])

finish_found-IsSingle :
    (table : PriceTable) (k : ℕ) (e : Ending) (now : ℕ) (room : Room) (o : Option Turn)
    → is_generating e.end_state ≡ false
    → IsSingle room
    → IsSingle (finish_found table k e now room o).1
unfolding finish_row
finish_found-IsSingle table k e now room none over single = single
finish_found-IsSingle table k e now room (some t) over single =
    elim (Bool-cases (not (is_generating t.state))) [
      | inl h ↦ rw h single
      | inr f ↦ rw f (
          update_first-IsSingle (λ u. u.turn_key == k) (finish_row table now e) room.turns ended
            single)
    ]
  where
    ended :
        (chat : ℕ) (t : Turn)
        → runs_in chat t ≡ false
        → runs_in chat (finish_row table now e t) ≡ false
    ended chat t f = rw over (ground arith)

Step-IsSingle :
    {may_drop : ℕ → Bool} {room room' : Room}
    → Step may_drop room room'
    → IsSingle room
    → IsSingle room'
unfolding reconcile_interrupted delete_turn beat finish
Step-IsSingle (created {room} site limits can_view over_quota chat user message now) single =
    added-IsSingle _ _
      (enter_chat-AtMostAdds site limits can_view over_quota user message now room _) single
Step-IsSingle (dropped {room} k e) single = λ chat.
    let fewer = count_where-delete_where (runs_in chat) (λ t. t.turn_key == k) room.turns in
    let one = single chat in omega arith
Step-IsSingle (beaten {room} k now) single =
    update-IsSingle (is_running k) (λ t. record t { heartbeat_at = some now }) room.turns
      (λ c t e f. f) single
Step-IsSingle (finished {room} table k e now over) single =
    finish_found-IsSingle table k e now room _ over single
Step-IsSingle (reconciled {room} limits chat everything now) single =
    update-IsSingle (is_given_up limits chat everything now) (interrupt now) room.turns
      (λ c t e f. ground arith) single

-- In every run of the transactions, however the processes interleave them, each chat has at most one
-- turn that is being generated, if it was so at the start of the run.
pub Reach-IsSingle :
    (may_drop : ℕ → Bool) (room room' : Room)
    → Reach may_drop room room'
    → IsSingle room
    → IsSingle room'
Reach-IsSingle may_drop room room' done single = single
Reach-IsSingle may_drop room room' (step s r) single =
    Reach-IsSingle may_drop _ room' r (Step-IsSingle s single)
