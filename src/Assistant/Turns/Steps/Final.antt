-- ===== src/Assistant/Turns/Steps/Final.antt =====
-- A turn ends once (assistant/turns.py).
use django_core_micha.Assistant.Turns.Create.{AtMostAdds, enter_chat-AtMostAdds}
use django_core_micha.Assistant.Turns.Finish.{finish_found, finish, finish_row}
use django_core_micha.Assistant.Turns.{
  reconcile_interrupted, Option, delete_turn, [], some, beat, not, none, is_running, is_given_up,
  interrupt, true,
}
use django_core_micha.Assistant.Model.{Turn, is_generating, Room}
use mathlib.Core.List.Memᴰ
use mathlib.Core.List.{Memᴰ}
use django_core_micha.Base.{
  ℕ, ◌≡◌, List, ◌∷◌, Bool-cases, inl, inr, Memᴰ-update_where, Memᴰ-update_first, first_where, ◌≢◌,
  ap, arith, Memᴰ-delete_where, ◌==◌, true≢false, sym, ◌∙◌, refl,
}
use django_core_micha.Assistant.Turns.Steps.{
  Step, Reach, Bool, false, PriceTable, step, Ending, done, created, dropped, beaten, finished,
  reconciled,
}

not_dropped :
    (may_drop : ℕ → Bool) (k j : ℕ) → may_drop j ≡ false → may_drop k ≡ true → (j == k) ≡ false
not_dropped may_drop k j stays e = elim (Bool-cases (j == k)) [
  | inl same ↦ let eq : j ≡ k = ground arith in absurd (true≢false (sym e ∙ (rw eq at stays)))
  | inr f ↦ f
]

module _ (t : Turn) (over : is_generating t.state ≡ false) where
  added-final : (turns turns' : List Turn) → AtMostAdds turns turns' → Memᴰ t turns → Memᴰ t turns'
  added-final turns turns' (inl same) m = rw same m
  added-final turns turns' (inr (u, (idle, one_more))) m = rw one_more (Memᴰ.append_left (u ∷ []) m)

  not_running : (u : Turn) → is_generating u.state ≡ true → t ≢ u
  not_running u running same =
      true≢false (sym running ∙ (ap (λ v. is_generating v.state) (sym same) ∙ over))

  finish_found-final :
      (table : PriceTable) (k : ℕ) (e : Ending) (now : ℕ) (room : Room) (o : Option Turn)
      → first_where (λ u. u.turn_key == k) room.turns ≡ o
      → Memᴰ t room.turns
      → Memᴰ t (finish_found table k e now room o).1.turns
  finish_found-final table k e now room none found m = m
  finish_found-final table k e now room (some u) found m =
      elim (Bool-cases (not (is_generating u.state))) [
        | inl h ↦ rw h m
        | inr f ↦ rw f (
            Memᴰ-update_first (λ v. v.turn_key == k) (finish_row table now e) room.turns t u found
              (not_running u (ground arith)) m)
      ]

  Step-final :
      (may_drop : ℕ → Bool) {room room' : Room}
      → may_drop t.turn_key ≡ false
      → Step may_drop room room'
      → Memᴰ t room.turns
      → Memᴰ t room'.turns
  unfolding reconcile_interrupted delete_turn beat finish
  Step-final may_drop stays (created {room} site limits can_view over_quota chat user message now)
        m =
      added-final _ _
        (enter_chat-AtMostAdds site limits can_view over_quota user message now room _) m
  Step-final may_drop stays (dropped {room} k e) m =
      Memᴰ-delete_where (λ u. u.turn_key == k) room.turns t
        (not_dropped may_drop k t.turn_key stays e) m
  Step-final may_drop stays (beaten {room} k now) m =
      Memᴰ-update_where (is_running k) (λ u. record u { heartbeat_at = some now }) room.turns t
        (rw over (ground arith)) m
  Step-final may_drop stays (finished {room} table k e now ends) m =
      finish_found-final table k e now room _ refl m
  Step-final may_drop stays (reconciled {room} limits chat everything now) m =
      Memᴰ-update_where (is_given_up limits chat everything now) (interrupt now) room.turns t
        (rw over refl) m

-- In every run of the transactions, a turn that has ended stays as it is, with its text, state, error,
-- usage and cost, unless the start that created it may still delete it.
pub Reach-final :
    (may_drop : ℕ → Bool) (room room' : Room) (t : Turn)
    → is_generating t.state ≡ false
    → may_drop t.turn_key ≡ false
    → Memᴰ t room.turns
    → Reach may_drop room room'
    → Memᴰ t room'.turns
Reach-final may_drop room room' t over stays m done = m
Reach-final may_drop room room' t over stays m (step s r) =
    Reach-final may_drop _ room' t over stays (Step-final t over may_drop stays s m) r
