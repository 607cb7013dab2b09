-- ===== src/Assistant/Turns/Create.antt =====
-- What starting a turn does to the table of turns (assistant/turns.py).
use mathlib.Core.Option.{none}
use mathlib.Core.Bool.{true}
use django_core_micha.Assistant.Catalogue.{Site, validate}
use django_core_micha.Assistant.Turns.{
  admit_turn, Turn, Refused, Limits, Room, Chat, enter_chat, runs_in, some, is_active, access_lost,
  new_turn, archived, invalid_selection, select_entry, quota_exceeded, turn_active, is_by,
  rate_limited,
}
use django_core_micha.Base.{
  ℕ, List, Bool, ◌≡◌, String, ◌⊎◌, Fallible, Option, any_where, false, inl, if◌then◌else◌, raises,
  select, not, ◌++◌, ◌∷◌, [], is_none, refl, leb, length, ◌||◌, count_where, inr,
}

-- The table is as before, or it has one row more, and no turn of the row's chat was running.
abbrev pub AtMostAdds : List Turn → List Turn → Type 0
AtMostAdds turns turns' =
    (turns' ≡ turns)
    ⊎ ((t : Turn) × ((any_where (runs_in t.chat) turns ≡ false) × (turns' ≡ turns ++ t ∷ [])))

-- A refusal leaves the table alone.
AtMostAdds-if :
    (b : Bool) (e : Refused) (room : Room) (call : Fallible Refused Turn × Room)
    → (b ≡ false → AtMostAdds room.turns call.1.turns)
    → AtMostAdds room.turns (if b then (raises e, room) else call).1.turns
AtMostAdds-if true e room call adds = inl refl
AtMostAdds-if false e room call adds = adds refl

admit_turn-AtMostAdds :
    (site : Site) (limits : Limits) (over_quota : Bool) (user : ℕ) (message : String) (now : ℕ)
    (room : Room) (o : Option Chat)
    → AtMostAdds room.turns (admit_turn site limits over_quota user message now room o).1.turns
unfolding admit_turn
admit_turn-AtMostAdds site limits over_quota user message now room none = inl refl
admit_turn-AtMostAdds site limits over_quota user message now room (some c) =
    let active = select (is_active limits now) room.turns in
    let t = new_turn c user message now room in
    AtMostAdds-if (is_none (validate site c.selected_driver c.selected_model c.selected_effort))
      invalid_selection room _
      (λ e. AtMostAdds-if over_quota quota_exceeded room _ (λ e.
        AtMostAdds-if (any_where (runs_in c.key) room.turns) turn_active room _ (λ idle.
          AtMostAdds-if
            (leb limits.max_concurrent_turns (length active)
              || leb limits.max_turns_per_user (count_where (is_by room.chats user) active))
            rate_limited room _ (λ e. inr (t, (idle, refl))))))

pub enter_chat-AtMostAdds :
    (site : Site) (limits : Limits) (can_view : ℕ → Chat → Bool) (over_quota : Bool) (user : ℕ)
    (message : String) (now : ℕ) (room : Room) (o : Option Chat)
    → AtMostAdds room.turns
        (enter_chat site limits can_view over_quota user message now room o).1.turns
enter_chat-AtMostAdds site limits can_view over_quota user message now room none = inl refl
enter_chat-AtMostAdds site limits can_view over_quota user message now room (some c) =
    AtMostAdds-if (not (can_view user c)) access_lost room _ (λ e.
      AtMostAdds-if (not (is_none c.archived_at)) archived room _ (λ e.
        admit_turn-AtMostAdds site limits over_quota user message now room
          (select_entry site user c)))
