-- ===== src/Assistant/Turns/Entries.antt =====
-- The entry that a turn runs on (assistant/catalogue.py, assistant/turns.py).
use django_core_micha.Assistant.Model.{Chat}
use django_core_micha.Assistant.Turns.{select_entry, join_text, fall_back, keep_selection}
use mathlib.Core.List.{[]}
use mathlib.Core.Option.{none, some-injective}
use django_core_micha.Assistant.Catalogue.{
  default_entry, Entry, or_option, by_level, first, usable_entries, Site, entry_usable, model_level,
  entry_id, entry_enabled, entry_by_id,
}
use django_core_micha.Base.{
  ℕ, Bool, Option, List, first_where, ◌≡◌, select, some, true, none-ne-some, Bool-cases, sym,
  str_eq, ◌∷◌, inl, subst, inr, String, contains, false, ◌||◌, arith, if◌then◌else◌, eq_iff, refl,
}
use django_core_micha.Base.Tables.{first_where-passes}

-- What is found among selected rows was selected.
first_where-select {ℓ} :
    {A : Type ℓ} (p q : A → Bool) (rows : List A) {x : A}
    → first_where p (select q rows) ≡ some x
    → q x ≡ true
first_where-select p q [] {x} h = absurd (none-ne-some x (sym h))
first_where-select p q (y ∷ rows) {x} h =
    let rest : first_where p (select q rows) ≡ some x → q x ≡ true =
      λ e. first_where-select p q rows e in
    elim (Bool-cases (q y)) [
      | inl t ↦ elim (Bool-cases (p y)) [
        | inl s ↦ subst (λ z. q z ≡ true) (some-injective y x (rw s at (rw t at h))) t
        | inr f ↦ rest (rw f at (rw t at h))
      ]
      | inr f ↦ rest (rw f at h)
    ]

first-select :
    (q : Entry → Bool) (rows : List Entry) {x : Entry} → first (select q rows) ≡ some x → q x ≡ true
first-select q [] {x} h = absurd (none-ne-some x (sym h))
first-select q (y ∷ rows) {x} h = elim (Bool-cases (q y)) [
  | inl t ↦ subst (λ z. q z ≡ true) (some-injective y x (rw t at h)) t
  | inr f ↦ first-select q rows (rw f at h)
]

or_option-cases {ℓ κ} :
    {A : Type ℓ} (P : A → Type κ) (o o' : Option A) {x : A}
    → or_option o o' ≡ some x
    → ((y : A) → o ≡ some y → P y)
    → ((y : A) → o' ≡ some y → P y)
    → P x
or_option-cases P none o' h f g = g _ h
or_option-cases P (some y) o' h f g = f _ h

by_level-usable :
    (site : Site) (user : ℕ) {row : Entry}
    → by_level site (usable_entries site user) ≡ some row
    → entry_usable site user row ≡ true
unfolding by_level usable_entries
by_level-usable site user {row} h =
    let Usable : Entry → Type 0 = λ y. entry_usable site user y ≡ true in
    let level : Entry → Bool = λ y. str_eq (model_level site y) site.default_level in
    let rows = select (entry_usable site user) site.entries in
    or_option-cases Usable (first_where level rows)
      (or_option (first_where (λ y. y.is_default) rows) (first rows)) h
      (λ y e. first_where-select level (entry_usable site user) site.entries e)
      (λ y e.
        or_option-cases Usable (first_where (λ z. z.is_default) rows) (first rows) e
          (λ z e. first_where-select (λ z. z.is_default) (entry_usable site user) site.entries e)
          (λ z e. first-select (entry_usable site user) site.entries e))

default_entry-usable :
    (site : Site) (user : ℕ) {row : Entry}
    → default_entry site (some user) ≡ some row
    → entry_usable site user row ≡ true
unfolding default_entry usable_entries
default_entry-usable site user {row} h =
    let stored : Entry → Bool = λ y. str_eq (entry_id y) site.stored_default in
    elim (Bool-cases (str_eq site.stored_default "")) [
      | inl t ↦ by_level-usable site user (rw t at h)
      | inr f ↦
          or_option-cases (λ y. entry_usable site user y ≡ true)
            (first_where stored (usable_entries site user))
            (by_level site (usable_entries site user)) (rw f at h)
            (λ y e. first_where-select stored (entry_usable site user) site.entries e)
            (λ y e. by_level-usable site user e)
    ]

-- The key of the entry that a chat has selected.
abbrev pub selected_id : Chat → String
selected_id c = join_text c.selected_driver (join_text ":" c.selected_model)

enabled-contains :
    (site : Site) (row : Entry)
    → entry_enabled site row ≡ true
    → contains (entry_id row) site.disabled_entries ≡ false
unfolding entry_enabled
enabled-contains site row h = ground arith

usable-enabled :
    (site : Site) (user : ℕ) (row : Entry)
    → entry_usable site user row ≡ true
    → entry_enabled site row ≡ true
unfolding entry_usable
usable-enabled site user row h = ground arith

fall_back-enabled :
    (site : Site) (c c' : Chat) (o : Option Entry)
    → ((row : Entry) → o ≡ some row → entry_enabled site row ≡ true)
    → fall_back c o ≡ some c'
    → contains (selected_id c') site.disabled_entries ≡ false
unfolding entry_id
fall_back-enabled site c c' none enabled h = absurd (none-ne-some c' (sym h))
fall_back-enabled site c c' (some row) enabled h =
    subst (λ d. contains (selected_id d) site.disabled_entries ≡ false) (some-injective _ c' h)
      (enabled-contains site row (enabled row refl))

keep_selection-enabled :
    (site : Site) (c c' : Chat) (o fallback : Option Entry)
    → ((row : Entry) → o ≡ some row → entry_id row ≡ selected_id c)
    → ((row : Entry) → fallback ≡ some row → entry_enabled site row ≡ true)
    → keep_selection site c o fallback ≡ some c'
    → contains (selected_id c') site.disabled_entries ≡ false
keep_selection-enabled site c c' none fallback selected enabled h =
    fall_back-enabled site c c' fallback enabled h
keep_selection-enabled site c c' (some row) fallback selected enabled h =
    elim (Bool-cases (entry_enabled site row)) [
      | inl t ↦
          subst (λ d. contains (selected_id d) site.disabled_entries ≡ false)
            (some-injective c c' (rw t at h))
            (rw (selected row refl) at (enabled-contains site row t))
      | inr f ↦ fall_back-enabled site c c' fallback enabled (rw f at h)
    ]

selected-entry_id :
    (site : Site) (c : Chat) (b : Bool) (row : Entry)
    → (if b then none else entry_by_id site (selected_id c)) ≡ some row
    → entry_id row ≡ selected_id c
unfolding entry_by_id
selected-entry_id site c true row h = absurd (none-ne-some row (sym h))
selected-entry_id site c false row h =
    (eq_iff _ _).0 (first_where-passes (λ y. str_eq (entry_id y) (selected_id c)) site.entries h)

-- If a chat gets an entry for a turn, then the admin has not disabled this entry, be it the chat's own
-- selection or the default that replaces it.
pub select_entry-enabled :
    (site : Site) (user : ℕ) (c c' : Chat)
    → select_entry site user c ≡ some c'
    → contains (selected_id c') site.disabled_entries ≡ false
unfolding select_entry
select_entry-enabled site user c c' h =
    keep_selection-enabled site c c' _ (default_entry site (some user))
      (selected-entry_id site c (str_eq c.selected_driver "" || str_eq c.selected_model ""))
      (λ row e. usable-enabled site user row (default_entry-usable site user e)) h
