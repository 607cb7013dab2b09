-- ===== src/Assistant/Catalogue.antt =====
-- The model catalogue of the assistant (assistant/catalogue.py). The settings, the answers of the
-- hooks and of the availability check, and the admin's stored choices are the fields of a site.
use mathlib.Core.List.{[]}
use Prim.Native.String.{◌++◌ as join_text, String, ◌∷◌, []}
use django_core_micha.Base.{
  ℕ, List, Option, Bool, some, lookup, not, ◌&&◌, select, none, first_where, ◌∷◌, if◌then◌else◌,
  contains, str_eq,
}

pub record Entry : Type 0 where
  pub driver : String
  pub model : String
  pub efforts : List String
  pub level : Option String
  pub is_default : Bool

-- `allowed` is the hook ENTRY_ALLOWED, which answers false where it fails.
pub record Site : Type 0 where
  pub entries : List Entry
  pub disabled_entries : List String
  pub is_available : String → Bool
  pub allowed : ℕ → Entry → Bool
  pub stored_default : String
  pub default_level : String
  pub model_levels : List (String × String)

unfoldable pub entry_id : Entry → String
entry_id row = join_text row.driver (join_text ":" row.model)

-- `DEFAULT_LEVELS`
abbrev pub default_levels : List (String × String)
default_levels =
    ("claude-fable-5-1", "top")
    ∷ ("gpt-6-astra", "top")
    ∷ ("claude-opus-5-5", "best")
    ∷ ("claude-sonnet-5-5", "balanced")
    ∷ ("gpt-6.1-sol", "balanced")
    ∷ ("claude-haiku-5-5", "fast")
    ∷ ("gpt-6-luna", "fast")
    ∷ []

abbrev pub or_else {ℓ} : {A : Type ℓ} → Option A → A → A
or_else none a = a
or_else (some b) a = b

unfoldable pub model_level : Site → Entry → String
model_level site row =
    let value : String = or_else row.level (
      or_else (lookup row.model site.model_levels)
        (or_else (lookup row.model default_levels) "balanced")) in
    if contains value ("top" ∷ "best" ∷ "balanced" ∷ "fast" ∷ []) then value else "balanced"

unfoldable pub entry_enabled : Site → Entry → Bool
entry_enabled site row = not (contains (entry_id row) site.disabled_entries)

unfoldable pub entry_usable : Site → ℕ → Entry → Bool
entry_usable site user row =
    entry_enabled site row && site.is_available row.driver && site.allowed user row

unfoldable pub usable_entries : Site → ℕ → List Entry
usable_entries site user = select (entry_usable site user) site.entries

abbrev pub first : List Entry → Option Entry
first [] = none
first (row ∷ rows) = some row

abbrev pub or_option {ℓ} : {A : Type ℓ} → Option A → Option A → Option A
or_option (some a) o = some a
or_option none o = o

-- The first entry of the default level, else the first default, else the first.
unfoldable pub by_level : Site → List Entry → Option Entry
by_level site rows =
    or_option (first_where (λ row. str_eq (model_level site row) site.default_level) rows)
      (or_option (first_where (λ row. row.is_default) rows) (first rows))

-- `default_entry(user)`: the stored default where it is usable.
unfoldable pub default_entry : Site → Option ℕ → Option Entry
default_entry site none = by_level site site.entries
default_entry site (some user) =
    let rows = usable_entries site user in
    if str_eq site.stored_default ""
    then by_level site rows
    else or_option (first_where (λ row. str_eq (entry_id row) site.stored_default) rows)
        (by_level site rows)

unfoldable pub entry_by_id : Site → String → Option Entry
entry_by_id site value = first_where (λ row. str_eq (entry_id row) value) site.entries

-- The efforts of an entry, "medium" where it lists none, and the effort that is taken of them.
abbrev pub effort_of : List String → String → String
effort_of [] effort = "medium"
effort_of (first ∷ efforts) effort = if contains effort (first ∷ efforts) then effort else first

unfoldable pub selection_of : Entry → String → String × String
selection_of row effort = (entry_id row, effort_of row.efforts effort)

-- `validate(driver, model, effort)`: the entry, or the error that there is none.
unfoldable pub validate : Site → String → String → String → Option Entry
validate site driver model effort =
    first_where
      (λ row. str_eq row.driver driver && str_eq row.model model && contains effort row.efforts)
      site.entries
