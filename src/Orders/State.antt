-- ===== src/Orders/State.antt =====
-- shared/mezna_shared/order_state.py: the states of an order and the moves between them.
pub mod Lifecycle
use messiah_fx_prod.Prelude.{
  ℕ, String, Bool, false, Option, none, some, List, [], ◌∷◌, ◌=ˢ◌, if◌then◌else◌,
}
use messiah_fx_prod.Prelude.Dict.{Dict, contains, lookup, lookup_or}
use messiah_fx_prod.Prelude.Text.{strip, lower}

abbrev pub pending : String
pending = "pending"

abbrev pub opened : String
opened = "open"

abbrev pub partially_filled : String
partially_filled = "partially_filled"

abbrev pub filled : String
filled = "filled"

abbrev pub cancelled : String
cancelled = "cancelled"

abbrev pub rejected : String
rejected = "rejected"

abbrev pub error : String
error = "error"

abbrev pub expired : String
expired = "expired"

abbrev pub all_states : List String
all_states =
    pending ∷ opened ∷ partially_filled ∷ filled ∷ cancelled ∷ rejected ∷ error ∷ expired ∷ []

abbrev pub terminal_states : List String
terminal_states = filled ∷ cancelled ∷ rejected ∷ error ∷ expired ∷ []

abbrev pub from_pending : List String
from_pending = opened ∷ partially_filled ∷ filled ∷ cancelled ∷ rejected ∷ error ∷ expired ∷ []

abbrev pub from_opened : List String
from_opened = partially_filled ∷ filled ∷ cancelled ∷ rejected ∷ error ∷ expired ∷ []

abbrev pub from_partially_filled : List String
from_partially_filled = partially_filled ∷ filled ∷ cancelled ∷ error ∷ expired ∷ []

abbrev pub valid_transitions : Dict (List String)
valid_transitions =
    (pending, from_pending) ∷ (opened, from_opened) ∷ (partially_filled, from_partially_filled) ∷ []

abbrev pub aliases : Dict String
aliases =
    ("new", pending)
    ∷ ("accepted", opened)
    ∷ ("partial", partially_filled)
    ∷ ("partially_filled", partially_filled)
    ∷ ("closed", filled)
    ∷ ("canceled", cancelled)
    ∷ ("cancelled", cancelled)
    ∷ []

-- The lookup of `normalize_status` on the trimmed and lowered text.
canonical : String → Option String
canonical s = if contains s all_states then some s else lookup s aliases

-- `none` stands for Python's None, as an argument too.
unfoldable pub normalize_status : Option String → Option String
unfolding canonical strip lower
normalize_status none = none
normalize_status (some status) = if status =ˢ "" then none else canonical (lower (strip status))

unfoldable pub is_terminal : String → Bool
is_terminal state = contains state terminal_states

unfoldable pub is_valid_transition : String → String → Bool
is_valid_transition from to = contains to (lookup_or from [] valid_transitions)
