-- ===== src/Dashboard/Stream.antt =====
-- The events that update a page of the dashboard (internal/ui/datastar.go), and a reader of event
-- streams as the HTML standard describes it.
pub mod Lines
pub mod Read
use rusty_gateway.Common.{
  ℕ, Bool, true, false, List, [], ◌∷◌, ◌++◌, ◌&&◌, ◌==◌, if◌then◌else◌, is_nil, drop, length, none,
  some,
}
use rusty_gateway.Common.Text.{Text, codes, text_eq, is_empty}
use rusty_gateway.Common.Text.Search.{cut, has_prefix}

abbrev pub newline : ℕ
newline = 10

abbrev pub carriage_return : ℕ
carriage_return = 13

-- strings.TrimRight(html, "\n")
unfoldable pub trim_newlines : Text → Text
trim_newlines [] = []
trim_newlines (c ∷ s) =
    let rest = trim_newlines s in if is_nil rest && c == newline then [] else c ∷ rest

abbrev pub onto_first : ℕ → List Text → List Text
onto_first c [] = (c ∷ []) ∷ []
onto_first c (line ∷ lines) = (c ∷ line) ∷ lines

-- strings.Split(s, "\n")
unfoldable pub split_lines : Text → List Text
split_lines [] = [] ∷ []
split_lines (c ∷ s) =
    let rest = split_lines s in if c == newline then [] ∷ rest else onto_first c rest

-- the loop over the lines
unfoldable pub element_lines : List Text → Text
element_lines [] = []
element_lines (line ∷ lines) = codes "data: elements " ++ line ++ newline ∷ element_lines lines

-- what `patchElements` writes
unfoldable pub patch_elements : Text → Text
unfolding trim_newlines split_lines element_lines
patch_elements html =
    codes "event: datastar-patch-elements"
    ++ newline ∷ element_lines (split_lines (trim_newlines html))
    ++ newline ∷ []

-- what `stream` writes, one fragment after the other
unfoldable pub patch_all : List Text → Text
unfolding patch_elements
patch_all [] = []
patch_all (html ∷ htmls) = patch_elements html ++ patch_all htmls

-- An event, with the values of its data fields.
pub record Event : Type 0 where
  pub kind : Text
  pub data_lines : List Text

-- A reader: what the fields of the current event have set, the start of the current line, whether a
-- carriage return has just ended a line, and the events so far.
pub record Reader : Type 0 where
  pub kind : Text
  pub data_lines : List Text
  pub line : Text
  pub after_cr : Bool
  pub events : List Event

without_space : Text → Text
without_space value = if has_prefix (codes " ") value then drop 1 value else value

-- the name and the value of a field
unfoldable pub field_of : Text → Text × Text
unfolding cut without_space has_prefix
field_of line = elim (cut (codes ":") line) [
  | none ↦ (line, [])
  | some (name, value) ↦ (name, without_space value)
]

set_field : Reader → Text × Text → Reader
set_field r (name, value) =
    if text_eq name (codes "data")
    then record r { data_lines = r.data_lines ++ value ∷ [] }
    else if text_eq name (codes "event")
    then record r { kind = value }
    else r

-- an empty line ends an event, which counts only with data
dispatch : Reader → Reader
dispatch r = record r {
  kind = [];
  data_lines = [];
  events =
      if is_nil r.data_lines
      then r.events
      else r.events ++ record { kind = r.kind; data_lines = r.data_lines } ∷ [];
}

unfoldable pub end_line : Reader → Reader
unfolding dispatch set_field
end_line r = record (if is_empty r.line then dispatch r else set_field r (field_of r.line)) {
  line = [];
}

-- a line ends with a newline, a carriage return, or both
unfoldable pub feed : Reader → ℕ → Reader
unfolding end_line
feed r c =
    if c == newline
    then (if r.after_cr then record r { after_cr = false } else end_line r)
    else if c == carriage_return
    then record (end_line r) { after_cr = true }
    else record r { line = r.line ++ c ∷ []; after_cr = false }

unfoldable pub read : Reader → Text → Reader
unfolding feed
read r [] = r
read r (c ∷ s) = read (feed r c) s

abbrev pub new_reader : Reader
new_reader = record { kind = []; data_lines = []; line = []; after_cr = false; events = [] }
