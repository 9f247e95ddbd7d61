-- ===== src/Panels/Pickers.antt =====
-- The fields of the forms as they are shown
-- (tools/llama-dspark-test-ui/components/dashboard/fields.tsx).
pub mod Laws
pub mod Listed
mod Tests
use dspark_edge.Base.{
  ℕ, ◌≡◌, ◌*◌, Bool, true, false, Option, none, some, List, [], ◌∷◌, ◌++◌, map, leb, ltb, ◌==◌,
  if◌then◌else◌,
}
use dspark_edge.Base.Text.{Text, lit, text_eq, is_set}
use dspark_edge.Numbers.{Numbers}
use dspark_edge.Types.{ModelEntry}
use dspark_edge.Panels.StatCard.{Display, given}

-- `FieldLabel`: the label, and the hint of its tooltip if there is one.
pub record FieldLabel : Type 0 where
  pub label : Text
  pub hint : Option Text

pub field_label : Text → Option Text → FieldLabel
field_label label hint = record { label = label; hint = given hint }

-- The text of a number field: `Number.isFinite(value) ? value : ""`.
pub number_shown : {N : Type 0} → (N → Bool) → (N → Text) → N → Text
number_shown is_finite text v = if is_finite v then text v else []

-- An option of a choice field, lit up if it is the value.
pub record Choice : Type 0 where
  pub value : Text
  pub label : Text
  pub lit_up : Bool

pub choice_field : Text → List (Text × Text) → List Choice
choice_field v [] = []
choice_field v ((value, label) ∷ rest) =
    record { value = value; label = label; lit_up = text_eq v value } ∷ choice_field v rest

-- `s.split("/").pop()`, where `sofar` is the part read last.
abbrev pub last_part : Text → Text → Text
last_part sofar [] = sofar
last_part sofar (c ∷ s) = last_part (if c == 47 then [] else sofar ++ c ∷ []) s

unfoldable pub base_name : Text → Text
base_name s = last_part [] s

abbrev pub gib : ℕ
gib = 1024 * 1024 * 1024

abbrev pub mib : ℕ
mib = 1024 * 1024

-- An entry of the list of models: its value, its name, and its size if it is not empty.
pub record ModelItem : Type 0 where
  pub value : Text
  pub name : Text
  pub size : Option Text

-- `ModelPicker`: its label, the mark "optional", the text field with its placeholder, the note of
-- an empty list, the list, and the file's name below.
pub record Picker : Type 0 where
  pub label : FieldLabel
  pub mark : Option Text
  pub value : Text
  pub placeholder : Text
  pub empty_note : Option Text
  pub items : List ModelItem
  pub file_name : Option Text

abbrev pub empty_note_of : List ModelEntry → Option Text
empty_note_of [] = some (lit "No .gguf files found")
empty_note_of (m ∷ ms) = none

module _ {N : Type 0} (num : Numbers N) (display : Display N) where
  -- `fmtSize`
  pub fmt_size : ℕ → Text
  fmt_size bytes =
      if bytes == 0
      then []
      else if leb gib bytes
      then display.to_fixed 1 (num.over (num.of_nat bytes) (num.of_nat gib)) ++ lit " GB"
      else display.to_fixed 0 (num.over (num.of_nat bytes) (num.of_nat mib)) ++ lit " MB"

  abbrev pub model_item : ModelEntry → ModelItem
  model_item m = record {
    value = m.path;
    name = m.name;
    size = if ltb 0 m.size_bytes then some (fmt_size m.size_bytes) else none;
  }

  pub model_picker_view : Text → Text → List ModelEntry → Option Text → (optional : Bool) → Picker
  model_picker_view label value models hint optional = record {
    label = field_label label hint;
    mark = if optional then some (lit "optional") else none;
    value = value;
    placeholder = if optional then lit "(none)" else lit "/path/to/model.gguf";
    empty_note = empty_note_of models;
    items = map model_item models;
    file_name = given (some (if is_set value then base_name value else []));
  }

-- `v && onChange(String(v))` of the list: what a choice hands on.
pub picked : Option Text → Option Text
picked none = none
picked (some v) = given (some v)
