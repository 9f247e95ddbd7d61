-- ===== src/Panels/Chart.antt =====
-- The area chart (tools/llama-dspark-test-ui/components/tremor/area-chart.tsx): what it hands to the
-- chart library, and its tooltip.
use dspark_edge.Base.{
  ℕ, ◌+◌, ◌%◌, Bool, true, false, not, Option, none, some, List, [], ◌∷◌, ◌++◌, get_elem?, length,
  map,
}
use dspark_edge.Base.Text.{Text, lit}

-- `TremorColor`
pub data Color : Type 0 where
  blue emerald violet amber rose cyan fuchsia slate : Color

-- `CHART_HEX`
unfoldable pub chart_hex : Color → Text
chart_hex blue = lit "#3b82f6"
chart_hex emerald = lit "#10b981"
chart_hex violet = lit "#8b5cf6"
chart_hex amber = lit "#f59e0b"
chart_hex rose = lit "#f43f5e"
chart_hex cyan = lit "#06b6d4"
chart_hex fuchsia = lit "#d946ef"
chart_hex slate = lit "#64748b"

-- `x ?? y`, and the default of a property
abbrev pub or_default {ℓ} : {A : Type ℓ} → Option A → A → A
or_default none a = a
or_default (some b) a = b

abbrev pub hex_of : Option Color → Option Text
hex_of none = none
hex_of (some c) = some (chart_hex c)

-- `CHART_HEX[colors[i % colors.length]]`
unfoldable pub hex_at : List Color → ℕ → Option Text
hex_at colors i = hex_of (get_elem? colors (i % length colors))

-- A category as it is drawn: its gradient's id and colour, and the area's stroke and fill.
pub record Series : Type 0 where
  pub category : Text
  pub gradient : Text
  pub stop_color : Option Text
  pub stroke : Option Text
  pub fill : Text

abbrev pub gradient_id : Text → Text
gradient_id category = lit "grad-" ++ category

-- `categories.map((cat, i) => …)` from the index `i` on.
unfoldable pub series : List Color → ℕ → List Text → List Series
series colors i [] = []
series colors i (cat ∷ rest) =
    record {
      category = cat;
      gradient = gradient_id cat;
      stop_color = hex_at colors i;
      stroke = hex_at colors i;
      fill = lit "url(#" ++ (gradient_id cat ++ lit ")");
    }
    ∷ series colors (i + 1) rest

-- One bound of the vertical axis.
pub data Bound (N : Type 0) : Type 0 where
  auto data_min data_max : Bound N
  at : N → Bound N

pub record ChartProps (Row N : Type 0) : Type 0 where
  pub rows : List Row
  pub index : Text
  pub categories : List Text
  pub colors : Option (List Color)
  pub format : Option (N → Text)
  pub domain : Option (Bound N × Bound N)
  pub show_grid : Option Bool
  pub show_x_axis : Option Bool
  pub show_y_axis : Option Bool

-- What the chart library is given.
pub record Chart (Row N : Type 0) : Type 0 where
  pub rows : List Row
  pub drawn : List Series
  pub grid : Bool
  pub x_key : Text
  pub hide_x : Bool
  pub hide_y : Bool
  pub domain : Bound N × Bound N
  pub format : N → Text

-- `AreaChart`, with the text of a number.
unfoldable pub area_chart : {Row N : Type 0} → (N → Text) → ChartProps Row N → Chart Row N
area_chart text p = record {
  rows = p.rows;
  drawn = series (or_default p.colors (blue ∷ emerald ∷ violet ∷ amber ∷ [])) 0 p.categories;
  grid = or_default p.show_grid true;
  x_key = p.index;
  hide_x = not (or_default p.show_x_axis false);
  hide_y = not (or_default p.show_y_axis false);
  domain = or_default p.domain (auto, auto);
  format = or_default p.format text;
}

-- One entry of the tooltip's payload.
pub record Payload (N : Type 0) : Type 0 where
  pub name : Text
  pub value : N
  pub color : Text

-- The tooltip: its label, and the colour, the name and the formatted value of each entry.
pub record Tooltip : Type 0 where
  pub label : Option Text
  pub entries : List (Text × Text × Text)

abbrev pub tooltip_entry : {N : Type 0} → (N → Text) → Payload N → Text × Text × Text
tooltip_entry format p = (p.color, p.name, format p.value)

-- `ChartTooltip`; `none` for the payload is a missing one.
pub chart_tooltip :
    {N : Type 0} → (N → Text) → Bool → Option (List (Payload N)) → Option Text → Option Tooltip
chart_tooltip format active none label = none
chart_tooltip format active (some []) label = none
chart_tooltip format false (some (p ∷ ps)) label = none
chart_tooltip format true (some (p ∷ ps)) label =
    some (record { label = label; entries = map (tooltip_entry format) (p ∷ ps) })
