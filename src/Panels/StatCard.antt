-- ===== src/Panels/StatCard.antt =====
-- The cards of the metrics panel (tools/llama-dspark-test-ui/components/dashboard/stat-card.tsx). The
-- texts and numbers that are shown are modelled; the style classes are not.
use dspark_edge.Base.{
  ℕ, Bool, true, false, ◌&&◌, Option, none, some, List, [], ◌∷◌, length, ltb, if◌then◌else◌,
}
use dspark_edge.Base.Text.{Text, lit, is_set}
use dspark_edge.Numbers.{Numbers}
use dspark_edge.Panels.Chart.{Color, blue, Chart, area_chart, or_default}

-- How numbers are shown and compared: `toFixed`, `toLocaleString`, `Math.min`, `Math.max` and `> 0`.
pub record Display (N : Type 0) : Type 0 where
  pub to_fixed : ℕ → N → Text
  pub to_locale : N → Text
  pub least : N → N → N
  pub most : N → N → N
  pub is_positive : N → Bool

-- `{cond && text}` of a text: an empty one shows nothing.
abbrev pub shown_if : Bool → Text → Option Text
shown_if false t = none
shown_if true [] = none
shown_if true (c ∷ t) = some (c ∷ t)

-- The properties of a card; the spark line is given by its rows and the key of its category.
pub record CardProps (Row N : Type 0) : Type 0 where
  pub label : Text
  pub value : Text
  pub unit : Option Text
  pub accent : Option Color
  pub spark : Option (List Row)
  pub spark_key : Option Text
  pub progress : Option N
  pub subtle : Option Text

-- A card as it is shown: the width of its bar in percent, and the chart of its spark line.
pub record Card (Row N : Type 0) : Type 0 where
  pub label : Text
  pub value : Text
  pub unit : Option Text
  pub accent : Color
  pub bar : Option N
  pub spark : Option (Chart Row N)
  pub subtle : Option Text

-- `{text && …}` of a property that may be missing
abbrev pub given : Option Text → Option Text
given none = none
given (some t) = shown_if true t

-- `Math.max(0, Math.min(100, progress))`
abbrev pub bar_width : {N : Type 0} → Numbers N → Display N → Option N → Option N
bar_width num display none = none
bar_width num display (some p) =
    some (display.most (num.of_nat 0) (display.least (num.of_nat 100) p))

module _ {Row N : Type 0} (num : Numbers N) where
  abbrev pub spark_line : Color → List Row → Text → Chart Row N
  spark_line accent rows key = area_chart num.text (record {
    rows = rows;
    index = lit "t";
    categories = key ∷ [];
    colors = some (accent ∷ []);
    format = none;
    domain = none;
    show_grid = some false;
    show_x_axis = none;
    show_y_axis = none;
  })

  -- `spark && sparkKey && spark.length > 1 && …`
  abbrev pub spark_of : Color → Option (List Row) → Option Text → Option (Chart Row N)
  spark_of accent none key = none
  spark_of accent (some rows) none = none
  spark_of accent (some rows) (some key) =
      if is_set key && ltb 1 (length rows) then some (spark_line accent rows key) else none

  -- `StatCard`
  unfoldable pub stat_card : Display N → CardProps Row N → Card Row N
  stat_card display p =
      let accent = or_default p.accent blue in
      record {
        label = p.label;
        value = p.value;
        unit = given p.unit;
        accent = accent;
        bar = bar_width num display p.progress;
        spark = spark_of accent p.spark p.spark_key;
        subtle = given p.subtle;
      }

-- A card with a number and a text below it.
abbrev pub plain_card : {Row N : Type 0} → Text → Text → Color → Text → CardProps Row N
plain_card label value accent subtle = record {
  label = label;
  value = value;
  unit = none;
  accent = some accent;
  spark = none;
  spark_key = none;
  progress = none;
  subtle = some subtle;
}
