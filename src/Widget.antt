-- ===== src/Widget.antt =====
-- The widgets of a dashboard, frontend/src/components/DashboardWidget.tsx: which drawing a widget gets,
-- the scale of the heat map, the colour of the gauge and the cells of a table. The charts themselves
-- are drawn by a library.
pub mod Laws
use Prim.Native.String as Text
use socblitz.Common.{
  ℕ, String, Bool, true, false, not, ◌==◌, ◌*◌, Option, none, some, List, [], ◌∷◌, ltb, leb, eqb,
  find?, map, or_else, or_text, if◌then◌else◌,
}
use socblitz.Common.Json.{Json, Fields, null, get}
use socblitz.Ui.{Part, say, value}

-- the drawing of `WidgetBody`; `nothing` is a type that the page does not know
pub data Body : Type 0 where
  stat gauge empty bar pie line histogram heatmap table nothing : Body

-- `WidgetBody`; `has_data` is `widget.data && widget.data.length !== 0`
unfoldable pub widget_body : (type : String) (has_data : Bool) → Body
widget_body type has_data =
    if type == "stat"
    then stat
    else if type == "gauge"
    then gauge
    else if not has_data
    then empty
    else if type == "bar"
    then bar
    else if type == "pie"
    then pie
    else if type == "line"
    then line
    else if type == "histogram"
    then histogram
    else if type == "heatmap"
    then heatmap
    else if type == "table"
    then table
    else nothing

-- a point of the heat map
pub record Point : Type 0 where
  pub x : String
  pub y : String
  pub value : ℕ

-- `` `${y}|${x}` ``
abbrev pub cell_key : (y x : String) → String
cell_key y x = Text.◌++◌ y (Text.◌++◌ "|" x)

-- `byCell` and `maxVal` while the loop runs
pub record Heat : Type 0 where
  pub by_cell : String → Option ℕ
  pub max_val : ℕ

-- `byCell[key] = v`
abbrev put_cell : String → ℕ → (String → Option ℕ) → String → Option ℕ
put_cell key v cells k = if k == key then some v else cells k

-- the body of the loop
unfoldable pub heat_step : Heat → Point → Heat
heat_step h d = record {
  by_cell = put_cell (cell_key d.y d.x) d.value h.by_cell;
  max_val = if ltb h.max_val d.value then d.value else h.max_val;
}

unfoldable pub heat_from : Heat → List Point → Heat
heat_from h [] = h
heat_from h (d ∷ ds) = heat_from (heat_step h d) ds

unfoldable pub heat : List Point → Heat
unfolding heat_from
heat ds = heat_from (record { by_cell = λ _. none; max_val = 0 }) ds

-- `v`: the value of a cell, 0 where there is none
unfoldable pub cell_value : Heat → (y x : String) → ℕ
cell_value h y x = or_else (h.by_cell (cell_key y x)) 0

-- `intensity`, as a fraction of `maxVal`; 0 where there is no value at all
pub record Fraction : Type 0 where
  pub num : ℕ
  pub den : ℕ

unfoldable pub intensity : Heat → (y x : String) → Fraction
unfolding cell_value
intensity h y x =
    if eqb h.max_val 0
    then record { num = 0; den = 1 }
    else record { num = cell_value h y x; den = h.max_val }

-- a threshold of the gauge
pub record Threshold : Type 0 where
  pub upto : ℕ
  pub color : String

abbrev color_or : Option Threshold → String
color_or none = "#60a5fa"
color_or (some t) = or_text t.color "#60a5fa"

-- `thresholds.find((t) => value <= t.upto)?.color || '#60a5fa'`
unfoldable pub gauge_color : ℕ → List Threshold → String
gauge_color v thresholds = color_or (find? (λ t. leb v t.upto) thresholds)

-- the cell of a table; a value that is put in as it is is printed by `String`
unfoldable pub table_cell : Option Json → List Part
table_cell none = say "—" ∷ []
table_cell (some null) = say "—" ∷ []
table_cell (some j) = value j ∷ []
