-- ===== src/Cases/View.antt =====
-- What the case list shows, frontend/src/pages/Cases.tsx: the tiles, the choice of a template and the rows of
-- the table. How long ago a time was is a parameter, `ago`.
use Prim.Native.String as Text
use socblitz.Common.{
  ℕ, String, Bool, Option, none, some, List, [], ◌∷◌, ◌==◌, map, length, ltb, truthy, or_text,
  or_null, if◌then◌else◌,
}
use socblitz.Ui.{Part, say, number, Effect}
use socblitz.Ui.Table.{Line, lines}
use socblitz.Cases.{shown_status}
use socblitz.Cases.Table.{start_case, resolve_case, open_case}

-- `PRIORITY_COLOR[priority] || 'var(--text-3)'`
unfoldable pub priority_color : String → String
priority_color priority =
    if priority == "critical"
    then "#f43f5e"
    else if priority == "high"
    then "#f97316"
    else if priority == "medium"
    then "#f59e0b"
    else if priority == "low"
    then "#67e8f9"
    else "var(--text-3)"

-- the priorities of the form
abbrev pub priorities : List String
priorities = "critical" ∷ "high" ∷ "medium" ∷ "low" ∷ []

-- what the form shows of a template
pub record Template : Type 0 where
  pub key : String
  pub label : String
  pub description : String
  pub tasks : List String

-- the entries of the box: value and text
abbrev option_of : Template → String × String
option_of t = (t.key, Text.◌++◌ t.label (Text.◌++◌ " — " t.description))

unfoldable pub template_options : List Template → List (String × String)
template_options templates = ("", "No template — start blank") ∷ map option_of templates

-- the note below the form
unfoldable pub template_note : Option Template → List Part
template_note none = []
template_note (some t) = say "Will create " ∷ number (length t.tasks) ∷ say " tasks" ∷ []

-- the button Clear filter
unfoldable pub shows_clear : (status_filt : String) → Bool
shows_clear status_filt = truthy status_filt

-- what the table reads of a case; a missing text is ""
pub record CaseLine : Type 0 where
  pub id : String
  pub priority : String
  pub title : String
  pub description : String
  pub status : String
  pub assignee_name : String
  pub alert_count : Option ℕ
  pub created_at : String

pub record Row : Type 0 where
  pub color : String
  pub priority : String
  pub title : String
  pub description : Option String
  pub status : String
  pub assignee : String
  pub alerts : List Part
  pub is_hot : Bool
  pub created : String
  pub on_click : List Effect
  -- the buttons Start and Resolve
  pub on_start : List Effect
  pub on_resolve : List Effect

abbrev alerts_cell : Option ℕ → List Part
alerts_cell none = say "—" ∷ []
alerts_cell (some n) = number n ∷ []

-- the count of alerts is drawn in red
abbrev hot : Option ℕ → Bool
hot none = Bool.false
hot (some n) = ltb 0 n

unfoldable pub row_of : (ago : String → String) → CaseLine → Row
unfolding priority_color shown_status open_case start_case resolve_case
row_of ago c = record {
  color = priority_color c.priority;
  priority = or_text c.priority "medium";
  title = c.title;
  description = or_null c.description;
  status = (shown_status c.status).label;
  assignee = or_text c.assignee_name "Unassigned";
  alerts = alerts_cell c.alert_count;
  is_hot = hot c.alert_count;
  created = if truthy c.created_at then ago c.created_at else "—";
  on_click = open_case c.id;
  on_start = start_case c.id c.status;
  on_resolve = resolve_case c.id c.status;
}

unfoldable pub table_body :
    (ago : String → String) → (is_loading : Bool) → List CaseLine → List (Line Row)
table_body ago is_loading rows =
    lines is_loading "Loading cases…" "No cases found" (map (row_of ago) rows)
