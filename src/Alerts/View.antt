-- ===== src/Alerts/View.antt =====
-- What the alert page shows, frontend/src/pages/Alerts.tsx: the line below its title and the rows of the
-- table. How long ago a time was is a parameter, `ago`.
use Prim.Native.Char.{code}
use Prim.Native.String as Text
use socblitz.Common.{
  ℕ, String, Bool, ◌||◌, Option, none, List, [], ◌∷◌, ◌==◌, eqb, map, truthy, or_text, or_null,
  if◌then◌else◌,
}
use socblitz.Ui.{Part, say, number, Effect, navigate}
use socblitz.Ui.Table.{Line, lines, or_dash}

-- what the table reads of an alert; a missing value is ""
pub record AlertLine : Type 0 where
  pub id : String
  pub severity : String
  pub rule_name : String
  pub description : String
  pub agent_name : String
  pub agent_ip : String
  pub src_ip : String
  pub mitre_id : String
  pub mitre_tactic : String
  pub status : String
  pub alert_time : String

-- a row: a part that is not shown is `none`
pub record Row : Type 0 where
  pub class_name : String
  pub badge : String
  pub rule : String
  pub description : Option String
  pub agent : String
  pub agent_ip : Option String
  pub src_ip : String
  pub mitre : String
  pub mitre_tactic : Option String
  pub status_class : String
  pub status : String
  pub time : String
  pub on_click : List Effect

-- `STATUSES`
abbrev pub statuses : List String
statuses = "new" ∷ "in_triage" ∷ "escalated" ∷ "resolved" ∷ "false_positive" ∷ []

-- `STATUS_BADGE[status] || 'badge-muted'`
unfoldable pub status_badge : String → String
status_badge status =
    if status == "new"
    then "badge-critical"
    else if status == "in_triage"
    then "badge-medium"
    else if status == "escalated"
    then "badge-high"
    else if status == "resolved"
    then "badge-success"
    else "badge-muted"

-- `s.replace(/_/g, ' ')`
unfoldable pub spaced : String → String
spaced String.[] = ""
spaced (String.◌∷◌ c s) =
    if eqb (code c) b'_' then Text.◌++◌ " " (spaced s) else String.◌∷◌ c (spaced s)

-- the line below the title
unfoldable pub subtitle : (sev status : String) → (shown all : ℕ) → List Part
subtitle sev status shown all =
    number shown
    ∷ say " of "
    ∷ number all
    ∷ say " alerts"
    ∷ say (if truthy sev || truthy status then " (filtered)" else "")
    ∷ []

-- the row of an alert; the tactic stands below an id only
unfoldable pub row_of : (ago : String → String) → AlertLine → Row
unfolding status_badge spaced
row_of ago a = record {
  class_name = Text.◌++◌ "sev-" a.severity;
  badge = Text.◌++◌ "badge-" a.severity;
  rule = or_text a.rule_name "(no rule name)";
  description = or_null a.description;
  agent = or_dash a.agent_name;
  agent_ip = or_null a.agent_ip;
  src_ip = or_dash a.src_ip;
  mitre = or_dash a.mitre_id;
  mitre_tactic = if truthy a.mitre_id then or_null a.mitre_tactic else none;
  status_class = status_badge a.status;
  status = spaced a.status;
  time = ago a.alert_time;
  on_click = navigate (Text.◌++◌ "/alerts/" a.id) ∷ [];
}

unfoldable pub table_body :
    (ago : String → String) → (is_loading : Bool) → List AlertLine → List (Line Row)
table_body ago is_loading rows =
    lines is_loading "Loading alerts…" "No alerts matching current filters" (map (row_of ago) rows)
