-- ===== src/Posture/View.antt =====
-- What the overview shows, frontend/src/pages/Dashboard.tsx: the bar of severities, the four cards, the table of
-- urgent alerts and the health of the connectors. A share is kept as the fraction that the source divides;
-- how long ago a time was is a parameter, `ago`.
pub mod Bar
use Prim.Native.Char.{code}
use Prim.Native.String as Text
use socblitz.Common.{
  ℕ, String, Bool, true, false, not, ◌&&◌, ◌||◌, ◌+◌, ◌-◌, ◌*◌, ◌/◌, ◌==◌, Option, none, some, List,
  [], ◌∷◌, map, filter, length, eqb, ltb, or_else, or_text, or_null, truthy, if◌then◌else◌,
}
use socblitz.Ui.{Part, say, number, Effect, navigate}
use socblitz.Ui.Table.{Line, or_dash}
use socblitz.Connectors.{percent}
use socblitz.Posture.{Percent}
use socblitz.Posture.Overview.{Stats, severity_of, total_of, sev_order, shows_part}
use socblitz.Alerts.View.{AlertLine, status_badge}

-- `SEV_COLOR[s]`
unfoldable pub sev_color : String → Option String
sev_color s =
    if s == "critical"
    then some "#f43f5e"
    else if s == "high"
    then some "#f97316"
    else if s == "medium"
    then some "#f59e0b"
    else if s == "low"
    then some "#67e8f9"
    else if s == "info"
    then some "#64748b"
    else none

-- a part of the bar
pub record Piece : Type 0 where
  pub sev : String
  pub width : Percent

-- `(count / totalAlerts) * 100`
abbrev pub piece : Stats → String → Piece
piece stats sev = record {
  sev = sev;
  width = record { num = severity_of stats.severity sev * 100; den = total_of stats.severity };
}

-- the parts that are drawn
unfoldable pub severity_bar : Stats → List Piece
unfolding severity_of total_of shows_part
severity_bar stats = map (piece stats) (
    filter (λ sev. shows_part (severity_of stats.severity sev) (total_of stats.severity)) sev_order)

-- the green bar that stands for no alert at all
unfoldable pub shows_calm : Stats → Bool
unfolding total_of
shows_calm stats = eqb (total_of stats.severity) 0

-- `{criticalCount} critical · {highCount} high · {newCount} unacknowledged`
unfoldable pub counts_text : Stats → List Part
unfolding severity_of
counts_text stats =
    number (severity_of stats.severity "critical")
    ∷ say " critical · "
    ∷ number (severity_of stats.severity "high")
    ∷ say " high · "
    ∷ number stats.new
    ∷ say " unacknowledged"
    ∷ []

-- `MetricCard`; the arrow is the trend
pub record MetricCard : Type 0 where
  pub label : String
  pub value : List Part
  pub sub : List Part
  pub color : String
  pub goes_up : Bool
  pub on_click : List Effect

unfoldable pub total_card : Stats → MetricCard
unfolding total_of
total_card stats = record {
  label = "Total Alerts";
  value = number (total_of stats.severity) ∷ [];
  sub = number stats.new ∷ say " new" ∷ [];
  color = "#60a5fa";
  goes_up = false;
  on_click = navigate "/alerts" ∷ [];
}

unfoldable pub critical_card : Stats → MetricCard
unfolding severity_of
critical_card stats = record {
  label = "Critical";
  value = number (severity_of stats.severity "critical") ∷ [];
  sub = number (severity_of stats.severity "high") ∷ say " high severity" ∷ [];
  color = if ltb 0 (severity_of stats.severity "critical") then "#f87171" else "#4ade80";
  goes_up = ltb 5 (severity_of stats.severity "critical");
  on_click = navigate "/alerts" ∷ [];
}

-- the status of an agent is all that is counted
unfoldable pub agents_card : List String → MetricCard
unfolding percent
agents_card statuses =
    let active = length (filter (λ s. s == "active") statuses) in
    record {
      label = "Active Agents";
      value =
          if ltb 0 (length statuses)
          then number active ∷ say "/" ∷ number (length statuses) ∷ []
          else say "—" ∷ [];
      sub =
          if ltb 0 (length statuses)
          then number (percent active (length statuses)) ∷ say "% online" ∷ []
          else say "No agents" ∷ [];
      color = "#4ade80";
      goes_up = false;
      on_click = navigate "/agents" ∷ [];
    }

-- what the page reads of a connector; `label` is that of `connectorMeta`
pub record ConnectorLine : Type 0 where
  pub label : String
  pub verified : Bool

unfoldable pub healthy : List ConnectorLine → ℕ
healthy cs = length (filter (λ c. c.verified) cs)

unfoldable pub connectors_card : List ConnectorLine → MetricCard
unfolding healthy
connectors_card cs = record {
  label = "Connectors";
  value = number (healthy cs) ∷ say "/" ∷ number (length cs) ∷ [];
  sub =
      if eqb (healthy cs) (length cs)
      then say "All systems nominal" ∷ []
      else number (length cs - healthy cs) ∷ say " offline" ∷ [];
  color = if eqb (healthy cs) (length cs) then "#67e8f9" else "#f59e0b";
  goes_up = false;
  on_click = navigate "/connectors" ∷ [];
}

-- `ConnectorPill`: the icon and the name
unfoldable pub connector_pill : ConnectorLine → String × String
connector_pill c = (if c.verified then "Wifi" else "WifiOff", c.label)

-- the width of the health bar, which is 0 without connectors
unfoldable pub health_width : List ConnectorLine → Option Percent
unfolding healthy
health_width cs =
    if ltb 0 (length cs) then some (record { num = healthy cs * 100; den = length cs }) else none

-- `s.replace('_', ' ')`: the first one only
unfoldable pub spaced_once : String → String
spaced_once String.[] = ""
spaced_once (String.◌∷◌ c s) =
    if eqb (code c) b'_' then Text.◌++◌ " " s else String.◌∷◌ c (spaced_once s)

-- a row of the table of urgent alerts
pub record Row : Type 0 where
  pub rule : String
  pub description : String
  pub agent : String
  pub agent_ip : Option String
  pub mitre : String
  pub status_class : String
  pub status : String
  pub time : String
  pub on_click : List Effect

unfoldable pub row_of : (ago : String → String) → AlertLine → Row
unfolding status_badge spaced_once
row_of ago a = record {
  rule = or_text a.rule_name "(no rule name)";
  description = a.description;
  agent = or_dash a.agent_name;
  agent_ip = or_null a.agent_ip;
  mitre = or_dash a.mitre_id;
  status_class = status_badge a.status;
  status = spaced_once a.status;
  time = ago a.alert_time;
  on_click = navigate "/alerts" ∷ [];
}
