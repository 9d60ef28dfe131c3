-- ===== src/Posture/Overview.antt =====
-- The figures of the overview, frontend/src/pages/Dashboard.tsx: the counts on the tiles, the breakdown
-- by severity and the latest alerts. The trend of the week is drawn from random numbers and left out.
use socblitz.Common.{
  ℕ, String, Bool, true, not, ◌&&◌, ◌||◌, ◌==◌, ◌+◌, ◌*◌, ◌≤◌, ◌≢◌, Option, none, some, List, [],
  ◌∷◌, filter, map, take, find?, eqb, ltb, arith, eq_iff,
}
use socblitz.Common.Json.{num, str, end, field}
use socblitz.Api.{alerts, platform, alert_stats, list_alerts, list_agents, list_connectors}
use socblitz.Ui.{Query}
use socblitz.Posture.{ThreatLevel, get_threat_level}

-- what `alertStats` holds: the object `severity` as its entries, and `status.new`
pub record Stats : Type 0 where
  pub severity : List (String × ℕ)
  pub new : ℕ

abbrev second : Option (String × ℕ) → ℕ
second none = 0
second (some (k, n)) = n

-- `alertStats?.severity?.[s] ?? 0`
unfoldable pub severity_of : List (String × ℕ) → String → ℕ
severity_of entries s = second (find? (λ e. e.0 == s) entries)

-- `Object.values(…).reduce((a, b) => a + Number(b), 0)`
unfoldable pub total_of : List (String × ℕ) → ℕ
total_of [] = 0
total_of ((k, n) ∷ es) = n + total_of es

-- `SEV_ORDER`
abbrev pub sev_order : List String
sev_order = "critical" ∷ "high" ∷ "medium" ∷ "low" ∷ "info" ∷ []

-- `sevData`
unfoldable pub sev_data : Stats → List (String × ℕ)
unfolding severity_of
sev_data stats = filter (λ d. ltb 0 d.1) (map (λ s. (s, severity_of stats.severity s)) sev_order)

-- The part of the bar is drawn: `pct < 0.5` hides it, where `pct` is `(count / total) * 100`.
unfoldable pub shows_part : (count total : ℕ) → Bool
shows_part count total = not (eqb total 0) && not (ltb (count * 200) total)

-- `threat`
unfoldable pub threat : Stats → ThreatLevel
unfolding severity_of total_of
threat stats =
    get_threat_level (severity_of stats.severity "critical") (severity_of stats.severity "high")
      (total_of stats.severity)

-- what the page reads of an alert
pub record RecentAlert : Type 0 where
  pub id : String
  pub severity : String

abbrev pub is_urgent : RecentAlert → Bool
is_urgent a = a.severity == "critical" || a.severity == "high"

-- `criticalAlerts`
unfoldable pub critical_alerts : List RecentAlert → List RecentAlert
critical_alerts as' = take 8 (filter is_urgent as')

unfoldable pub stats_query : Query
stats_query = record { key = str "alert-stats" ∷ []; call = alerts alert_stats; enabled = true }

unfoldable pub recent_query : Query
recent_query = record {
  key = str "recent-alerts" ∷ [];
  call = alerts (list_alerts (some (field "limit" (num 10) end)));
  enabled = true;
}

unfoldable pub agents_query : Query
agents_query = record {
  key = str "agents" ∷ [];
  call = platform (list_agents none);
  enabled = true;
}

unfoldable pub connectors_query : Query
connectors_query = record {
  key = str "connectors" ∷ [];
  call = platform list_connectors;
  enabled = true;
}

pub severity_of-le : (es : List (String × ℕ)) (s : String) → severity_of es s ≤ total_of es
unfolding severity_of total_of
severity_of-le [] s = omega arith
severity_of-le ((k, n) ∷ es) s = ground (arith, severity_of-le es s)

-- The alerts of two different severities are together no more than all alerts.
pub severity_of-total :
    (es : List (String × ℕ)) (s t : String)
    → s ≢ t
    → severity_of es s + severity_of es t ≤ total_of es
unfolding severity_of total_of
severity_of-total [] s t h = omega arith
severity_of-total ((k, n) ∷ es) s t h = ground (
  arith,
  h,
  severity_of-total es s t h,
  severity_of-le es s,
  severity_of-le es t,
  eq_iff k s,
  eq_iff k t,
)
