-- ===== src/Alerts.antt =====
-- The alert page, frontend/src/pages/Alerts.tsx: the request, the severity buttons, and the two
-- buttons of a row. Its query box is SearchBox.
pub mod Laws
pub mod Queries
pub mod View
use socblitz.Common.{
  ℕ, String, Bool, not, ◌&&◌, List, [], ◌∷◌, ◌==◌, eqb, truthy, filter, length, if◌then◌else◌,
}
use socblitz.Common.Json.{Fields, str, num, obj, end, field}
use socblitz.Api.{Call, alerts, list_alerts, update_alert}
use socblitz.Ui.{Effect, send, invalidate, success}
use socblitz.TimeRange.{RangeParams, range_fields}

abbrev pub severities : List String
severities = "critical" ∷ "high" ∷ "medium" ∷ "low" ∷ "info" ∷ []

-- what the page reads of a row
pub record Alert : Type 0 where
  pub id : String
  pub severity : String
  pub status : String

-- `...(value ? { key: value } : {})`
abbrev if_given : String → String → Fields → Fields
if_given key value rest = if truthy value then field key (str value) rest else rest

-- the parameters of the request, for the resolved range
unfoldable pub alerts_params : (sev status q : String) → RangeParams → Fields
alerts_params sev status q range =
    if_given "severity" sev
      (if_given "status" status (if_given "q" q (range_fields range (field "limit" (num 200) end))))

-- `counts[s]`
unfoldable pub severity_count : String → List Alert → ℕ
severity_count s rows = length (filter (λ a. a.severity == s) rows)

-- The severities whose button is shown: `if (counts[s] === 0) return null`.
unfoldable pub buttons : List Alert → List String
unfolding severity_count
buttons rows = filter (λ s. not (eqb (severity_count s rows) 0)) severities

-- `onClick={() => setSev(active ? '' : s)}`
unfoldable pub toggle_severity : String → String → String
toggle_severity sev s = if sev == s then "" else s

abbrev set_status : String → String → Effect
set_status id status = send (alerts (update_alert id (obj (field "status" (str status) end))))

-- the button "Triage", shown for a new alert
unfoldable pub triage : Alert → List Effect
triage a = if a.status == "new" then set_status a.id "in_triage" ∷ [] else []

-- the button "Resolve", shown unless the alert is resolved or a false positive
unfoldable pub resolve : Alert → List Effect
resolve a =
    if not (a.status == "resolved") && not (a.status == "false_positive")
    then set_status a.id "resolved" ∷ []
    else []

-- `onSuccess` of the update
unfoldable pub alert_updated : List Effect
alert_updated = invalidate (str "alerts" ∷ []) ∷ success "Alert updated" ∷ []
