-- ===== src/App/Routes.antt =====
-- The table of routes of frontend/src/App.tsx. Which route fits an address is decided by the library
-- React Router and is a parameter, `choose`.
pub mod Redirects
use socblitz.Common.{
  ℕ, zero, suc, String, Bool, true, false, not, ◌&&◌, Option, none, some, if◌then◌else◌,
}
use socblitz.Api.{AuthState}
use socblitz.App.{auth_guard, guarded, shows}

-- the `<Route>`s that show something, in the order of the source
pub data Route : Type 0 where
  login : Route
  index : Route
  overview : Route
  alerts : Route
  alert_detail : Route
  events : Route
  event_detail : Route
  custom_dashboard : Route
  cases : Route
  case_detail : Route
  agents : Route
  threat_intel : Route
  dark_web : Route
  forensics : Route
  soar : Route
  new_workflow : Route
  edit_workflow : Route
  engine : Route
  connectors : Route
  settings : Route
  account : Route
  any : Route

-- what a route shows: a component, or `<Navigate to replace />`
pub data Element : Type 0 where
  component : (name : String) → Element
  navigate_to : (address : String) → Element

-- the path of a route, from the root
unfoldable pub path : Route → String
path login = "/login"
path index = "/"
path overview = "/dashboard"
path alerts = "/alerts"
path alert_detail = "/alerts/:id"
path events = "/events"
path event_detail = "/events/:id"
path custom_dashboard = "/custom-dashboard"
path cases = "/cases"
path case_detail = "/cases/:id"
path agents = "/agents"
path threat_intel = "/threat-intel"
path dark_web = "/darkweb"
path forensics = "/forensics"
path soar = "/soar"
path new_workflow = "/soar/new"
path edit_workflow = "/soar/:id/edit"
path engine = "/engine"
path connectors = "/connectors"
path settings = "/settings"
path account = "/account"
path any = "*"

-- the path has no parameter and no star
unfoldable pub is_static : Route → Bool
is_static alert_detail = false
is_static event_detail = false
is_static case_detail = false
is_static edit_workflow = false
is_static any = false
is_static _ = true

unfoldable pub element : Route → Element
element login = component "Login"
element index = navigate_to "/dashboard"
element overview = component "Dashboard"
element alerts = component "Alerts"
element alert_detail = component "AlertDetail"
element events = component "Events"
element event_detail = component "EventDetail"
element custom_dashboard = component "CustomDashboard"
element cases = component "Cases"
element case_detail = component "CaseDetail"
element agents = component "Agents"
element threat_intel = component "ThreatIntel"
element dark_web = component "DarkWeb"
element forensics = component "Forensics"
element soar = component "SOAR"
element new_workflow = component "WorkflowBuilder"
element edit_workflow = component "WorkflowBuilder"
element engine = component "SocBlitzEngine"
element connectors = component "Connectors"
element settings = component "Settings"
element account = component "AccountSecurity"
element any = navigate_to "/dashboard"

-- the route stands inside the one with the guard and the layout
unfoldable pub is_guarded : Route → Bool
is_guarded login = false
is_guarded any = false
is_guarded _ = true

-- what the browser shows at a route
unfoldable pub visit : AuthState → Route → Element
unfolding is_guarded element auth_guard
visit auth r =
    if is_guarded r && not (shows (auth_guard auth)) then navigate_to "/login" else element r

-- The component that is shown in the end, where at most that many routes are visited.
unfoldable pub follow :
    (choose : String → Route) → AuthState → (visits : ℕ) → String → Option String
unfolding visit
follow choose auth zero address = none
follow choose auth (suc n) address = elim (visit auth (choose address)) [
  | component name ↦ some name
  | navigate_to next ↦ follow choose auth n next
]
