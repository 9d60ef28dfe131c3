-- ===== src/Layout.antt =====
-- The frame of the signed-in pages, frontend/src/layouts/DashboardLayout.tsx: the navigation, the title,
-- the count of critical alerts and signing out.
pub mod Laws
use socblitz.Common.{
  ℕ, String, Bool, true, false, not, Option, none, some, List, [], ◌∷◌, ◌++◌, find?, or_else,
  or_text, starts_with, ltb, if◌then◌else◌,
}
use socblitz.Common.Json.{str}
use socblitz.Api.{AuthState, clear_auth, alerts, alert_stats}
use socblitz.Ui.{Effect, Query, navigate}

-- an item of the navigation
pub record NavItem : Type 0 where
  pub to : String
  pub label : String

abbrev item : String → String → NavItem
item to label = record { to = to; label = label }

-- `NAV_GROUPS.flatMap((g) => g.items)`
abbrev pub nav_items : List NavItem
nav_items =
    item "/dashboard" "Overview"
    ∷ item "/alerts" "Alerts"
    ∷ item "/events" "Events"
    ∷ item "/agents" "Agents"
    ∷ item "/custom-dashboard" "Dashboard"
    ∷ item "/cases" "Cases"
    ∷ item "/threat-intel" "Threat Intel"
    ∷ item "/darkweb" "Dark Web"
    ∷ item "/forensics" "Forensics"
    ∷ item "/soar" "SOAR"
    ∷ item "/engine" "Engine"
    ∷ item "/connectors" "Connectors"
    ∷ item "/settings" "Settings"
    ∷ []

-- `active` of an item
abbrev pub is_active : String → NavItem → Bool
is_active pathname i = starts_with pathname i.to

-- `currentPage`
unfoldable pub current_page : String → Option NavItem
current_page pathname = find? (is_active pathname) nav_items

abbrev label_of : Option NavItem → String
label_of none = "Dashboard"
label_of (some i) = i.label

-- `currentPage?.label ?? 'Dashboard'`
unfoldable pub title : String → String
unfolding current_page
title pathname = label_of (current_page pathname)

-- the count of critical alerts is shown
unfoldable pub shows_critical : ℕ → Bool
shows_critical n = ltb 0 n

unfoldable pub stats_query : Query
stats_query = record { key = str "alert-stats" ∷ []; call = alerts alert_stats; enabled = true }

-- the sidebar, and the store of the signed-in user
pub record Layout : Type 0 where
  pub is_open : Bool
  pub auth : AuthState

pub data Event : Type 0 where
  press_item : NavItem → Event
  open_account : Event
  open_alerts : Event
  toggle_sidebar : Event
  logout : Event

-- `handleLogout`
unfoldable pub handle_logout : Layout → Layout × List Effect
unfolding clear_auth
handle_logout l = (record l { auth = clear_auth l.auth }, navigate "/login" ∷ [])

unfoldable pub act : Layout → Event → Layout × List Effect
unfolding handle_logout
act l (press_item i) = (l, navigate i.to ∷ [])
act l open_account = (l, if l.is_open then navigate "/account" ∷ [] else [])
act l open_alerts = (l, navigate "/alerts" ∷ [])
act l toggle_sidebar = (record l { is_open = not l.is_open }, [])
act l logout = handle_logout l
