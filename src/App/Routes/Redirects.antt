-- ===== src/App/Routes/Redirects.antt =====
-- Where the redirects of the routes end.
use socblitz.Common.{ℕ, suc, String, true, ◌≡◌, refl, some, [], ◌∷◌, map, arith, if◌then◌else◌}
use socblitz.Api.{AuthState}
use socblitz.App.{auth_guard, shows}
use socblitz.App.Routes.{
  Route, login, overview, alerts, events, agents, custom_dashboard, cases, threat_intel, dark_web,
  forensics, soar, engine, connectors, settings, component, navigate_to, path, is_static, element,
  is_guarded, visit, follow,
}
use socblitz.Layout.{NavItem, nav_items}

-- React Router finds a route without parameters at its own path.
abbrev pub FindsStatic : (String → Route) → Type 0
FindsStatic choose = (r : Route) → is_static r ≡ true → choose (path r) ≡ r

-- the component of a route, where every other address leads to the overview
unfoldable pub landing : Route → String
unfolding element
landing r = elim (element r) [ component name ↦ name | navigate_to address ↦ "Dashboard" ]

module _ (choose : String → Route) (finds : FindsStatic choose) where
  at_login : choose "/login" ≡ login
  unfolding path is_static
  at_login = finds login refl

  at_dashboard : choose "/dashboard" ≡ overview
  unfolding path is_static
  at_dashboard = finds overview refl

  -- Where React Router finds the routes without parameters at their own paths, the redirects end after at
  -- most three routes from any address: at the sign-in page where the guard lets nobody through, and
  -- otherwise at the component of the route of the address, or the overview where that route redirects.
  pub follow-landing :
      (auth : AuthState) (n : ℕ) (address : String)
      → follow choose auth (suc (suc (suc n))) address
        ≡ some (if shows (auth_guard auth) then landing (choose address) else "Login")
  unfolding follow visit is_guarded element landing
  follow-landing auth n address = ground (arith, at_login, at_dashboard)

  -- Where React Router finds the routes without parameters at their own paths and the guard lets the user
  -- through, every link of the navigation shows its page at once, without a redirect.
  pub follow-nav_items :
      (auth : AuthState)
      → shows (auth_guard auth) ≡ true
      → map (λ i. follow choose auth 1 (NavItem.to i)) nav_items
        ≡ some "Dashboard"
          ∷ some "Alerts"
          ∷ some "Events"
          ∷ some "Agents"
          ∷ some "CustomDashboard"
          ∷ some "Cases"
          ∷ some "ThreatIntel"
          ∷ some "DarkWeb"
          ∷ some "Forensics"
          ∷ some "SOAR"
          ∷ some "SocBlitzEngine"
          ∷ some "Connectors"
          ∷ some "Settings"
          ∷ []
  unfolding follow visit is_guarded element path is_static
  follow-nav_items auth h = ground (
    arith,
    finds overview refl,
    finds alerts refl,
    finds events refl,
    finds agents refl,
    finds custom_dashboard refl,
    finds cases refl,
    finds threat_intel refl,
    finds dark_web refl,
    finds forensics refl,
    finds soar refl,
    finds engine refl,
    finds connectors refl,
    finds settings refl,
  )
