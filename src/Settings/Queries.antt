-- ===== src/Settings/Queries.antt =====
-- The queries of the settings page, frontend/src/pages/Settings.tsx, and what it shows of the health of the
-- system.
use socblitz.Common.{String, true, Option, List, [], ◌∷◌, ◌==◌, or_text, if◌then◌else◌}
use socblitz.Common.Json.{str}
use socblitz.Api.{alerts, health}
use socblitz.Ui.{Query}
use socblitz.Settings.{me_query, users_query, tenants_query}

unfoldable pub health_query : Query
health_query = record { key = str "health" ∷ []; call = alerts health; enabled = true }

-- all that the page asks `useQuery` for
unfoldable pub queries : Option String → List Query
unfolding me_query health_query users_query tenants_query
queries role = me_query ∷ health_query ∷ users_query role ∷ tenants_query role ∷ []

-- what the system status shows of the answer of the health query: `status`, absent as "", and `checks`
pub record Health : Type 0 where
  pub status : String
  pub checks : List (String × String)

-- the colour of the dot, and the text beside it
unfoldable pub health_status : Health → String × String
health_status h = (if h.status == "ok" then "#22c55e" else "#f59e0b", or_text h.status "checking…")

-- the name, the colour and the text of a check
unfoldable pub check_line : String × String → String × String × String
check_line (name, state) =
    if state == "ok" then (name, "#22c55e", "OK") else (name, "#f87171", "Error")
