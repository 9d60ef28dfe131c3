-- ===== src/Examples/Platforms.antt =====
-- The agent, forensics, settings, workflow list and connector pages, and the frame, at concrete inputs.
use socblitz.Common.{String, Bool, true, false, ◌≡◌, ◌≢◌, refl, none, some, List, [], ◌∷◌}
use socblitz.Common.Json.{str}
use socblitz.Api.{intel, forensics_results}
use socblitz.Agents
use socblitz.Agents.{Agent}
use socblitz.Agents.Laws.{removals}
use socblitz.Forensics.View.{tabs, last_part}
use socblitz.Forensics.View.Tabs.{is_marked, run-is_marked}
use socblitz.Forensics
use socblitz.Forensics.{
  Client, Flow, ViewFlow, clients_loaded, flows_loaded, select, open_flow, results_query, last_seen,
}
use socblitz.Forensics.Laws.{run-results_query}
use socblitz.Settings
use socblitz.Settings.{
  User, users_query, tenants_query, users_loaded, toggle_user_form, submit_user, reset_mfa,
}
use socblitz.Soar
use socblitz.Soar.{WorkflowRow, toggle}
use socblitz.Connectors.{Connector}
use socblitz.Layout.{Layout}

abbrev same_letters : String → String
same_letters s = s

abbrev agent : String → String → Agent
agent id agent_id = record {
  id = id;
  agent_id = agent_id;
  name = some "web-01";
  hostname = none;
  ip = none;
  os = none;
  status = "active";
}

abbrev agent_page : Agents.Agents
agent_page = record {
  agents = agent "m" "000" ∷ agent "a" "001" ∷ [];
  deploy = none;
  search = "";
  status_filter = "";
  add = none;
  removing = false;
}

-- the agent is removed, the manager is not
removals_two :
    (removals (Agents.act same_letters agent_page (Agents.remove 1 true)).1 ≡ "a" ∷ [])
    × (removals (Agents.act same_letters agent_page (Agents.remove 0 true)).1 ≡ [])
unfolding Agents.act Agents.filtered Agents.match_search Agents.confirm_remove
removals_two = (refl, refl)

abbrev host : Client
host = record { client_id = "C.1"; system = "linux" }

abbrev flow : Flow
flow = record {
  session_id = "F.1";
  artifacts_with_results = [];
  artifacts = "Linux.Sys.Pslist" ∷ [];
}

abbrev owner : String → String
owner flow_id = "C.1"

abbrev view : ViewFlow
view = record {
  flow_id = "F.1";
  artifact = "Linux.Sys.Pslist";
  artifacts = "Linux.Sys.Pslist" ∷ [];
}

abbrev hunt : List Forensics.Event
hunt = clients_loaded (host ∷ []) ∷ select 0 ∷ flows_loaded "C.1" (flow ∷ []) ∷ open_flow 0 ∷ []

hunt_ends :
    ((Forensics.run same_letters Forensics.opened hunt).selected ≡ some host)
    × ((Forensics.run same_letters Forensics.opened hunt).view_flow ≡ some view)
unfolding Forensics.run Forensics.act Forensics.opened Forensics.viewed_flow Forensics.viewed
    Forensics.result_artifacts Forensics.keep_flows
hunt_ends = (refl, refl)

run-results_query_example :
    (results_query (Forensics.run same_letters Forensics.opened hunt)
      ≡ some (record {
        key = str "forensics-results" ∷ str "C.1" ∷ str "F.1" ∷ str "Linux.Sys.Pslist" ∷ [];
        call = intel (forensics_results "C.1" "F.1" "Linux.Sys.Pslist");
        enabled = true;
      }))
    × (owner "F.1" ≡ "C.1")
run-results_query_example =
    run-results_query owner same_letters hunt host view (tt, (tt, ((refl, tt), (tt, tt))))
      hunt_ends.0 hunt_ends.1

-- a flow with two artifacts, of which the second is picked
abbrev big_flow : Flow
big_flow = record {
  session_id = "F.2";
  artifacts_with_results = [];
  artifacts = "Linux.Sys.Users" ∷ "Custom/Linux/Cron" ∷ [];
}

abbrev browsing : List Forensics.Event
browsing =
    clients_loaded (host ∷ [])
    ∷ select 0
    ∷ flows_loaded "C.1" (big_flow ∷ [])
    ∷ open_flow 0
    ∷ Forensics.pick_artifact 1
    ∷ []

abbrev browsed : ViewFlow
browsed = record {
  flow_id = "F.2";
  artifact = "Custom/Linux/Cron";
  artifacts = "Linux.Sys.Users" ∷ "Custom/Linux/Cron" ∷ [];
}

browsing_ends : (Forensics.run same_letters Forensics.opened browsing).view_flow ≡ some browsed
unfolding Forensics.run Forensics.act Forensics.opened Forensics.viewed_flow Forensics.viewed
    Forensics.result_artifacts Forensics.keep_flows Forensics.view_artifact
browsing_ends = refl

two_tabs : tabs browsed ≢ []
unfolding tabs
two_tabs e = cc e

run-is_marked_example : is_marked (tabs browsed) ≡ true
run-is_marked_example = run-is_marked same_letters browsing browsed browsing_ends two_tabs

-- the name on a button is what follows the last slash
last_part_cron : last_part "Custom/Linux/Cron" ≡ "Cron"
unfolding last_part
last_part_cron = refl

-- an endpoint that was seen 59 and a half minutes ago is shown with 60 minutes
last_seen_60 : last_seen 3570000001 1 ≡ Forensics.minutes_ago 60
unfolding last_seen
last_seen_60 = refl

abbrev boss : User
boss = record { id = "u1"; email = "boss@acme.com"; mfa_enabled = true }

abbrev settings_visit : List Settings.Event
settings_visit = users_loaded (boss ∷ []) ∷ toggle_user_form ∷ submit_user ∷ reset_mfa 0 true ∷ []

not_resetting : Settings.opened.resetting_mfa ≡ false
unfolding Settings.opened
not_resetting = refl

abbrev playbook : WorkflowRow
playbook = record {
  id = "w1";
  is_active = true;
  run_count = 3;
  trigger_type = "alert";
  trigger_severity = none;
}

abbrev soar_page : Soar.Soar
soar_page = record {
  workflows = playbook ∷ [];
  expanded = some "w1";
  running = false;
  toggling = false;
}

abbrev connector : Bool → Connector
connector verified = record { id = "c"; verified = verified; url = ""; username = "" }

abbrev connectors : List Connector
connectors = connector true ∷ connector false ∷ []

abbrev frame : Layout
frame = record {
  is_open = true;
  auth = record { token = some "t"; user_id = none; role = some "admin"; full_name = none };
}
