-- ===== src/Forensics.antt =====
-- The forensics page, frontend/src/pages/Forensics.tsx: the endpoints, the collection of an artifact on
-- the one that is selected, its flows, and the results of the flow that is viewed.
pub mod Laws
pub mod View
use socblitz.Common.{
  ℕ, String, Bool, true, false, not, ◌&&◌, ◌||◌, ◌==◌, ◌+◌, ◌-◌, ◌*◌, ◌/◌, Option, none, some, List,
  [], ◌∷◌, get_elem?, find?, or_text, trim, truthy, includes, is_some, ltb, eqb, if◌then◌else◌,
}
use socblitz.Common.Json.{Json, Fields, null, arr, obj, str, nullable}
use socblitz.Api.{
  intel, agent_deploy_command, forensics_clients, forensics_flows, forensics_collect,
  forensics_results,
}
use socblitz.Ui.{
  Effect, Part, Query, send, invalidate, toast_success, toast_error, success, clipboard, say, value,
  Detail, detail_or,
}

-- what `lastSeen` says; `date` is printed by the platform
pub data Seen : Type 0 where
  never : Seen
  online : Seen
  minutes_ago : ℕ → Seen
  hours_ago : ℕ → Seen
  date : (usec : ℕ) → Seen

-- the microseconds of a minute
abbrev pub minute : ℕ
minute = 60000000

-- `Math.round` of a time in units
abbrev pub rounded : ℕ → ℕ → ℕ
rounded age unit = (age + unit / 2) / unit

unfoldable pub age_seen : ℕ → ℕ → Seen
age_seen age usec =
    if ltb age (2 * minute)
    then online
    else if ltb age (60 * minute)
    then minutes_ago (rounded age minute)
    else if ltb age (1440 * minute)
    then hours_ago (rounded age (60 * minute))
    else date usec

-- `lastSeen`, where the clock and the argument are in microseconds; 0 is a number that is missing, and a
-- time to come has the age 0
unfoldable pub last_seen : ℕ → ℕ → Seen
unfolding age_seen
last_seen now usec = if eqb usec 0 then never else age_seen (now - usec) usec

abbrev pub is_online : Seen → Bool
is_online online = true
is_online _ = false

-- a row of the endpoints; an absent text is ""
pub record Client : Type 0 where
  pub client_id : String
  pub system : String

-- `ctx` of a flow: `artifacts_with_results` and `request.artifacts`, absent as []
pub record Flow : Type 0 where
  pub session_id : String
  pub artifacts_with_results : List String
  pub artifacts : List String

-- `resultArtifacts`
unfoldable pub result_artifacts : Flow → List String
result_artifacts f = elim f.artifacts_with_results [ [] ↦ f.artifacts | a ∷ as' ↦ a ∷ as' ]

pub record ViewFlow : Type 0 where
  pub flow_id : String
  pub artifact : String
  pub artifacts : List String

pub record Deploy : Type 0 where
  pub configured : Bool
  pub linux : String
  pub windows : String

-- The state, with what the queries have answered so far; the flows are kept by the endpoint.
pub record Forensics : Type 0 where
  pub clients : List Client
  pub flows : String → List Flow
  pub selected : Option Client
  pub artifact : String
  -- the endpoint and the artifact of the collection that is awaited
  pub collecting : Option (Client × String)
  pub show_deploy : Bool
  pub deploy : Option Deploy
  pub view_flow : Option ViewFlow

unfoldable pub opened : Forensics
opened = record {
  clients = [];
  flows = λ _. [];
  selected = none;
  artifact = "";
  collecting = none;
  show_deploy = false;
  deploy = none;
  view_flow = none;
}

unfoldable pub clients_query : Query
clients_query = record {
  key = str "forensics-clients" ∷ [];
  call = intel forensics_clients;
  enabled = true;
}

unfoldable pub deploy_query : Forensics → Query
deploy_query p = record {
  key = str "agent-deploy-command" ∷ [];
  call = intel agent_deploy_command;
  enabled = p.show_deploy;
}

-- the query of the flows, where it is enabled
unfoldable pub flows_query : Forensics → Option Query
flows_query p = elim p.selected [
  | none ↦ none
  | some c ↦ some (record {
    key = str "forensics-flows" ∷ str c.client_id ∷ [];
    call = intel (forensics_flows c.client_id);
    enabled = true;
  })
]

unfoldable pub results_of : Option Client → Option ViewFlow → Option Query
results_of (some c) (some v) = some (record {
  key = str "forensics-results" ∷ str c.client_id ∷ str v.flow_id ∷ str v.artifact ∷ [];
  call = intel (forensics_results c.client_id v.flow_id v.artifact);
  enabled = true;
})
results_of _ _ = none

-- the query of the results, where it is enabled
unfoldable pub results_query : Forensics → Option Query
unfolding results_of
results_query p = results_of p.selected p.view_flow

-- `renderCell`; a value that is put in as it is is printed by `String` or `JSON.stringify`
unfoldable pub render_cell : Option Json → List Part
render_cell none = []
render_cell (some null) = []
render_cell (some j) = value j ∷ []

-- `SUGGESTED_ARTIFACTS`
abbrev pub suggested_artifacts : (windows : Bool) → List String
suggested_artifacts true =
    "Windows.System.Pstree" ∷ "Windows.Network.Netstat" ∷ "Windows.Sys.Users"
    ∷ "Windows.KapeFiles.Targets" ∷ "Windows.Forensics.Timeline" ∷ []
suggested_artifacts false =
    "Linux.Sys.Pslist" ∷ "Linux.Network.Netstat" ∷ "Linux.Sys.Users" ∷ "Linux.Sys.Crontab"
    ∷ "Linux.Search.FileFinder" ∷ []

pub data Event : Type 0 where
  clients_loaded : List Client → Event
  -- an answer of the flows' query for an endpoint
  flows_loaded : (client_id : String) → List Flow → Event
  deploy_loaded : Deploy → Event
  toggle_deploy : Event
  copy_command : (windows : Bool) → Event
  -- rows and buttons, by their places
  select : ℕ → Event
  type_artifact : String → Event
  suggest : ℕ → Event
  collect : Event
  open_flow : ℕ → Event
  pick_artifact : ℕ → Event
  collected : Event
  collect_failed : Detail → Event

-- `setSelected(c); setViewFlow(null)` of a row
selected_client : Forensics → Option Client → Forensics
selected_client p none = p
selected_client p (some c) = record p { selected = some c; view_flow = none }

-- `SUGGESTED_ARTIFACTS[os]` for a system in lower case
abbrev pub suggested : String → List String
suggested system = suggested_artifacts (includes system "win")

artifact_or : Forensics → Option String → Forensics
artifact_or p none = p
artifact_or p (some a) = record p { artifact = a }

-- `handleCollect` up to its `await`; the form is shown for a selected endpoint only
handle_collect : Forensics → Option Client → Forensics × List Effect
handle_collect p none = (p, [])
handle_collect p (some c) =
    if is_some p.collecting || not (truthy (trim p.artifact)) then (p, []) else (
      record p { collecting = some (c, trim p.artifact) },
      send (intel (forensics_collect c.client_id (trim p.artifact) none)) ∷ [],
    )

-- `flows || []`
abbrev pub shown_flows : (String → List Flow) → Option Client → List Flow
shown_flows flows none = []
shown_flows flows (some c) = flows c.client_id

-- an answer of the flows' query, put into the cache
unfoldable pub keep_flows : (String → List Flow) → String → List Flow → String → List Flow
keep_flows flows id fs key = if key == id then fs else flows key

-- the row of a flow opens its first artifact, where it has one
unfoldable pub viewed : Forensics → Flow → List String → Forensics
viewed p f [] = p
viewed p f (a ∷ as') =
    if truthy a
    then record p {
      view_flow = some (record { flow_id = f.session_id; artifact = a; artifacts = a ∷ as' });
    }
    else p

unfoldable pub viewed_flow : Forensics → Option Flow → Forensics
unfolding viewed result_artifacts
viewed_flow p none = p
viewed_flow p (some f) = viewed p f (result_artifacts f)

abbrev pub with_artifact : ViewFlow → Option String → Option ViewFlow
with_artifact v none = some v
with_artifact v (some a) = some (record v { artifact = a })

-- `setViewFlow({ ...viewFlow, artifact: name })` of a button
unfoldable pub view_artifact : Option ViewFlow → ℕ → Option ViewFlow
view_artifact none i = none
view_artifact (some v) i = with_artifact v (get_elem? v.artifacts i)

-- the answer to a collection, for the endpoint that it was asked for
started : Forensics → Option (Client × String) → Forensics × List Effect
started p none = (p, [])
started p (some (c, a)) = (
  record p { collecting = none; artifact = "" },
  toast_success (say "Collection started: " ∷ say a ∷ [])
      ∷ invalidate (str "forensics-flows" ∷ str c.client_id ∷ [])
      ∷ [],
)

command : Option Deploy → Bool → String
command none windows = ""
command (some d) true = if d.configured then d.windows else ""
command (some d) false = if d.configured then d.linux else ""

-- the button Copy of a system, which is disabled without a command
copied : String → List Effect
copied cmd =
    if truthy cmd then clipboard (cmd ∷ []) ∷ success "Command copied to clipboard" ∷ [] else []

-- `toLowerCase` belongs to the platform and is a parameter.
module _ (lower : String → String) where
  -- `SUGGESTED_ARTIFACTS[os]`
  suggestions : Option Client → List String
  suggestions none = []
  suggestions (some c) = suggested (lower c.system)

  unfoldable pub act : Forensics → Event → Forensics × List Effect
  unfolding keep_flows selected_client suggestions artifact_or handle_collect viewed_flow
      view_artifact started command copied
  act p (clients_loaded cs) = (record p { clients = cs }, [])
  act p (flows_loaded id fs) = (record p { flows = keep_flows p.flows id fs }, [])
  act p (deploy_loaded d) = (record p { deploy = some d }, [])
  act p toggle_deploy = (record p { show_deploy = not p.show_deploy }, [])
  act p (copy_command windows) =
      (p, if p.show_deploy then copied (command p.deploy windows) else [])
  act p (select i) = (selected_client p (get_elem? p.clients i), [])
  act p (type_artifact s) = if is_some p.selected then (record p { artifact = s }, []) else (p, [])
  act p (suggest i) = (artifact_or p (get_elem? (suggestions p.selected) i), [])
  act p collect = handle_collect p p.selected
  act p (open_flow i) = (viewed_flow p (get_elem? (shown_flows p.flows p.selected) i), [])
  act p (pick_artifact i) = (record p { view_flow = view_artifact p.view_flow i }, [])
  act p collected = started p p.collecting
  act p (collect_failed d) =
      if is_some p.collecting
      then (record p { collecting = none }, toast_error (detail_or d "Collection failed") ∷ [])
      else (p, [])

  unfoldable pub run : Forensics → List Event → Forensics
  run p [] = p
  run p (e ∷ es) = run (act p e).0 es
