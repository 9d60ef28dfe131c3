-- ===== src/Forensics/View.antt =====
-- What the forensics page shows, frontend/src/pages/Forensics.tsx: the commands that deploy the agent, the
-- endpoints, the flows of the one that is selected and the results of the flow that is viewed. Dates
-- are printed by the platform.
pub mod Tabs
use Prim.Native.Char.{code}
use Prim.Native.String as Text
use socblitz.Common.{
  ℕ, String, Bool, true, false, not, ◌&&◌, ◌||◌, ◌==◌, ltb, eqb, Option, none, some, List, [], ◌∷◌,
  map, length, or_text, truthy, includes, is_some, if◌then◌else◌,
}
use socblitz.Common.Json.{Json}
use socblitz.Ui.{Part, say, number}
use socblitz.Ui.Table.{or_dash}
use socblitz.ThreatIntel.View.{joined_texts}
use socblitz.Forensics.{
  Client, Flow, ViewFlow, Deploy, Seen, last_seen, is_online, result_artifacts, render_cell,
}

pub record CommandLine : Type 0 where
  pub title : String
  pub text : String
  pub copy_disabled : Bool

-- the hint, or a line for each system
pub data DeployPanel : Type 0 where
  hint : String → DeployPanel
  commands : List CommandLine → DeployPanel

abbrev command_line : String → String → CommandLine
command_line title text = record {
  title = title;
  text = or_text text "Loading…";
  copy_disabled = not (truthy text);
}

-- the panel that `showDeploy` opens
unfoldable pub deploy_panel : Option Deploy → (hint_text : String) → DeployPanel
deploy_panel none hint_text =
    commands (command_line "Linux" "" ∷ command_line "Windows (elevated PowerShell)" "" ∷ [])
deploy_panel (some d) hint_text =
    if d.configured
    then commands
        (command_line "Linux" d.linux ∷ command_line "Windows (elevated PowerShell)" d.windows ∷ [])
    else hint hint_text

-- a row of the endpoints with what else is shown of it; absent texts are "" and an absent time is 0
pub record ClientRow : Type 0 where
  pub client : Client
  pub hostname : String
  pub fqdn : String
  pub release : String
  pub last_seen_at : ℕ

pub record ClientLine : Type 0 where
  pub client_id : String
  pub dot : String
  pub hostname : String
  pub system : List Part
  pub seen : Seen
  pub seen_color : String
  pub is_active : Bool

pub data Endpoints : Type 0 where
  loading : Endpoints
  nobody : Endpoints
  table : List ClientLine → Endpoints

abbrev is_selected : Option Client → String → Bool
is_selected none id = false
is_selected (some c) id = c.client_id == id

unfoldable pub client_line : (now : ℕ) → Option Client → ClientRow → ClientLine
client_line now selected r =
    let seen = last_seen now r.last_seen_at in
    record {
      client_id = r.client.client_id;
      dot = if is_online seen then "#22c55e" else "#64748b";
      hostname = or_text r.hostname (or_dash r.fqdn);
      system = say (or_dash r.client.system) ∷ say " " ∷ say r.release ∷ [];
      seen = seen;
      seen_color = if is_online seen then "#22c55e" else "var(--text-3)";
      is_active = is_selected selected r.client.client_id;
    }

abbrev rows_of : Option (List ClientRow) → List ClientRow
rows_of none = []
rows_of (some rs) = rs

-- the body below `Enrolled endpoints`
unfoldable pub endpoints :
    (is_loading : Bool) → (now : ℕ) → Option Client → Option (List ClientRow) → Endpoints
unfolding client_line
endpoints is_loading now selected clients =
    if is_loading
    then loading
    else if eqb (length (rows_of clients)) 0
    then nobody
    else table (map (client_line now selected) (rows_of clients))

-- `Enrolled endpoints {clients ? …}`
abbrev pub endpoints_title : Option (List ClientRow) → List Part
endpoints_title none = say "Enrolled endpoints " ∷ []
endpoints_title (some rs) = say "Enrolled endpoints " ∷ say "(" ∷ number (length rs) ∷ say ")" ∷ []

-- `selected.os_info?.hostname || selected.client_id`
abbrev pub collect_title : ClientRow → List Part
collect_title r = say "Collect artifact — " ∷ say (or_text r.hostname r.client.client_id) ∷ []

-- a flow with what else is shown of it; an absent state is "" and an absent time is 0
pub record FlowRow : Type 0 where
  pub flow : Flow
  pub state : String
  pub create_time : ℕ

pub record FlowLine : Type 0 where
  pub session_id : String
  pub artifacts : String
  pub state : String
  pub color : String
  pub created : Option ℕ
  pub title : Option String
  pub is_clickable : Bool
  pub is_active : Bool

abbrev is_viewed : Option ViewFlow → String → Bool
is_viewed none id = false
is_viewed (some v) id = v.flow_id == id

-- `firstArtifact` is there, and so not empty
abbrev has_first : List String → Bool
has_first [] = false
has_first (a ∷ _) = truthy a

unfoldable pub state_color : String → String
state_color state =
    if state == "FINISHED" then "#22c55e" else if state == "ERROR" then "#f43f5e" else "#f97316"

unfoldable pub flow_line : Option ViewFlow → FlowRow → FlowLine
unfolding state_color
flow_line viewed r =
    let state = or_dash r.state in
    record {
      session_id = r.flow.session_id;
      artifacts = or_dash (joined_texts r.flow.artifacts);
      state = state;
      color = state_color state;
      created = if eqb r.create_time 0 then none else some r.create_time;
      title = if state == "FINISHED" then some "Click to view collected data" else none;
      is_clickable = has_first (result_artifacts r.flow);
      is_active = is_viewed viewed r.flow.session_id;
    }

abbrev has_slash : String → Bool
has_slash s = includes s "/"

-- `name.includes('/') ? name.split('/').pop() : name`: what follows the last slash
unfoldable pub last_part : String → String
last_part String.[] = ""
last_part (String.◌∷◌ c s) =
    let rest = last_part s in
    if has_slash s then rest else if eqb (code c) b'/' then s else String.◌∷◌ c s

-- a button for an artifact with results
pub record Tab : Type 0 where
  pub name : String
  pub label : String
  pub is_active : Bool

abbrev pub tab : String → String → Tab
tab viewed name = record { name = name; label = last_part name; is_active = viewed == name }

unfoldable pub tabs : ViewFlow → List Tab
tabs v = if ltb 1 (length v.artifacts) then map (tab v.artifact) v.artifacts else []

-- an answer with results
pub record Results : Type 0 where
  pub columns : List String
  pub rows : List (List (Option Json))
  pub total_rows : ℕ

pub data ResultsBody : Type 0 where
  loading : ResultsBody
  no_rows : ResultsBody
  table : (columns : List String) → (rows : List (List (List Part))) → ResultsBody

abbrev count_text : Option Results → List Part
count_text none = []
count_text (some r) =
    say " (" ∷ number (length r.rows) ∷ say " of " ∷ number r.total_rows ∷ say " rows)" ∷ []

abbrev pub results_title : ViewFlow → Option Results → List Part
results_title v results = say "Collected data — " ∷ say v.artifact ∷ count_text results

abbrev results_table : Option Results → ResultsBody
results_table none = no_rows
results_table (some r) =
    if eqb (length r.rows) 0
    then no_rows
    else ResultsBody.table r.columns (map (map render_cell) r.rows)

unfoldable pub results_body : (is_loading : Bool) → Option Results → ResultsBody
results_body is_loading results = if is_loading then ResultsBody.loading else results_table results
