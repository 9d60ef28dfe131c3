-- ===== src/Agents.antt =====
-- The agent page, frontend/src/pages/Agents.tsx: the list with its filters and counts, the removal of
-- an agent and the dialog that shows how to add one.
pub mod Laws
use Prim.Native.String as Text
use socblitz.Common.{
  ℕ, String, Bool, true, false, not, ◌&&◌, ◌||◌, ◌==◌, Option, none, some, List, [], ◌∷◌, filter,
  any, length, find?, get_elem?, truthy, or_text, trim, includes, if◌then◌else◌,
}
use socblitz.Common.Json.{Json, num, str, end, field}
use socblitz.Api.{platform, intel, list_agents, delete_agent, agent_deploy_command}
use socblitz.Ui.{
  Effect, Query, send, invalidate, toast_success, toast_error, clipboard, success, failure, say,
  Detail, detail_or,
}

-- a row of the list
pub record Agent : Type 0 where
  pub id : String
  pub agent_id : String
  pub name : Option String
  pub hostname : Option String
  pub ip : Option String
  pub os : Option String
  pub status : String

-- `STATUS_CONFIG`: the label of a status
unfoldable pub status_label : String → String
status_label status =
    if status == "active"
    then "Active"
    else if status == "disconnected"
    then "Disconnected"
    else if status == "never"
    then "Never seen"
    else "Pending"

unfoldable pub agents_query : Query
agents_query = record {
  key = str "agents" ∷ [];
  call = platform (list_agents (some (field "limit" (num 500) end)));
  enabled = true;
}

pub data Os : Type 0 where
  linux macos windows : Os

-- `OS_LABELS`
abbrev pub os_label : Os → String
os_label linux = "Linux"
os_label macos = "macOS"
os_label windows = "Windows"

-- What the server says of enrolling an agent; an absent command is "".
pub record Deploy : Type 0 where
  pub configured : Bool
  pub linux_command : String
  pub macos_command : String
  pub windows_command : String

-- `data?.[os] || ''`
unfoldable pub command : Option Deploy → Os → String
command none os = ""
command (some d) linux = d.linux_command
command (some d) macos = d.macos_command
command (some d) windows = d.windows_command

unfoldable pub deploy_query : Query
deploy_query = record {
  key = str "agent-deploy-command" ∷ [];
  call = intel agent_deploy_command;
  enabled = true;
}

pub record Agents : Type 0 where
  -- what the two queries have answered
  pub agents : List Agent
  pub deploy : Option Deploy
  pub search : String
  pub status_filter : String
  -- the dialog with the system that is picked in it, where it is open
  pub add : Option Os
  -- `removeMutation.isPending`
  pub removing : Bool

unfoldable pub opened : Agents
opened = record {
  agents = [];
  deploy = none;
  search = "";
  status_filter = "";
  add = none;
  removing = false;
}

pub record Counts : Type 0 where
  pub active : ℕ
  pub disconnected : ℕ
  pub total : ℕ

-- `counts`
unfoldable pub counts : List Agent → Counts
counts agents = record {
  active = length (filter (λ a. a.status == "active") agents);
  disconnected = length (filter (λ a. a.status == "disconnected") agents);
  total = length agents;
}

pub data Event : Type 0 where
  agents_loaded : List Agent → Event
  deploy_loaded : Deploy → Event
  type_search : String → Event
  pick_status : String → Event
  show_add : Event
  close_add : Event
  pick_os : Os → Event
  copy : Event
  copied : Event
  copy_failed : Event
  -- the button Remove of a row that is shown, with the answer to its question
  remove : (row : ℕ) (confirmed : Bool) → Event
  -- the name and the id that the answer gives, "" where it gives none
  removed : (name agent_id : String) → Event
  remove_failed : Detail → Event

-- `toLowerCase` belongs to the platform and is a parameter.
module _ (lower : String → String) where
  -- `f?.toLowerCase().includes(search.toLowerCase())`
  abbrev pub holds : String → Option String → Bool
  holds search none = false
  holds search (some f) = includes (lower f) (lower search)

  -- `matchSearch`
  unfoldable pub match_search : String → Agent → Bool
  match_search search a =
      not (truthy search) || any (holds search) (a.name ∷ a.ip ∷ a.os ∷ a.hostname ∷ [])

  -- `matchStatus`
  abbrev pub match_status : String → Agent → Bool
  match_status status a = not (truthy status) || a.status == status

  -- `filtered`
  unfoldable pub filtered : Agents → List Agent
  filtered p = filter (λ a. match_search p.search a && match_status p.status_filter a) p.agents

  -- the button of a row: the manager has none
  unfoldable pub confirm_remove : Agents → Option Agent → Bool → Agents × List Effect
  confirm_remove p none confirmed = (p, [])
  confirm_remove p (some a) confirmed =
      if a.agent_id == "000" || p.removing || not confirmed
      then (p, [])
      else (record p { removing = true }, send (platform (delete_agent a.id)) ∷ [])

  -- the button that copies the command, where the dialog shows one
  copy_command : Option Deploy → Option Os → List Effect
  unfolding command
  copy_command (some d) (some os) =
      if d.configured then clipboard (command (some d) os ∷ []) ∷ [] else []
  copy_command _ _ = []

  pick : Option Os → Os → Option Os
  pick none os = none
  pick (some _) os = some os

  unfoldable pub act : Agents → Event → Agents × List Effect
  unfolding filtered confirm_remove copy_command pick
  act p (agents_loaded agents) = (record p { agents = agents }, [])
  act p (deploy_loaded d) = (record p { deploy = some d }, [])
  act p (type_search s) = (record p { search = s }, [])
  act p (pick_status s) = (record p { status_filter = s }, [])
  act p show_add = (record p { add = some linux }, [])
  act p close_add = (record p { add = none }, [])
  act p (pick_os os) = (record p { add = pick p.add os }, [])
  act p copy = (p, copy_command p.deploy p.add)
  act p copied = (p, success "Copied to clipboard" ∷ [])
  act p copy_failed = (p, failure "Copy failed — select and copy manually" ∷ [])
  act p (remove row confirmed) = confirm_remove p (get_elem? (filtered p) row) confirmed
  act p (removed name agent_id) =
      if p.removing
      then (
        record p { removing = false },
        invalidate (str "agents" ∷ [])
            ∷ toast_success (say (trim (Text.◌++◌ "Removed agent " (or_text name agent_id))) ∷ [])
            ∷ [],
      )
      else (p, [])
  act p (remove_failed d) =
      if p.removing
      then (record p { removing = false }, toast_error (detail_or d "Failed to remove agent") ∷ [])
      else (p, [])

  unfoldable pub run : Agents → List Event → Agents
  run p [] = p
  run p (e ∷ es) = run (act p e).0 es
