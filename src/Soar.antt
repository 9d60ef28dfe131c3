-- ===== src/Soar.antt =====
-- The list of workflows, frontend/src/pages/SettingsSOAR.tsx: the figures above it, the row that is
-- open, and the buttons of that row. A workflow is opened in the builder, which is Workflow.
pub mod Laws
use Prim.Native.String as Text
use socblitz.Common.{
  ℕ, String, Bool, true, false, not, ◌&&◌, ◌||◌, ◌==◌, ◌+◌, Option, none, some, List, [], ◌∷◌, ◌++◌,
  filter, length, get_elem?, found_is, or_else, if◌then◌else◌,
}
use socblitz.Common.Json.{Json, bool, obj, str, end, field}
use socblitz.Api.{platform, list_workflows, run_workflow, update_workflow, delete_workflow}
use socblitz.Ui.{Effect, Query, send, invalidate, success, failure, navigate, replace_by_editor}

-- what the page reads of a workflow
pub record WorkflowRow : Type 0 where
  pub id : String
  pub is_active : Bool
  -- `run_count || 0`
  pub run_count : ℕ
  pub trigger_type : String
  -- `trigger_config?.severity`
  pub trigger_severity : Option String

-- `describeTrigger`
unfoldable pub describe_trigger : WorkflowRow → String
describe_trigger wf =
    if wf.trigger_type == "alert"
    then Text.◌++◌ "Alert: severity>=" (or_else wf.trigger_severity "critical")
    else if wf.trigger_type == "schedule"
    then "Schedule"
    else if wf.trigger_type == "webhook"
    then "Webhook"
    else "Manual"

-- the three figures above the list
unfoldable pub enabled_count : List WorkflowRow → ℕ
enabled_count list = length (filter (λ w. w.is_active) list)

unfoldable pub total_executions : List WorkflowRow → ℕ
total_executions [] = 0
total_executions (w ∷ ws) = w.run_count + total_executions ws

unfoldable pub workflows_query : Query
workflows_query = record {
  key = str "workflows" ∷ [];
  call = platform list_workflows;
  enabled = true;
}

-- The state; the flags are `isPending` of the mutations whose buttons heed it.
pub record Soar : Type 0 where
  pub workflows : List WorkflowRow
  pub expanded : Option String
  pub running : Bool
  pub toggling : Bool

unfoldable pub opened : Soar
opened = record { workflows = []; expanded = none; running = false; toggling = false }

pub data Event : Type 0 where
  workflows_loaded : List WorkflowRow → Event
  new_workflow : Event
  -- rows by their places; the buttons are those of a row that is open
  press_row : ℕ → Event
  run_now : ℕ → Event
  toggle : ℕ → Event
  edit : ℕ → Event
  delete : (row : ℕ) (confirmed : Bool) → Event
  run_queued : Event
  run_failed : Event
  updated : Event
  update_failed : Event
  deleted : Event
  delete_failed : Event

-- `setExpanded(isExp ? null : wf.id)`
unfoldable pub expand : Option String → String → Option String
expand expanded id = if found_is expanded id then none else some id

-- the workflow of a row that is open
unfoldable pub open_row : Option String → Option WorkflowRow → Option WorkflowRow
open_row expanded none = none
open_row expanded (some wf) = if found_is expanded wf.id then some wf else none

pressed : Soar → Option WorkflowRow → Soar
unfolding expand
pressed p none = p
pressed p (some wf) = record p { expanded = expand p.expanded wf.id }

unfoldable pub run_row : Soar → Option WorkflowRow → Soar × List Effect
run_row p none = (p, [])
run_row p (some wf) =
    if p.running
    then (p, [])
    else (record p { running = true }, send (platform (run_workflow wf.id none)) ∷ [])

unfoldable pub toggle_row : Soar → Option WorkflowRow → Soar × List Effect
toggle_row p none = (p, [])
toggle_row p (some wf) = if p.toggling then (p, []) else (
  record p { toggling = true },
  send (platform (update_workflow wf.id (obj (field "is_active" (bool (not wf.is_active)) end))))
      ∷ [],
)

edit_row : Option WorkflowRow → List Effect
edit_row none = []
edit_row (some wf) = navigate (Text.◌++◌ "/soar/" (Text.◌++◌ wf.id "/edit")) ∷ []

unfoldable pub delete_row : Option WorkflowRow → Bool → List Effect
delete_row none confirmed = []
delete_row (some wf) confirmed =
    if confirmed then send (platform (delete_workflow wf.id)) ∷ [] else []

unfoldable pub target : Soar → ℕ → Option WorkflowRow
unfolding open_row
target p i = open_row p.expanded (get_elem? p.workflows i)

unfoldable pub act : Soar → Event → Soar × List Effect
unfolding target pressed run_row toggle_row edit_row delete_row
act p (workflows_loaded ws) = (record p { workflows = ws }, [])
act p new_workflow = (p, navigate "/soar/new" ∷ [])
act p (press_row i) = (pressed p (get_elem? p.workflows i), [])
act p (run_now i) = run_row p (target p i)
act p (toggle i) = toggle_row p (target p i)
act p (edit i) = (p, edit_row (target p i))
act p (delete i confirmed) = (p, delete_row (target p i) confirmed)
act p run_queued =
    if p.running
    then (
      record p { running = false },
      success "Workflow run queued" ∷ invalidate (str "workflows" ∷ []) ∷ [],
    )
    else (p, [])
act p run_failed =
    if p.running
    then (record p { running = false }, failure "Failed to queue workflow run" ∷ [])
    else (p, [])
act p updated =
    if p.toggling
    then (record p { toggling = false }, invalidate (str "workflows" ∷ []) ∷ [])
    else (p, [])
act p update_failed =
    if p.toggling
    then (record p { toggling = false }, failure "Failed to update workflow" ∷ [])
    else (p, [])
act p deleted = (p, success "Workflow deleted" ∷ invalidate (str "workflows" ∷ []) ∷ [])
act p delete_failed = (p, failure "Failed to delete workflow" ∷ [])
