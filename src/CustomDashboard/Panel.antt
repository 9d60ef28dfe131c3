-- ===== src/CustomDashboard/Panel.antt =====
-- The controls of the dashboard page, frontend/src/pages/CustomDashboard.tsx: the dropdown, the box for a
-- new dashboard, the buttons of the selected one, and the panel that generates widgets. The two
-- effects of a render are those of the parent. An answer meets the page as it is when it arrives: React
-- Query 5 gives a mutation that is under way the callbacks of the latest render.
pub mod Answers
use socblitz.Common.{
  ℕ, String, Bool, true, false, not, ◌&&◌, ◌||◌, Option, none, some, List, [], ◌∷◌, ◌++◌, truthy,
  trim, get_elem?, if◌then◌else◌,
}
use socblitz.Common.Json.{Json}
use socblitz.Api.{alerts, create_dashboard, generate_dashboard, delete_dashboard}
use socblitz.Ui.{Effect, Query, send, failure}
use socblitz.CustomDashboard.{
  Dashboard, Widget, Page, opened, is_insights, is_builtin, insights_query, vulns_query, add_widget,
  remove_widget, handle_generate, save, saved_ok, created_ok, deleted_ok, select_view,
}

-- `HOURS_OPTIONS`
abbrev pub hours_options : List ℕ
hours_options = 24 ∷ 168 ∷ []

-- `PROMPT_SUGGESTIONS`
abbrev pub prompt_suggestions : List String
prompt_suggestions =
    "Show event volume over time" ∷ "Break down events by MITRE tactic"
    ∷ "Which agents are generating the most events?"
    ∷ "Show authentication failures as a line chart" ∷ "Top 5 source IPs as a pie chart"
    ∷ "What quiet but risky events might I be missing?" ∷ []

-- The page with what its queries and its mutations hold; the flags are `isPending`.
pub record Panel : Type 0 where
  pub page : Page
  pub dashboards : List Dashboard
  -- `generateMutation.data`
  pub generated : Option (List Widget)
  pub generating : Bool
  pub creating : Bool
  pub saving : Bool

unfoldable pub open_panel : Panel
unfolding opened
open_panel = record {
  page = opened;
  dashboards = [];
  generated = none;
  generating = false;
  creating = false;
  saving = false;
}

pub data Event : Type 0 where
  dashboards_loaded : List Dashboard → Event
  -- buttons and entries of lists, by their places
  pick_hours : ℕ → Event
  toggle_menu : Event
  pick_view : (view : String) → Event
  new_dashboard : Event
  type_name : String → Event
  press_enter_name : Event
  press_create : Event
  press_save : Event
  press_delete : (confirmed : Bool) → Event
  press_refresh : Event
  press_remove : ℕ → Event
  type_prompt : String → Event
  press_enter_prompt : Event
  press_generate : Event
  pick_suggestion : ℕ → Event
  press_add : ℕ → Event
  -- answers of the server; the generation or the creation may be the one that was started last
  generate_reply : (latest : Bool) → List Widget → Event
  generate_failed : (latest : Bool) → Event
  create_reply : (latest : Bool) → Dashboard → Event
  create_failed : (latest : Bool) → Event
  save_reply : Json → Event
  save_failed : Event
  delete_reply : Event
  delete_failed : Event

abbrev with_page : Panel → Page × List Effect → Panel × List Effect
with_page q (p, fs) = (record q { page = p }, fs)

hours_or : Panel → Option ℕ → Panel
hours_or q none = q
hours_or q (some hours) = record q { page = record q.page { hours = hours } }

-- `createMutation.mutate(newName.trim())`, in the box that the dropdown shows
unfoldable pub create : Panel → Panel × List Effect
create q =
    if q.page.menu_open && q.page.creating && truthy (trim q.page.new_name)
    then (
      record q { creating = true },
      send (alerts (create_dashboard (trim q.page.new_name))) ∷ [],
    )
    else (q, [])

-- a generation forgets the widgets of the one before
abbrev generates : Panel → List Effect → Panel × List Effect
generates q [] = (q, [])
generates q (f ∷ fs) = (record q { generated = none; generating = true }, f ∷ fs)

suggest : Panel → Option String → Panel × List Effect
suggest q none = (q, [])
suggest q (some s) = (
  record q { page = record q.page { prompt = s }; generated = none; generating = true },
  send (alerts (generate_dashboard s (some q.page.hours))) ∷ [],
)

-- a widget of the panel, which is shown unless a generation is awaited
shown_widget : Panel → ℕ → Option Widget
shown_widget q i =
    if q.generating then none else elim q.generated [ none ↦ none | some ws ↦ get_elem? ws i ]

added : Panel → Option Widget → Panel × List Effect
added q none = (q, [])
added q (some w) = with_page q (add_widget q.page w)

abbrev call_of : Query → Effect
call_of query = send query.call

-- the button Refresh of a built-in view
refresh : Page → List Effect
refresh p =
    if is_insights p
    then call_of (insights_query p) ∷ []
    else if is_builtin p
    then call_of (vulns_query p) ∷ []
    else []

-- the button Save, which starts a mutation where it sends
abbrev saves : Panel → List Effect → Panel × List Effect
saves q [] = (q, [])
saves q (f ∷ fs) = (record q { saving = true }, f ∷ fs)

unfoldable pub remove_dashboard : Page → Bool → List Effect
remove_dashboard p confirmed =
    if not (is_builtin p) && confirmed then send (alerts (delete_dashboard p.view)) ∷ [] else []

unfoldable pub act : Panel → Event → Panel × List Effect
unfolding hours_or create suggest shown_widget added refresh remove_dashboard
act q (dashboards_loaded ds) = (record q { dashboards = ds }, [])
act q (pick_hours i) = (hours_or q (get_elem? hours_options i), [])
act q toggle_menu = (record q { page = record q.page { menu_open = not q.page.menu_open } }, [])
act q (pick_view view) =
    if q.page.menu_open then (record q { page = select_view q.page view }, []) else (q, [])
act q new_dashboard =
    if q.page.menu_open
    then (record q { page = record q.page { creating = true } }, [])
    else (q, [])
act q (type_name s) = (record q { page = record q.page { new_name = s } }, [])
act q press_enter_name = create q
act q press_create = if q.creating then (q, []) else create q
act q press_save = saves q (save q.page q.dashboards q.saving)
act q (press_delete confirmed) = (q, remove_dashboard q.page confirmed)
act q press_refresh = (q, refresh q.page)
act q (press_remove i) = (record q { page = remove_widget q.page i }, [])
act q (type_prompt s) = (record q { page = record q.page { prompt = s } }, [])
act q press_enter_prompt = generates q (handle_generate q.page)
act q press_generate = if q.generating then (q, []) else generates q (handle_generate q.page)
act q (pick_suggestion i) = suggest q (get_elem? prompt_suggestions i)
act q (press_add i) = added q (shown_widget q i)
act q (generate_reply latest ws) =
    if latest then (record q { generated = some ws; generating = false }, []) else (q, [])
act q (generate_failed latest) = (
  record q { generating = q.generating && not latest },
  failure "Could not reach the Wazuh indexer to build widgets" ∷ [],
)
act q (create_reply latest d) =
    with_page (record q { creating = q.creating && not latest }) (created_ok q.page d)
act q (create_failed latest) =
    (record q { creating = q.creating && not latest }, failure "Failed to create dashboard" ∷ [])
act q (save_reply reply) = with_page (record q { saving = false }) (saved_ok q.page reply)
act q save_failed = (record q { saving = false }, failure "Failed to save dashboard" ∷ [])
act q delete_reply = with_page q (deleted_ok q.page)
act q delete_failed = (q, failure "Failed to delete dashboard" ∷ [])

-- all that is asked for while the events happen one after another
unfoldable pub effects : Panel → List Event → List Effect
effects q [] = []
effects q (e ∷ es) = (act q e).1 ++ effects (act q e).0 es
