-- ===== src/CustomDashboard.antt =====
-- The dashboard page, frontend/src/pages/CustomDashboard.tsx: the widgets of the selected dashboard,
-- their local edits, and what is loaded and saved.
pub mod Widgets
pub mod Refinement
pub mod Panel
pub mod Loading
use socblitz.Common.{
  ℕ, zero, suc, String, Bool, true, false, not, ◌&&◌, ◌||◌, Option, none, some, List, [], ◌∷◌, ◌++◌,
  ◌==◌, eqb, or_else, or_text, truthy, trim, codes, filter, find?, stringify, if◌then◌else◌,
}
use socblitz.Common.Json.{Json, Items, str, num, obj, nil, cons, end}
use socblitz.Api.{
  alerts, flooding_insights, vuln_insights, list_dashboards, get_dashboard, save_dashboard,
  generate_dashboard,
}
use socblitz.Ui.{
  say, Effect, send, invalidate, set_query_data, toast_success, toast_hint, success, Query,
}

-- A widget: what the page reads of it, and all of it as it is saved.
pub record Widget : Type 0 where
  pub generator : String
  pub params : Option Json
  pub title : String
  pub whole : Json

abbrev pub insights_view : String
insights_view = "__insights__"

abbrev pub vulns_view : String
vulns_view = "__vulns__"

-- `w.params || {}`, for params that are absent or an object
unfoldable pub widget_key : Widget → List ℕ
widget_key w = codes w.generator ++ stringify (or_else w.params (obj end))

-- equality of keys
abbrev pub same_key : List ℕ → List ℕ → Bool
same_key [] [] = true
same_key (a ∷ xs) (b ∷ ys) = eqb a b && same_key xs ys
same_key _ _ = false

-- an entry of the list of dashboards
pub record Dashboard : Type 0 where
  pub id : String
  pub name : String

-- The saved dashboard that the query holds: the object's identity, and its widgets.
pub record Saved : Type 0 where
  pub ref : ℕ
  pub widgets : Option (List Widget)

pub record Page : Type 0 where
  pub hours : ℕ
  pub prompt : String
  pub view : String
  pub menu_open : Bool
  pub creating : Bool
  pub new_name : String
  pub widgets : List Widget
  pub dirty : Bool

unfoldable pub opened : Page
opened = record {
  hours = 24;
  prompt = "";
  view = insights_view;
  menu_open = false;
  creating = false;
  new_name = "";
  widgets = [];
  dirty = false;
}

unfoldable pub is_insights : Page → Bool
is_insights p = p.view == insights_view

unfoldable pub is_vulns : Page → Bool
is_vulns p = p.view == vulns_view

unfoldable pub is_builtin : Page → Bool
unfolding is_insights is_vulns
is_builtin p = is_insights p || is_vulns p

-- The four queries.
unfoldable pub dashboards_query : Query
dashboards_query = record {
  key = str "ai-dashboards" ∷ [];
  call = alerts list_dashboards;
  enabled = true;
}

unfoldable pub insights_query : Page → Query
unfolding is_insights
insights_query p = record {
  key = str "ai-insights-flooding" ∷ num p.hours ∷ [];
  call = alerts (flooding_insights (some p.hours));
  enabled = is_insights p;
}

unfoldable pub vulns_query : Page → Query
unfolding is_vulns
vulns_query p = record {
  key = str "ai-insights-vulns" ∷ [];
  call = alerts (vuln_insights (some p.hours));
  enabled = is_vulns p;
}

unfoldable pub saved_query : Page → Query
unfolding is_insights
saved_query p = record {
  key = str "ai-dashboard" ∷ str p.view ∷ num p.hours ∷ [];
  call = alerts (get_dashboard p.view (some p.hours));
  enabled = not (is_insights p);
}

-- What the effects have seen of the render before.
pub record Seen : Type 0 where
  pub saved : Option ℕ
  pub dirty : Bool
  pub view : String

abbrev ref_of : Option Saved → Option ℕ
ref_of none = none
ref_of (some s) = some s.ref

abbrev same_ref : Option ℕ → Option ℕ → Bool
same_ref none none = true
same_ref (some a) (some b) = eqb a b
same_ref _ _ = false

abbrev same_bool : Bool → Bool → Bool
same_bool true b = b
same_bool false b = not b

unfoldable pub seen : Page → Option Saved → Seen
seen p saved = record { saved = ref_of saved; dirty = p.dirty; view = p.view }

-- `saved?.widgets`
abbrev pub saved_widgets : Option Saved → Option (List Widget)
saved_widgets none = none
saved_widgets (some s) = s.widgets

-- `if (saved?.widgets && !dirty) setDashboardWidgets(saved.widgets)`, of the render `p`
abbrev load : Page → Option (List Widget) → Page
load p none = p
load p (some ws) = if p.dirty then p else record p { widgets = ws }

-- the first effect, with its dependencies `[saved, dirty]`
load_effect : Seen → Page → Option Saved → Page
load_effect before p saved =
    if same_ref before.saved (ref_of saved) && same_bool before.dirty p.dirty
    then p
    else load p (saved_widgets saved)

-- the second effect, with its dependency `[view]`
reset_effect : Seen → Page → Page
reset_effect before p =
    if before.view == p.view then p else record p { widgets = []; dirty = false }

-- One render with both effects, in the order of the source. `saved` is the data of the query for the
-- view and the window of this render.
unfoldable pub render : Seen × Page → Option Saved → Seen × Page
unfolding load_effect reset_effect seen
render (before, p) saved = (seen p saved, reset_effect before (load_effect before p saved))

-- `setDashboardWidgets` of `addWidget`
unfoldable pub add_to : List Widget → Widget → List Widget
unfolding widget_key
add_to ws w = filter (λ x. not (same_key (widget_key x) (widget_key w))) ws ++ w ∷ []

unfoldable pub add_widget : Page → Widget → Page × List Effect
unfolding add_to is_builtin
add_widget p w =
    if is_builtin p
    then (p, toast_hint (say "Select or create a dashboard first (dropdown at the top)" ∷ []) ∷ [])
    else (
      record p { widgets = add_to p.widgets w; dirty = true },
      toast_success (say "Added \"" ∷ say w.title ∷ say "\" to the dashboard" ∷ []) ∷ [],
    )

-- `filter((_, i) => i !== idx)`
unfoldable pub remove_at : ℕ → List Widget → List Widget
remove_at i [] = []
remove_at zero (w ∷ ws) = ws
remove_at (suc i) (w ∷ ws) = w ∷ remove_at i ws

unfoldable pub remove_widget : Page → ℕ → Page
unfolding remove_at
remove_widget p i = record p { widgets = remove_at i p.widgets; dirty = true }

-- `handleGenerate`
unfoldable pub handle_generate : Page → List Effect
handle_generate p =
    let q = trim p.prompt in
    if truthy q then send (alerts (generate_dashboard q (some p.hours))) ∷ [] else []

-- the body of a saved dashboard
abbrev pub widget_items : List Widget → Items
widget_items [] = nil
widget_items (w ∷ ws) = cons w.whole (widget_items ws)

abbrev name_or : String → Option Dashboard → String
name_or fallback none = fallback
name_or fallback (some d) = or_text d.name fallback

-- `(dashboards || []).find(d => d.id === view)?.name || fallback`
unfoldable pub name_of : String → String → List Dashboard → String
name_of fallback view dashboards = name_or fallback (find? (λ d. d.id == view) dashboards)

unfoldable pub current_name : Page → List Dashboard → String
unfolding is_insights is_vulns name_of
current_name p dashboards =
    if is_insights p
    then "Flooding & noise insights"
    else if is_vulns p
    then "Vulnerability dashboard"
    else name_of "Dashboard" p.view dashboards

-- The button is shown for a dashboard of the user, and disabled unless there are edits and no save
-- is under way.
unfoldable pub save : Page → List Dashboard → (is_pending : Bool) → List Effect
unfolding is_builtin name_of
save p dashboards is_pending =
    if is_builtin p || not p.dirty || is_pending
    then []
    else send (
        alerts (
          save_dashboard p.view (name_of "My dashboard" p.view dashboards)
            (widget_items p.widgets)))
      ∷ []

-- The handlers of the three mutations, when the server has answered.
unfoldable pub saved_ok : Page → Json → Page × List Effect
saved_ok p reply = (
  record p { dirty = false },
  set_query_data (str "ai-dashboard" ∷ str p.view ∷ num p.hours ∷ []) reply
      ∷ invalidate (str "ai-dashboards" ∷ [])
      ∷ success "Dashboard saved"
      ∷ [],
)

unfoldable pub created_ok : Page → Dashboard → Page × List Effect
created_ok p d = (
  record p { view = d.id; creating = false; new_name = "" },
  invalidate (str "ai-dashboards" ∷ [])
      ∷ toast_success (say "Dashboard \"" ∷ say d.name ∷ say "\" created" ∷ [])
      ∷ [],
)

unfoldable pub deleted_ok : Page → Page × List Effect
deleted_ok p = (
  record p { view = insights_view },
  invalidate (str "ai-dashboards" ∷ []) ∷ success "Dashboard deleted" ∷ [],
)

-- An entry of the dropdown.
unfoldable pub select_view : Page → String → Page
select_view p view = record p { view = view; menu_open = false }
