-- ===== src/Examples/Dashboards.antt =====
-- Examples for frontend/src/pages/CustomDashboard.tsx.
use socblitz.Common.{
  ◌&&◌, all, ℕ, suc, String, ◌≡◌, refl, ◌≢◌, Bool, true, false, not, ◌||◌, ◌==◌, Option, none, some,
  List, [], ◌∷◌, get_elem?, eq_iff, arith, ltb, if◌then◌else◌, stringify,
}
use socblitz.Common.Json.{Json, str, null, obj, num, field, end}
use socblitz.CustomDashboard.{
  Widget, Saved, Seen, Page, add_widget, remove_widget, opened, render, add_to, remove_at,
  widget_key,
}
use socblitz.CustomDashboard.Loading.{renders, cached_view_is_blank, fetched_view_is_loaded}
use socblitz.CustomDashboard.Widgets.{HasDistinctKeys}
use socblitz.Api.{alerts, save_dashboard}
use socblitz.Ui.{send, set_query_data, invalidate, success}
use socblitz.CustomDashboard.{name_of, widget_items, is_builtin, is_insights, is_vulns}
use socblitz.CustomDashboard.Panel.{
  Panel, effects, act, press_save, press_delete, pick_view, save_reply, remove_dashboard,
}
use socblitz.CustomDashboard.Panel.Answers.{effects-save, targets}
use socblitz.CustomDashboard.Refinement.{lookup, edits, replay, edits-replay, add, remove}

abbrev widget : String → Option Json → Widget
widget generator params = record {
  generator = generator;
  params = params;
  title = generator;
  whole = null;
}

abbrev top_ips : Widget
top_ips = widget "top_ips" (some (obj (field "limit" (num 5) end)))

abbrev volume : Widget
volume = widget "volume" none

abbrev two : List Widget
two = top_ips ∷ volume ∷ []

volume_key : widget_key volume ≡ socblitz.Common.codes "volume{}"
unfolding widget_key stringify
volume_key = refl

abbrev at_d1 : Page
at_d1 = record {
  hours = 24;
  prompt = "";
  view = "d1";
  menu_open = false;
  creating = false;
  new_name = "";
  widgets = volume ∷ [];
  dirty = false;
}

abbrev stored : Saved
stored = record { ref = 7; widgets = some two }

-- the page before d1 was selected
abbrev at_insights : Seen
at_insights = record { saved = none; dirty = false; view = "__insights__" }

switched : at_insights.view ≢ at_d1.view
switched e = ground (arith, eq_iff "__insights__" "d1")

cached_view_is_blank_example :
    (renders 3 (at_insights, at_d1) (some stored)).1 ≡ record at_d1 { widgets = []; dirty = false }
cached_view_is_blank_example = cached_view_is_blank at_insights at_d1 stored 2 switched refl

fetched_view_is_loaded_example :
    (renders 3 (render (at_insights, at_d1) none) (some stored)).1
    ≡ record at_d1 { widgets = two; dirty = false }
fetched_view_is_loaded_example = fetched_view_is_loaded at_insights at_d1 stored two 2 switched refl

abbrev edited : Page
edited = record at_d1 { dirty = true }

abbrev at_edited : Seen
at_edited = record { saved = none; dirty = true; view = "d1" }

one_distinct : HasDistinctKeys (top_ips ∷ [])
one_distinct = (tt, tt)

readded : add_to two top_ips ≡ volume ∷ top_ips ∷ []
unfolding add_to widget_key stringify
readded = refl

abbrev saved_page : Page
saved_page = record opened { view = "d1"; widgets = top_ips ∷ [] }

edits-replay_example :
    lookup (edits saved_page (add volume ∷ remove 0 ∷ [])).widgets (widget_key volume)
    ≡ replay saved_page (add volume ∷ remove 0 ∷ []) (lookup saved_page.widgets) (widget_key volume)
edits-replay_example =
    edits-replay saved_page (add volume ∷ remove 0 ∷ []) (lookup saved_page.widgets) one_distinct
      (λ _. refl) (widget_key volume)

-- the widget that was added is found, the one that was removed is not
found_after :
    (lookup (edits saved_page (add volume ∷ remove 0 ∷ [])).widgets (widget_key volume)
      ≡ some volume)
    × (lookup (edits saved_page (add volume ∷ remove 0 ∷ [])).widgets (widget_key top_ips) ≡ none)
unfolding add_widget remove_widget add_to remove_at widget_key stringify opened
found_after = (refl, refl)

abbrev panel : Panel
panel = record {
  page = record edited { menu_open = true };
  dashboards = [];
  generated = none;
  generating = false;
  creating = false;
  saving = false;
}

builtin_d1 : is_builtin panel.page ≡ false
unfolding is_builtin is_insights is_vulns
builtin_d1 = refl

effects-save_example :
    effects panel (press_save ∷ pick_view "d2" ∷ save_reply null ∷ [])
    ≡ send
        (alerts (save_dashboard "d1" (name_of "My dashboard" "d1" []) (widget_items (volume ∷ []))))
      ∷ set_query_data (str "ai-dashboard" ∷ str "d2" ∷ num 24 ∷ []) null
      ∷ invalidate (str "ai-dashboards" ∷ [])
      ∷ success "Dashboard saved"
      ∷ []
effects-save_example = effects-save panel "d2" null builtin_d1 refl refl refl

deleted_d1 : targets (act panel (press_delete true)).1 ≡ "d1" ∷ []
unfolding act remove_dashboard is_builtin is_insights is_vulns
deleted_d1 = refl
