-- ===== src/CustomDashboard/Panel/Answers.antt =====
-- What the controls send for a dashboard, and what an answer does when another one is selected by then.
use socblitz.Common.{
  String, Bool, true, false, not, ◌&&◌, ◌||◌, ◌==◌, ◌≡◌, List, [], ◌∷◌, all, trim, truthy, arith,
  eq_refl,
}
use socblitz.Common.Json.{Json, str, num}
use socblitz.Api.{alerts, create_dashboard, save_dashboard, delete_dashboard}
use socblitz.Ui.{Effect, send, set_query_data, invalidate, success}
use socblitz.CustomDashboard.{
  is_builtin, is_insights, is_vulns, insights_view, vulns_view, name_of, widget_items, save,
  saved_ok, select_view, vulns_query, insights_query, handle_generate, add_widget, created_ok,
  deleted_ok,
}
use socblitz.CustomDashboard.Panel.{
  Panel, Event, press_save, pick_view, save_reply, press_enter_name, act, effects, create,
  remove_dashboard,
}

-- the dashboards that calls save or delete
abbrev pub targets : List Effect → List String
targets [] = []
targets (send (alerts (save_dashboard id name ws)) ∷ fs) = id ∷ targets fs
targets (send (alerts (delete_dashboard id)) ∷ fs) = id ∷ targets fs
targets (_ ∷ fs) = targets fs

-- the id of a dashboard of the user
abbrev pub is_saved_id : String → Bool
is_saved_id id = not (id == insights_view || id == vulns_view)

-- Every call that saves or deletes a dashboard is for the one that is selected, and never for one of the two
-- built-in views.
pub act-targets :
    (q : Panel) (e : Event)
    → all (λ id. id == q.page.view && is_saved_id id) (targets (act q e).1) ≡ true
unfolding act save remove_dashboard is_builtin is_insights is_vulns vulns_query insights_query
    create handle_generate add_widget created_ok saved_ok deleted_ok
act-targets q e = ground (arith, eq_refl q.page.view)

-- The dropdown is open on a dashboard with edits. It is saved, and another view is picked before the answer
-- arrives. The call saves the first one, and its answer is put into the cache as the data of the other.
pub effects-save :
    (q : Panel) (view : String) (reply : Json)
    → is_builtin q.page ≡ false
    → q.page.dirty ≡ true
    → q.saving ≡ false
    → q.page.menu_open ≡ true
    → effects q (press_save ∷ pick_view view ∷ save_reply reply ∷ [])
      ≡ send (
          alerts (
            save_dashboard q.page.view
              (name_of "My dashboard" q.page.view q.dashboards)
              (widget_items q.page.widgets)))
        ∷ set_query_data (str "ai-dashboard" ∷ str view ∷ num q.page.hours ∷ []) reply
        ∷ invalidate (str "ai-dashboards" ∷ [])
        ∷ success "Dashboard saved"
        ∷ []
unfolding effects act save saved_ok select_view
effects-save q view reply b d s m = ground arith

-- While a new dashboard is being created the button Create does nothing, but the key Enter in the box sends
-- the call again: pressed twice, it creates two dashboards of the name.
pub effects-create :
    (q : Panel)
    → q.page.menu_open ≡ true
    → q.page.creating ≡ true
    → truthy (trim q.page.new_name) ≡ true
    → effects q (press_enter_name ∷ press_enter_name ∷ [])
      ≡ send (alerts (create_dashboard (trim q.page.new_name)))
        ∷ send (alerts (create_dashboard (trim q.page.new_name)))
        ∷ []
unfolding effects act create
effects-create q m c t = ground arith
