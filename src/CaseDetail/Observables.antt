-- ===== src/CaseDetail/Observables.antt =====
-- The observables of a case: the form, the editor of a row, and the lookup in other cases.
use socblitz.Common.{
  ℕ, ltb, String, Bool, not, ◌||◌, Option, none, some, List, [], ◌∷◌, ◌==◌, truthy, trim, or_null,
  or_text, found_is, is_some, if◌then◌else◌,
}
use socblitz.Common.Json.{Json, str, obj, end, field, nullable}
use socblitz.Api.{cases, add_observable, update_observable, delete_observable, correlate_observable}
use socblitz.Ui.{Effect, send, invalidate, success}

pub record ObsForm : Type 0 where
  pub obs_type : String
  pub value : String
  pub tlp : String
  pub asset_id : String

pub record ObsDraft : Type 0 where
  pub value : String
  pub description : String

pub record Observables : Type 0 where
  pub obs_form : ObsForm
  pub editing_obs_id : Option String
  pub editing_obs_draft : ObsDraft
  pub expanded_obs_id : Option String
  -- by id, the latest answer first
  pub correlate_results : List (String × Json)

-- what the handlers read of a row
pub record Observable : Type 0 where
  pub id : String
  pub value : String
  pub description : String
  -- how many other cases have it
  pub correlated_count : ℕ

unfoldable pub empty_form : ObsForm
empty_form = record { obs_type = "ip"; value = ""; tlp = "AMBER"; asset_id = "" }

unfoldable pub opened : Observables
unfolding empty_form
opened = record {
  obs_form = empty_form;
  editing_obs_id = none;
  editing_obs_draft = record { value = ""; description = "" };
  expanded_obs_id = none;
  correlate_results = [];
}

pub data Event : Type 0 where
  change_form : ObsForm → Event
  click_add : (is_pending : Bool) → Event
  edit : Observable → Event
  type_value : String → Event
  cancel_edit : Event
  save_edit : Observable → Event
  delete : Observable → Event
  expand : Observable → Event
  -- answers of the server
  added : Event
  edited : Event
  removed : Event
  correlated : (obs_id : String) → Json → Event

-- `correlateResults[id]`
unfoldable pub result_of : String → List (String × Json) → Option Json
result_of id [] = none
result_of id ((k, j) ∷ rest) = if k == id then some j else result_of id rest

add_form : String → Observables → List Effect
add_form case_id o =
    send (
      cases (
        add_observable case_id (
          obj (
            field "obs_type" (str o.obs_form.obs_type) (
              field "value" (str o.obs_form.value) (
                field "tlp" (str o.obs_form.tlp)
                  (field "asset_id" (nullable (or_null o.obs_form.asset_id)) end)))))))
    ∷ []

expand_row : String → Observables → String → Observables × List Effect
unfolding result_of
expand_row case_id o id =
    if found_is o.expanded_obs_id id then (record o { expanded_obs_id = none }, []) else (
      record o { expanded_obs_id = some id },
      if is_some (result_of id o.correlate_results)
          then []
          else send (cases (correlate_observable case_id id)) ∷ [],
    )

observables_key : String → Effect
observables_key case_id = invalidate (str "case-observables" ∷ str case_id ∷ [])

-- The answers of the server.
on_added : String → Observables → Observables × List Effect
unfolding empty_form observables_key
on_added case_id o = (
  record o { obs_form = empty_form },
  observables_key case_id
      ∷ invalidate (str "case-timeline" ∷ str case_id ∷ [])
      ∷ success "Observable added — enrichment queued"
      ∷ [],
)

on_edited : String → Observables → Observables × List Effect
unfolding observables_key
on_edited case_id o = (record o { editing_obs_id = none }, observables_key case_id ∷ [])

on_removed : String → Observables → Observables × List Effect
unfolding observables_key
on_removed case_id o = (o, observables_key case_id ∷ [])

on_correlated : String → String → Json → Observables → Observables × List Effect
on_correlated case_id id j o = (record o { correlate_results = (id, j) ∷ o.correlate_results }, [])

-- The editor of a row is shown only for the row with the id that is edited.
unfoldable pub act : String → Observables → Event → Observables × List Effect
unfolding add_form expand_row empty_form observables_key on_added on_edited on_removed on_correlated
act case_id o (change_form f) = (record o { obs_form = f }, [])
act case_id o (click_add is_pending) =
    (o, if not (truthy (trim o.obs_form.value)) || is_pending then [] else add_form case_id o)
act case_id o (edit r) = (
  record o {
    editing_obs_id = some r.id;
    editing_obs_draft = record { value = r.value; description = or_text r.description "" };
  },
  [],
)
act case_id o (type_value s) =
    (record o { editing_obs_draft = record o.editing_obs_draft { value = s } }, [])
act case_id o cancel_edit = (record o { editing_obs_id = none }, [])
act case_id o (save_edit r) = (
  o,
  if found_is o.editing_obs_id r.id
      then send (
          cases (
            update_observable case_id r.id
              (obj (field "value" (str o.editing_obs_draft.value) end))))
        ∷ []
      else [],
)
act case_id o (delete r) = (o, send (cases (delete_observable case_id r.id)) ∷ [])
act case_id o (expand r) = if ltb 0 r.correlated_count then expand_row case_id o r.id else (o, [])
act case_id o added = on_added case_id o
act case_id o edited = on_edited case_id o
act case_id o removed = on_removed case_id o
act case_id o (correlated id j) = on_correlated case_id id j o

unfoldable pub run : String → Observables → List Event → Observables
run case_id o [] = o
run case_id o (e ∷ es) = run case_id (act case_id o e).0 es
