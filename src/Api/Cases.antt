-- ===== src/Api/Cases.antt =====
-- The case helpers of the API client.
use socblitz.Common.{String, Bool, true, Option, some, List, [], ◌∷◌, or_else}
use socblitz.Common.Json.{Json, Fields, obj, str, num, bool, arr, end, field, strs}
use socblitz.Api.Http.{
  HttpRequest, get_url, get_with, post_json, patch_json, delete_url, path, path_id, path_id_sub,
  path_two, lit, hole,
}

pub data CaseCall : Type 0 where
  list_cases : Option Fields → CaseCall
  get_case : (id : String) → CaseCall
  create_case : Json → CaseCall
  update_case : (id : String) → Json → CaseCall
  list_case_templates : CaseCall
  -- a left out `isInternal` is true
  add_comment : (case_id content : String) (is_internal : Option Bool) → CaseCall
  get_comments : (case_id : String) → CaseCall
  update_comment : (case_id comment_id content : String) → CaseCall
  add_observable : (case_id : String) → Json → CaseCall
  get_observables : (case_id : String) → CaseCall
  update_observable : (case_id obs_id : String) → Json → CaseCall
  delete_observable : (case_id obs_id : String) → CaseCall
  correlate_observable : (case_id obs_id : String) → CaseCall
  get_case_timeline : (case_id : String) → CaseCall
  add_timeline_event : (case_id description : String) (mitre_techniques : List String) → CaseCall
  list_case_alerts : (case_id : String) → CaseCall
  list_case_tasks : (case_id : String) → CaseCall
  create_case_task : (case_id : String) → Json → CaseCall
  update_case_task : (case_id task_id : String) → Json → CaseCall
  delete_case_task : (case_id task_id : String) → CaseCall
  list_case_assets : (case_id : String) → CaseCall
  create_case_asset : (case_id : String) → Json → CaseCall
  update_case_asset : (case_id asset_id : String) → Json → CaseCall
  delete_case_asset : (case_id asset_id : String) → CaseCall
  list_case_evidence : (case_id : String) → CaseCall
  create_case_evidence : (case_id : String) → Json → CaseCall
  update_case_evidence : (case_id evidence_id : String) → Json → CaseCall
  delete_case_evidence : (case_id evidence_id : String) → CaseCall
  list_case_notes : (case_id : String) → CaseCall
  create_case_note : (case_id : String) → Json → CaseCall
  update_case_note : (case_id note_id : String) → Json → CaseCall
  delete_case_note : (case_id note_id : String) → CaseCall
  list_mitre_techniques : CaseCall
  -- the request of `downloadCaseReport`
  case_report : (case_id : String) → CaseCall

unfoldable pub case_request : CaseCall → HttpRequest
case_request (list_cases params) = get_with (path "/cases") params
case_request (get_case id) = get_url (path_id "/cases/" id)
case_request (create_case j) = post_json (path "/cases") j
case_request (update_case id j) = patch_json (path_id "/cases/" id) j
case_request list_case_templates = get_url (path "/cases/templates")
case_request (add_comment case_id content is_internal) =
    post_json (path_id_sub "/cases/" case_id "/comments") (
      obj
        (field "content" (str content) (field "is_internal" (bool (or_else is_internal true)) end)))
case_request (get_comments case_id) = get_url (path_id_sub "/cases/" case_id "/comments")
case_request (update_comment case_id comment_id content) =
    patch_json (path_two "/cases/" case_id "/comments/" comment_id)
      (obj (field "content" (str content) end))
case_request (add_observable case_id j) = post_json (path_id_sub "/cases/" case_id "/observables") j
case_request (get_observables case_id) = get_url (path_id_sub "/cases/" case_id "/observables")
case_request (update_observable case_id obs_id j) =
    patch_json (path_two "/cases/" case_id "/observables/" obs_id) j
case_request (delete_observable case_id obs_id) =
    delete_url (path_two "/cases/" case_id "/observables/" obs_id)
case_request (correlate_observable case_id obs_id) =
    get_url
      (lit "/cases/" ∷ hole case_id ∷ lit "/observables/" ∷ hole obs_id ∷ lit "/correlate" ∷ [])
case_request (get_case_timeline case_id) = get_url (path_id_sub "/cases/" case_id "/timeline")
case_request (add_timeline_event case_id description mitre_techniques) =
    post_json (path_id_sub "/cases/" case_id "/timeline") (
      obj (
        field "description" (str description) (
          field "event_type" (str "manual")
            (field "mitre_techniques" (arr (strs mitre_techniques)) end))))
case_request (list_case_alerts case_id) =
    get_with (path "/alerts") (some (field "case_id" (str case_id) (field "limit" (num 200) end)))
case_request (list_case_tasks case_id) = get_url (path_id_sub "/cases/" case_id "/tasks")
case_request (create_case_task case_id j) = post_json (path_id_sub "/cases/" case_id "/tasks") j
case_request (update_case_task case_id task_id j) =
    patch_json (path_two "/cases/" case_id "/tasks/" task_id) j
case_request (delete_case_task case_id task_id) =
    delete_url (path_two "/cases/" case_id "/tasks/" task_id)
case_request (list_case_assets case_id) = get_url (path_id_sub "/cases/" case_id "/assets")
case_request (create_case_asset case_id j) = post_json (path_id_sub "/cases/" case_id "/assets") j
case_request (update_case_asset case_id asset_id j) =
    patch_json (path_two "/cases/" case_id "/assets/" asset_id) j
case_request (delete_case_asset case_id asset_id) =
    delete_url (path_two "/cases/" case_id "/assets/" asset_id)
case_request (list_case_evidence case_id) = get_url (path_id_sub "/cases/" case_id "/evidence")
case_request (create_case_evidence case_id j) =
    post_json (path_id_sub "/cases/" case_id "/evidence") j
case_request (update_case_evidence case_id evidence_id j) =
    patch_json (path_two "/cases/" case_id "/evidence/" evidence_id) j
case_request (delete_case_evidence case_id evidence_id) =
    delete_url (path_two "/cases/" case_id "/evidence/" evidence_id)
case_request (list_case_notes case_id) = get_url (path_id_sub "/cases/" case_id "/notes")
case_request (create_case_note case_id j) = post_json (path_id_sub "/cases/" case_id "/notes") j
case_request (update_case_note case_id note_id j) =
    patch_json (path_two "/cases/" case_id "/notes/" note_id) j
case_request (delete_case_note case_id note_id) =
    delete_url (path_two "/cases/" case_id "/notes/" note_id)
case_request list_mitre_techniques = get_url (path "/mitre/techniques")
case_request (case_report case_id) = record (get_url (path_id_sub "/cases/" case_id "/report")) {
  blob = true;
}
