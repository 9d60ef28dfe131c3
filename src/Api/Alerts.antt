-- ===== src/Api/Alerts.antt =====
-- The alert, event and dashboard helpers of the API client.
use socblitz.Common.{ℕ, String, Option, some, or_else}
use socblitz.Common.Json.{Json, Items, Fields, obj, str, num, arr, end, field}
use socblitz.Api.Http.{
  HttpRequest, get_url, get_with, post_json, patch_json, put_json, delete_url, path, path_id,
}

pub data AlertCall : Type 0 where
  health : AlertCall
  list_alerts : Option Fields → AlertCall
  alert_stats : AlertCall
  get_alert : (id : String) → AlertCall
  update_alert : (id : String) → Json → AlertCall
  ingest_alert : Json → AlertCall
  list_events : Option Fields → AlertCall
  get_event : (id : String) → AlertCall
  -- a left out `hours` is 24
  flooding_insights : (hours : Option ℕ) → AlertCall
  vuln_insights : (hours : Option ℕ) → AlertCall
  generate_dashboard : (prompt : String) (hours : Option ℕ) → AlertCall
  list_dashboards : AlertCall
  create_dashboard : (name : String) → AlertCall
  get_dashboard : (id : String) (hours : Option ℕ) → AlertCall
  save_dashboard : (id name : String) (widgets : Items) → AlertCall
  delete_dashboard : (id : String) → AlertCall

abbrev hours_param : Option ℕ → Fields
hours_param hours = field "hours" (num (or_else hours 24)) end

unfoldable pub alert_request : AlertCall → HttpRequest
alert_request health = get_url (path "/health/detailed")
alert_request (list_alerts params) = get_with (path "/alerts") params
alert_request alert_stats = get_url (path "/alerts/stats")
alert_request (get_alert id) = get_url (path_id "/alerts/" id)
alert_request (update_alert id j) = patch_json (path_id "/alerts/" id) j
alert_request (ingest_alert j) = post_json (path "/alerts") j
alert_request (list_events params) = get_with (path "/events") params
alert_request (get_event id) = get_url (path_id "/events/" id)
alert_request (flooding_insights hours) =
    get_with (path "/ai/insights/flooding") (some (hours_param hours))
alert_request (vuln_insights hours) =
    get_with (path "/ai/insights/vulnerabilities") (some (hours_param hours))
alert_request (generate_dashboard prompt hours) =
    post_json (path "/ai/dashboard/generate")
      (obj (field "prompt" (str prompt) (hours_param hours)))
alert_request list_dashboards = get_url (path "/ai/dashboards")
alert_request (create_dashboard name) =
    post_json (path "/ai/dashboards") (obj (field "name" (str name) end))
alert_request (get_dashboard id hours) =
    get_with (path_id "/ai/dashboards/" id) (some (hours_param hours))
alert_request (save_dashboard id name widgets) =
    put_json (path_id "/ai/dashboards/" id)
      (obj (field "name" (str name) (field "widgets" (arr widgets) end)))
alert_request (delete_dashboard id) = delete_url (path_id "/ai/dashboards/" id)
