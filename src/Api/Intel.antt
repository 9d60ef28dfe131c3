-- ===== src/Api/Intel.antt =====
-- The threat intelligence, dark web and forensics helpers of the API client.
use socblitz.Common.{String, Option, none, some, [], ◌∷◌}
use socblitz.Common.Json.{Json, Fields, obj, str, end, field}
use socblitz.Api.Http.{
  HttpRequest, get_url, get_with, post_url, post_json, patch_json, delete_url, path, path_id,
  path_id_sub, lit, hole,
}

pub data IntelCall : Type 0 where
  lookup_ioc : (value type : String) → IntelCall
  misp_events : IntelCall
  darkweb_search : (query entity_type : String) → IntelCall
  darkweb_stats : IntelCall
  darkweb_assets : IntelCall
  darkweb_create_asset : Json → IntelCall
  darkweb_scan_asset : (id : String) → IntelCall
  darkweb_delete_asset : (id : String) → IntelCall
  darkweb_findings : Option Fields → IntelCall
  darkweb_update_finding : (id status : String) → IntelCall
  agent_deploy_command : IntelCall
  forensics_clients : IntelCall
  forensics_flows : (client_id : String) → IntelCall
  -- the parameters, where they are given
  forensics_collect : (client_id artifact : String) (parameters : Option Fields) → IntelCall
  forensics_results : (client_id flow_id artifact : String) → IntelCall

-- An undefined member is left out of the JSON text.
abbrev given : String → Option Fields → Fields → Fields
given key none rest = rest
given key (some fs) rest = field key (obj fs) rest

unfoldable pub intel_request : IntelCall → HttpRequest
intel_request (lookup_ioc value type) =
    post_json (path "/threat-intel/lookup")
      (obj (field "value" (str value) (field "type" (str type) end)))
intel_request misp_events = get_url (path "/threat-intel/misp/events")
intel_request (darkweb_search query entity_type) =
    post_json (path "/darkweb/search")
      (obj (field "query" (str query) (field "entity_type" (str entity_type) end)))
intel_request darkweb_stats = get_url (path "/darkweb/stats")
intel_request darkweb_assets = get_url (path "/darkweb/assets")
intel_request (darkweb_create_asset j) = post_json (path "/darkweb/assets") j
intel_request (darkweb_scan_asset id) = post_url (path_id_sub "/darkweb/assets/" id "/scan")
intel_request (darkweb_delete_asset id) = delete_url (path_id "/darkweb/assets/" id)
intel_request (darkweb_findings params) = get_with (path "/darkweb/findings") params
intel_request (darkweb_update_finding id status) =
    patch_json (path_id "/darkweb/findings/" id) (obj (field "status" (str status) end))
intel_request agent_deploy_command = get_url (path "/agent-deploy/command")
intel_request forensics_clients = get_url (path "/forensics/clients")
intel_request (forensics_flows client_id) =
    get_url (path_id_sub "/forensics/clients/" client_id "/flows")
intel_request (forensics_collect client_id artifact parameters) =
    post_json (path "/forensics/collect") (
      obj (
        field "client_id" (str client_id)
          (field "artifact" (str artifact) (given "parameters" parameters end))))
intel_request (forensics_results client_id flow_id artifact) =
    get_with
      (lit "/forensics/clients/"
        ∷ hole client_id
        ∷ lit "/flows/"
        ∷ hole flow_id
        ∷ lit "/results"
        ∷ [])
      (some (field "artifact" (str artifact) end))
