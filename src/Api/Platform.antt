-- ===== src/Api/Platform.antt =====
-- The agent, connector, tenant and SOAR helpers of the API client.
use socblitz.Common.{String, Option, or_else}
use socblitz.Common.Json.{Json, Fields, obj, end}
use socblitz.Api.Http.{
  HttpRequest, get_url, get_with, post_url, post_json, patch_json, delete_url, path, path_id,
  path_id_sub,
}

pub data PlatformCall : Type 0 where
  list_agents : Option Fields → PlatformCall
  sync_agents : PlatformCall
  delete_agent : (id : String) → PlatformCall
  agent_vulns : (id : String) → PlatformCall
  list_connectors : PlatformCall
  update_connector : (id : String) → Json → PlatformCall
  verify_connector : (id : String) → PlatformCall
  list_tenants : PlatformCall
  create_tenant : Json → PlatformCall
  list_workflows : PlatformCall
  get_workflow : (id : String) → PlatformCall
  create_workflow : Json → PlatformCall
  update_workflow : (id : String) → Json → PlatformCall
  delete_workflow : (id : String) → PlatformCall
  -- a left out `data` is sent as `{}`
  run_workflow : (id : String) → Option Json → PlatformCall
  list_workflow_runs : (id : String) → PlatformCall
  list_node_types : PlatformCall

unfoldable pub platform_request : PlatformCall → HttpRequest
platform_request (list_agents params) = get_with (path "/agents") params
platform_request sync_agents = post_url (path "/agents/sync")
platform_request (delete_agent id) = delete_url (path_id "/agents/" id)
platform_request (agent_vulns id) = get_url (path_id_sub "/agents/" id "/vulnerabilities")
platform_request list_connectors = get_url (path "/connectors")
platform_request (update_connector id j) = patch_json (path_id "/connectors/" id) j
platform_request (verify_connector id) = post_url (path_id_sub "/connectors/" id "/verify")
platform_request list_tenants = get_url (path "/tenants")
platform_request (create_tenant j) = post_json (path "/tenants") j
platform_request list_workflows = get_url (path "/soar/workflows")
platform_request (get_workflow id) = get_url (path_id "/soar/workflows/" id)
platform_request (create_workflow j) = post_json (path "/soar/workflows") j
platform_request (update_workflow id j) = patch_json (path_id "/soar/workflows/" id) j
platform_request (delete_workflow id) = delete_url (path_id "/soar/workflows/" id)
platform_request (run_workflow id j) =
    post_json (path_id_sub "/soar/workflows/" id "/run") (or_else j (obj end))
platform_request (list_workflow_runs id) = get_url (path_id_sub "/soar/workflows/" id "/runs")
platform_request list_node_types = get_url (path "/soar/node-types")
