-- ===== src/Api/Engine.antt =====
-- The detection engine helpers of the API client. A left out text argument is "".
use socblitz.Common.{String, Option, List, or_else}
use socblitz.Common.Json.{Json, Fields, obj, str, arr, strs, end, field}
use socblitz.Api.Http.{HttpRequest, get_url, post_json, delete_url, path, path_id}

pub data EngineCall : Type 0 where
  engine_rules : EngineCall
  engine_test_log : (message : String) (program : Option String) → EngineCall
  engine_test_rule : Json → (message : String) (program : Option String) → EngineCall
  engine_normalize : (message : String) (program : Option String) → EngineCall
  engine_test_parser : (sample : String) (yaml program : Option String) → EngineCall
  engine_generate_parser : (sample : String) (hint : Option String) → EngineCall
  engine_generate_yaral : (sample : String) (hint : Option String) → EngineCall
  engine_test_yaral :
      (rule : String) (messages : List String) (program : Option String) → EngineCall
  engine_yaral_rules : EngineCall
  engine_list_parsers : EngineCall
  engine_get_parser : (name : String) → EngineCall
  engine_save_parser : (yaml : String) → EngineCall
  engine_delete_parser : (name : String) → EngineCall

-- `key: value` where a left out value is ""
abbrev optional : String → Option String → Fields → Fields
optional key value rest = field key (str (or_else value "")) rest

unfoldable pub engine_request : EngineCall → HttpRequest
engine_request engine_rules = get_url (path "/engine/rules")
engine_request (engine_test_log message program) =
    post_json (path "/engine/test")
      (obj (field "message" (str message) (optional "program" program end)))
engine_request (engine_test_rule rule message program) =
    post_json (path "/engine/rules/test")
      (obj (field "rule" rule (field "message" (str message) (optional "program" program end))))
engine_request (engine_normalize message program) =
    post_json (path "/engine/normalize")
      (obj (field "message" (str message) (optional "program" program end)))
engine_request (engine_test_parser sample yaml program) =
    post_json (path "/engine/parser/test")
      (obj (optional "yaml" yaml (field "sample" (str sample) (optional "program" program end))))
engine_request (engine_generate_parser sample hint) =
    post_json (path "/engine/parser/generate")
      (obj (field "sample" (str sample) (optional "hint" hint end)))
engine_request (engine_generate_yaral sample hint) =
    post_json (path "/engine/yaral/generate")
      (obj (field "sample" (str sample) (optional "hint" hint end)))
engine_request (engine_test_yaral rule messages program) = post_json (path "/engine/yaral/test") (
    obj (
      field "rule" (str rule)
        (field "messages" (arr (strs messages)) (optional "program" program end))))
engine_request engine_yaral_rules = get_url (path "/engine/yaral/rules")
engine_request engine_list_parsers = get_url (path "/engine/parsers")
engine_request (engine_get_parser name) = get_url (path_id "/engine/parsers/" name)
engine_request (engine_save_parser yaml) =
    post_json (path "/engine/parsers") (obj (field "yaml" (str yaml) end))
engine_request (engine_delete_parser name) = delete_url (path_id "/engine/parsers/" name)
